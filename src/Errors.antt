-- ===== src/Errors.antt =====
-- remote_agent_connector/errors.py: the closed vocabulary of relay errors, and the diagnostic that a
-- relay frame carries.
pub mod Closed
use remote_agent_connector.Prelude.{
  ℕ, String, Bool, true, false, ◌||◌, Option, none, some, List, [], ◌∷◌, map, ◌==◌, if◌then◌else◌,
}

pub data RelayErrorCode : Type 0 where
  relay_tls_failed relay_upgrade_failed relay_challenge_timeout relay_challenge_invalid :
      RelayErrorCode
  enrollment_token_invalid enrollment_token_expired enrollment_token_consumed : RelayErrorCode
  connector_id_mismatch enrollment_signature_invalid enrollment_challenge_invalid : RelayErrorCode
  device_already_enrolled device_revoked relay_authentication_failed : RelayErrorCode
  relay_ready_failed relay_protocol_error : RelayErrorCode

unfoldable pub value : RelayErrorCode → String
value relay_tls_failed = "relay_tls_failed"
value relay_upgrade_failed = "relay_upgrade_failed"
value relay_challenge_timeout = "relay_challenge_timeout"
value relay_challenge_invalid = "relay_challenge_invalid"
value enrollment_token_invalid = "enrollment_token_invalid"
value enrollment_token_expired = "enrollment_token_expired"
value enrollment_token_consumed = "enrollment_token_consumed"
value connector_id_mismatch = "connector_id_mismatch"
value enrollment_signature_invalid = "enrollment_signature_invalid"
value enrollment_challenge_invalid = "enrollment_challenge_invalid"
value device_already_enrolled = "device_already_enrolled"
value device_revoked = "device_revoked"
value relay_authentication_failed = "relay_authentication_failed"
value relay_ready_failed = "relay_ready_failed"
value relay_protocol_error = "relay_protocol_error"

-- The keys of `_RELAY_DIAGNOSTICS`, in its order.
unfoldable pub all_codes : List RelayErrorCode
all_codes =
    relay_tls_failed ∷ relay_upgrade_failed ∷ relay_challenge_timeout ∷ relay_challenge_invalid
    ∷ enrollment_token_invalid ∷ enrollment_token_expired ∷ enrollment_token_consumed
    ∷ connector_id_mismatch ∷ enrollment_signature_invalid ∷ enrollment_challenge_invalid
    ∷ device_already_enrolled ∷ device_revoked ∷ relay_authentication_failed ∷ relay_ready_failed
    ∷ relay_protocol_error ∷ []

find_value : String → List RelayErrorCode → Option RelayErrorCode
find_value raw [] = none
find_value raw (c ∷ rest) = if value c == raw then some c else find_value raw rest

-- `RelayErrorCode(raw)`; `none` is the `ValueError`.
unfoldable pub code_of_value : String → Option RelayErrorCode
unfolding find_value value all_codes
code_of_value raw = find_value raw all_codes

pub record Spec : Type 0 where
  pub stage : String
  pub retryable : Bool
  pub message : String
  pub transport_only : Bool

spec : String → Bool → String → Spec
spec stage retryable message = record {
  stage = stage;
  retryable = retryable;
  message = message;
  transport_only = false;
}

unfoldable pub relay_diagnostics : RelayErrorCode → Spec
unfolding spec
relay_diagnostics relay_tls_failed = record {
  stage = "tls";
  retryable = true;
  message = "Relay TLS validation failed.";
  transport_only = true;
}
relay_diagnostics relay_upgrade_failed = spec "upgrade" true "Relay WebSocket upgrade failed."
relay_diagnostics relay_challenge_timeout = spec "challenge" true "Relay challenge timed out."
relay_diagnostics relay_challenge_invalid = spec "challenge" false "Relay challenge is invalid."
relay_diagnostics enrollment_token_invalid = spec "enrollment" false "Enrollment token is invalid."
relay_diagnostics enrollment_token_expired = spec "enrollment" false "Enrollment token has expired."
relay_diagnostics enrollment_token_consumed =
    spec "enrollment" false "Enrollment token has already been consumed."
relay_diagnostics connector_id_mismatch =
    spec "enrollment" false "Connector ID does not match the enrollment."
relay_diagnostics enrollment_signature_invalid =
    spec "enrollment" false "Enrollment signature is invalid."
relay_diagnostics enrollment_challenge_invalid =
    spec "enrollment" false "Enrollment challenge is invalid."
relay_diagnostics device_already_enrolled =
    spec "enrollment" false "This connector is already enrolled."
relay_diagnostics device_revoked = spec "authentication" false "This device has been revoked."
relay_diagnostics relay_authentication_failed =
    spec "authentication" false "Relay authentication failed."
relay_diagnostics relay_ready_failed = spec "ready" true "Relay session could not become ready."
relay_diagnostics relay_protocol_error = spec "session" false "Relay message is invalid."

-- `_INTERNAL_ERROR_MAP.get(raw)`.
unfoldable pub internal_error_map : String → Option RelayErrorCode
internal_error_map raw =
    if raw == "invalid_challenge"
    then some relay_challenge_invalid
    else if raw == "invalid_signature"
    then some relay_authentication_failed
    else if raw == "capabilities_not_granted"
    then some relay_ready_failed
    else none

-- The stage of a handler; the program passes these five, or none.
pub data Stage : Type 0 where
  challenge enrollment authentication ready session : Stage

abbrev pub stage_name : Stage → String
stage_name challenge = "challenge"
stage_name enrollment = "enrollment"
stage_name authentication = "authentication"
stage_name ready = "ready"
stage_name session = "session"

-- `RelayErrorCode | str`.
pub data CodeArgument : Type 0 where
  known : RelayErrorCode → CodeArgument
  raw : String → CodeArgument

unknown_code : Option Stage → RelayErrorCode
unknown_code (some ready) = relay_ready_failed
unknown_code _ = relay_protocol_error

or_unknown : Option RelayErrorCode → Option Stage → RelayErrorCode
unfolding unknown_code
or_unknown (some c) stage = c
or_unknown none stage = unknown_code stage

or_parsed : Option RelayErrorCode → String → Option Stage → RelayErrorCode
unfolding or_unknown
or_parsed (some c) text stage = c
or_parsed none text stage = or_unknown (code_of_value text) stage

in_stage : RelayErrorCode → Option Stage → RelayErrorCode
in_stage relay_challenge_invalid (some enrollment) = enrollment_challenge_invalid
in_stage relay_authentication_failed (some enrollment) = enrollment_signature_invalid
in_stage c stage = c

unfoldable pub canonical_relay_code : CodeArgument → Option Stage → RelayErrorCode
unfolding or_parsed in_stage
canonical_relay_code (known c) stage = in_stage c stage
canonical_relay_code (raw text) stage =
    in_stage (or_parsed (internal_error_map text) text stage) stage

pub record Diagnostic : Type 0 where
  pub v : ℕ
  pub type : String
  pub error_contract : String
  pub code : String
  pub stage : String
  pub retryable : Bool
  pub message : String

-- The stage that the diagnostic reports: the handler's for three codes, the table's otherwise.
reported_stage : RelayErrorCode → Option Stage → String
reported_stage relay_authentication_failed (some authentication) = "authentication"
reported_stage relay_authentication_failed (some session) = "session"
reported_stage relay_authentication_failed (some enrollment) = "enrollment"
reported_stage relay_protocol_error (some authentication) = "authentication"
reported_stage relay_protocol_error (some session) = "session"
reported_stage relay_protocol_error (some enrollment) = "enrollment"
reported_stage device_revoked (some authentication) = "authentication"
reported_stage device_revoked (some enrollment) = "enrollment"
reported_stage c stage = (relay_diagnostics c).stage

abbrev pub relay_error_contract_id : String
relay_error_contract_id = "business-mcp-remote-agent-relay-error-v1"

unfoldable pub relay_diagnostic : CodeArgument → Option Stage → Diagnostic
unfolding canonical_relay_code reported_stage
relay_diagnostic c stage =
    let canonical = canonical_relay_code c stage in
    record {
      v = 1;
      type = "error";
      error_contract = relay_error_contract_id;
      code = value canonical;
      stage = reported_stage canonical stage;
      retryable = (relay_diagnostics canonical).retryable;
      message = (relay_diagnostics canonical).message;
    }

-- One entry of the published vocabulary.
pub record ContractEntry : Type 0 where
  pub code : String
  pub spec : Spec

unfoldable pub relay_error_contract : List ContractEntry
unfolding value relay_diagnostics all_codes
relay_error_contract = map (λ c. record { code = value c; spec = relay_diagnostics c }) all_codes
