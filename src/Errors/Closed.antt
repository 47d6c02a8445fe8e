-- ===== src/Errors/Closed.antt =====
-- remote_agent_connector/errors.py: the lemmas on the relay error contract.
use remote_agent_connector.Prelude.{◌≡◌, refl, ◌≢◌, Option, some, arith}
use remote_agent_connector.Errors.{
  code_of_value, RelayErrorCode, value, relay_diagnostics, relay_diagnostic, CodeArgument, known,
  raw, Stage, enrollment, canonical_relay_code, relay_challenge_invalid,
  relay_authentication_failed, or_parsed, internal_error_map, in_stage,
}

in_stage_enrollment :
    (c : RelayErrorCode)
    → (in_stage c (some enrollment) ≢ relay_challenge_invalid)
      × (in_stage c (some enrollment) ≢ relay_authentication_failed)
unfolding in_stage
in_stage_enrollment RelayErrorCode.relay_tls_failed = ground arith
in_stage_enrollment c = ground arith

-- While a device enrols, neither code of the authentication handshake is reported.
pub canonical-enrollment :
    (c : CodeArgument)
    → (canonical_relay_code c (some enrollment) ≢ relay_challenge_invalid)
      × (canonical_relay_code c (some enrollment) ≢ relay_authentication_failed)
unfolding canonical_relay_code
canonical-enrollment (known c) = in_stage_enrollment c
canonical-enrollment (raw text) =
    in_stage_enrollment (or_parsed (internal_error_map text) text (some enrollment))

-- Outside enrollment a public code that is raised by its text gives the diagnostic of that code: the
-- code itself, with the message and the retry flag of the table.
pub diagnostic-value :
    (c : RelayErrorCode) (stage : Option Stage)
    → stage ≢ some enrollment
    → ((relay_diagnostic (raw (value c)) stage).code ≡ value c)
      × ((relay_diagnostic (raw (value c)) stage).message ≡ (relay_diagnostics c).message)
      × ((relay_diagnostic (raw (value c)) stage).retryable ≡ (relay_diagnostics c).retryable)
unfolding relay_diagnostic internal_error_map value code_of_value
diagnostic-value RelayErrorCode.relay_challenge_invalid (some Stage.enrollment) h = absurd (h refl)
diagnostic-value RelayErrorCode.relay_challenge_invalid (some Stage.session) h = (refl, refl, refl)
diagnostic-value RelayErrorCode.relay_challenge_invalid stage h = (refl, refl, refl)
diagnostic-value RelayErrorCode.relay_authentication_failed (some Stage.enrollment) h =
    absurd (h refl)
diagnostic-value RelayErrorCode.relay_authentication_failed (some Stage.session) h =
    (refl, refl, refl)
diagnostic-value RelayErrorCode.relay_authentication_failed stage h = (refl, refl, refl)
diagnostic-value c stage h = (refl, refl, refl)
