-- ===== src/Delegation/Assertion.antt =====
-- remote_agent_connector/protocol.py: `parse_app_assertion`, the strict parser of signed envelopes.
use remote_agent_connector.Prelude.{
  ℕ, String, Bool, false, not, Option, none, some, List, [], ◌∷◌, ◌==◌, is_some, eqb,
}
use remote_agent_connector.Prelude.Int.{ℤ, leb_ℤ, exceeds}
use remote_agent_connector.Prelude.Json.{
  Json, int, str, arr, obj, Items, nil, cons, Fields, item, put, to_text, or_empty, equals_text,
}
use remote_agent_connector.Prelude.Texts.{strip}
use remote_agent_connector.Protocol.Ids.{
  key_id_pattern, app_id_pattern, parse_client_id, parse_connector_id, parse_nonce,
}
use remote_agent_connector.Relay.{protocol_error, Result, ok, err}
use remote_agent_connector.Relay.Response.{require_keys}
use remote_agent_connector.Delegation.{Codec, ◌>>=◌, ◌>>◌, guard, need}
use remote_agent_connector.Delegation.Scopes.{raw_scopes, validate_agent_scopes}

abbrev pub app_assertion_schema_version : String
app_assertion_schema_version = "business-mcp-remote-agent-app-assertion-v2"

abbrev pub app_assertion_issuer : String
app_assertion_issuer = "business-mcp-hub"

abbrev pub app_assertion_audience : String
app_assertion_audience = "remote-agent-device"

abbrev pub app_assertion_max_ttl_seconds : ℕ
app_assertion_max_ttl_seconds = 300

abbrev pub assertion_fields : List String
assertion_fields =
    "schema_version" ∷ "issuer" ∷ "audience" ∷ "key_id" ∷ "client_id" ∷ "app_id" ∷ "connector_id"
    ∷ "scopes" ∷ "issued_at" ∷ "expires_at" ∷ "nonce" ∷ "request_id" ∷ "assertion_id" ∷ "signature"
    ∷ []

-- `_assertion_int`: a Boolean is no integer here.
unfoldable pub assertion_int : Json → Option ℤ
assertion_int (int n) = some n
assertion_int v = none

unfoldable pub scope_items : List String → Items
scope_items [] = nil
scope_items (s ∷ rest) = cons (str s) (scope_items rest)

-- `{**decoded, "app_id": …, "scopes": …}`.
unfoldable pub envelope : Fields → String → List String → Fields
unfolding scope_items
envelope decoded app_id scopes =
    put "scopes" (arr (scope_items scopes)) (put "app_id" (str app_id) decoded)

-- The checks on the envelope's own fields.
unfoldable pub check_names : Codec → Fields → Result (Unit {0})
check_names codec d = do
  guard (require_keys d assertion_fields assertion_fields)
      (protocol_error "app assertion fields are invalid")
  guard (equals_text app_assertion_schema_version (item "schema_version" d))
      (protocol_error "app assertion schema is unsupported")
  guard (equals_text app_assertion_issuer (item "issuer" d))
      (protocol_error "app assertion issuer is invalid")
  guard (equals_text app_assertion_audience (item "audience" d))
      (protocol_error "app assertion audience is invalid")
  guard (key_id_pattern (to_text codec.text_of (item "key_id" d)))
      (protocol_error "app assertion key id is invalid")
  guard (is_some (parse_client_id (or_empty codec.text_of (item "client_id" d))))
      (protocol_error "client id is invalid")

-- The checks on the lifetime.
unfoldable pub check_times : Fields → Result (Unit {0})
unfolding assertion_int
check_times d = do
  issued_at ←
      need (assertion_int (item "issued_at" d))
        (protocol_error "app assertion issued_at is invalid")
  expires_at ←
      need (assertion_int (item "expires_at" d))
        (protocol_error "app assertion expires_at is invalid")
  guard (not (leb_ℤ expires_at issued_at)) (protocol_error "app assertion expiry is invalid")
  guard (not (exceeds app_assertion_max_ttl_seconds expires_at issued_at))
      (protocol_error "app assertion lifetime is too long")

-- `_b64decode`, as a test.
unfoldable pub decodes_to : Codec → ℕ → Json → Bool
decodes_to codec expected_length v = elim (codec.byte_length (strip (or_empty codec.text_of v))) [
  | none ↦ false
  | some n ↦ eqb n expected_length
]

-- The checks on the ids and the signature's form.
unfoldable pub check_ids : Codec → Fields → Result (Unit {0})
check_ids codec d = do
  guard (is_some (parse_nonce (or_empty codec.text_of (item "nonce" d))))
      (protocol_error "delegation nonce is invalid")
  guard (is_some (codec.uuid (to_text codec.text_of (item "request_id" d))))
      (protocol_error "request_id must be a UUID")
  guard (is_some (codec.uuid (to_text codec.text_of (item "assertion_id" d))))
      (protocol_error "assertion_id must be a UUID")
  guard (decodes_to codec 64 (item "signature" d)) (protocol_error "signature is invalid")

unfoldable pub parse_decoded : Codec → Fields → Result Fields
parse_decoded codec d = do
  check_names codec d
  let app_id = strip (or_empty codec.text_of (item "app_id" d))
  guard (app_id_pattern app_id) (protocol_error "app assertion app id is invalid")
  guard (is_some (parse_connector_id (or_empty codec.text_of (item "connector_id" d))))
      (protocol_error "connector_id is invalid")
  raw ← raw_scopes codec.text_of (item "scopes" d)
  scopes ← validate_agent_scopes raw
  check_times d
  check_ids codec d
  ok (envelope d app_id scopes)

-- A value that is not a dictionary.
decoded_object : Json → Result Fields
decoded_object (obj d) = ok d
decoded_object v = err (protocol_error "app assertion fields are invalid")

unfoldable pub parse_encoded : Codec → String → Result Fields
unfolding decoded_object
parse_encoded codec value = do
  guard (not (strip value == "")) (protocol_error "app assertion is missing")
  decoded ← need (codec.decode (strip value)) (protocol_error "app assertion is not valid JSON")
  d ← decoded_object decoded
  parse_decoded codec d

unfoldable pub parse_app_assertion : Codec → Json → Result Fields
parse_app_assertion codec (obj d) = parse_decoded codec d
parse_app_assertion codec v = parse_encoded codec (or_empty codec.text_of v)
