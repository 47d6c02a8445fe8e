-- ===== src/Verifier/Keyset.antt =====
-- remote_agent_connector/app_assertion.py: `verify_keyset` and `pending_root`.
pub mod Lasting
use remote_agent_connector.Prelude.{
  ℕ, ◌*◌, String, Bool, true, false, ◌||◌, not, Option, none, some, List, [], ◌∷◌, ◌++◌, ◌==◌,
  is_some, if◌then◌else◌,
}
use remote_agent_connector.Prelude.Dict
use remote_agent_connector.Prelude.Dict.{Dict}
use remote_agent_connector.Prelude.Int.{ℤ, pos, leb_ℤ, exceeds}
use remote_agent_connector.Prelude.Json.{
  Json, null, str, arr, obj, Items, nil, cons, Fields, item, without, to_text, or_empty,
  equals_text,
}
use remote_agent_connector.Relay.{protocol_error, Result, ok, err}
use remote_agent_connector.Relay.Response.{require_keys}
use remote_agent_connector.Delegation.{Codec, ◌>>=◌, ◌>>◌, guard, need}
use remote_agent_connector.Delegation.Assertion.{decodes_to}
use remote_agent_connector.Verifier.{Verifier, unverified, verify_signature, as_int}

abbrev pub keyset_schema_version : String
keyset_schema_version = "business-mcp-remote-agent-app-keyset-v1"

abbrev pub keyset_max_lifetime_seconds : ℕ
keyset_max_lifetime_seconds = 24 * 60 * 60

abbrev pub key_fields : List String
key_fields = "key_id" ∷ "public_key" ∷ "not_before" ∷ "not_after" ∷ "status" ∷ []

abbrev pub root_fields : List String
root_fields = "key_id" ∷ "public_key" ∷ "not_before" ∷ "not_after" ∷ []

-- The checks on the envelope and its signature.
unfoldable pub check_envelope : Codec → Verifier → Fields → Result (Unit {0})
check_envelope codec v keyset = do
  guard (equals_text keyset_schema_version (item "schema_version" keyset)) unverified
  guard (equals_text v.anchor.root_key_id (item "root_key_id" keyset)) unverified
  guard
      (verify_signature codec (str v.anchor.root_public_key)
        (codec.canonical (obj (without "signature" keyset)))
        (str (or_empty codec.text_of (item "signature" keyset))))
      unverified

-- The checks on the keyset's own times. The current time is compared with the issue only.
unfoldable pub check_lifetime : Verifier → Fields → ℕ → Result (Unit {0})
check_lifetime v keyset current = do
  issued_at ← need (as_int (item "issued_at" keyset)) unverified
  expires_at ← need (as_int (item "expires_at" keyset)) unverified
  guard (not (leb_ℤ expires_at issued_at)) unverified
  guard (not (exceeds keyset_max_lifetime_seconds expires_at issued_at)) unverified
  guard (not (exceeds v.clock_skew_seconds issued_at (pos current))) unverified

-- The loop over the keys.
unfoldable pub add_keys : Codec → Items → Dict Fields → Result (Dict Fields)
add_keys codec nil keys = ok keys
add_keys codec (cons (obj k) rest) keys =
    let key_id = to_text codec.text_of (item "key_id" k) in
    let more = add_keys codec rest (keys ++ (key_id, k) ∷ []) in
    if not (require_keys k key_fields key_fields)
    then err unverified
    else if is_some (Dict.get key_id keys)
    then err unverified
    else if not (decodes_to codec 32 (item "public_key" k))
    then err (protocol_error "public_key is invalid")
    else more
add_keys codec (cons v rest) keys = err unverified

unfoldable pub read_keys : Codec → Json → Result (Dict Fields)
unfolding add_keys
read_keys codec (arr (cons k rest)) = add_keys codec (cons k rest) []
read_keys codec v = err unverified

unfoldable pub verify_keyset : Codec → Verifier → Json → ℕ → Result (Dict Fields)
verify_keyset codec v (obj keyset) current = do
  check_envelope codec v keyset
  check_lifetime v keyset current
  read_keys codec (item "keys" keyset)
verify_keyset codec v keyset current = err unverified

-- The checks on a replacement root; none is given where the keyset names none.
unfoldable pub check_root : Codec → Json → ℕ → Result (Option Fields)
unfolding as_int
check_root codec null current = ok none
check_root codec (obj root) current = do
  guard (require_keys root root_fields root_fields) unverified
  guard (decodes_to codec 32 (item "public_key" root)) (protocol_error "public_key is invalid")
  not_before ← need (as_int (item "not_before" root)) unverified
  not_after ← need (as_int (item "not_after" root)) unverified
  guard (not (leb_ℤ not_after not_before)) unverified
  guard (not (leb_ℤ not_after (pos current))) unverified
  ok (some root)
check_root codec candidate current = err unverified

unfoldable pub pending_root : Codec → Verifier → Fields → ℕ → Result (Option Fields)
pending_root codec v keyset current = do
  keys ← verify_keyset codec v (obj keyset) current
  check_root codec (item "next_root" keyset) current
