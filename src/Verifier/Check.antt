-- ===== src/Verifier/Check.antt =====
-- remote_agent_connector/app_assertion.py: `AppAssertionVerifier.verify`.
pub mod Accepted
use remote_agent_connector.Prelude.{
  ℕ, String, Bool, true, false, ◌&&◌, ◌||◌, not, Option, none, some, List, [], ◌∷◌, ◌==◌,
  if◌then◌else◌,
}
use Prim.Native.String
use remote_agent_connector.Prelude.Dict
use remote_agent_connector.Prelude.Dict.{Dict}
use remote_agent_connector.Prelude.Int.{ℤ, pos, leb_ℤ, exceeds}
use remote_agent_connector.Prelude.Json.{
  Json, int, str, arr, obj, Items, nil, cons, Fields, item, without, to_text, equals_text,
  is_hashable,
}
use remote_agent_connector.Prelude.Texts.{sort_texts}
use remote_agent_connector.Relay.{
  protocol_error, type_error, assertion_error, agent_error, Result, ok, err,
}
use remote_agent_connector.Delegation.{Codec, ◌>>=◌, ◌>>◌, guard, need}
use remote_agent_connector.Delegation.Assertion.{
  parse_app_assertion, app_assertion_schema_version, app_assertion_issuer, app_assertion_audience,
  app_assertion_max_ttl_seconds,
}
use remote_agent_connector.Delegation.Headers.{scopes_equal}
use remote_agent_connector.Verifier.{Verifier, unverified, verify_signature, as_int}
use remote_agent_connector.Verifier.Replay.{reject_replay}

-- The parser's `ProtocolError` becomes an `AppAssertionError` with its message.
unfoldable pub parsed_or_refused : Result Fields → Result Fields
parsed_or_refused (err (protocol_error message)) = err (assertion_error message)
parsed_or_refused r = r

-- The integer of a field that the parser has checked.
unfoldable pub integer : Json → ℤ
integer (int n) = n
integer v = pos 0

-- What the request says of itself.
pub record Expected : Type 0 where
  pub request_id : String
  pub client_id : String
  pub app_id : String
  pub scopes : List String

-- The checks on the assertion's times.
unfoldable pub check_times : Verifier → Fields → ℕ → Result (Unit {0})
unfolding integer
check_times v a current = do
  guard (not (leb_ℤ (integer (item "expires_at" a)) (pos current)))
      (assertion_error "app_assertion_expired")
  guard (not (exceeds v.clock_skew_seconds (integer (item "issued_at" a)) (pos current))) unverified
  guard
      (not (
        exceeds app_assertion_max_ttl_seconds (integer (item "expires_at" a))
          (integer (item "issued_at" a))))
      unverified

-- The key's status, and its overlap window. A bound that is not an integer raises `TypeError`, as a
-- status that has no hash does; a keyset with a float for a bound is not modelled.
unfoldable pub check_key : Verifier → Fields → ℕ → Result (Unit {0})
unfolding as_int
check_key v key current = do
  guard (is_hashable (item "status" key)) type_error
  guard (equals_text "active" (item "status" key) || equals_text "retiring" (item "status" key))
      unverified
  not_before ← need (as_int (item "not_before" key)) type_error
  guard (not (exceeds v.clock_skew_seconds not_before (pos current))) unverified
  not_after ← need (as_int (item "not_after" key)) type_error
  guard (not (leb_ℤ not_after (pos current))) unverified

-- The checks of the assertion against this device and this request.
unfoldable pub check_binding : Verifier → Expected → Fields → Result (Unit {0})
check_binding v expected a = do
  guard
      (equals_text app_assertion_schema_version (item "schema_version" a)
        && equals_text app_assertion_issuer (item "issuer" a)
        && equals_text app_assertion_audience (item "audience" a))
      unverified
  guard (equals_text v.connector_id (item "connector_id" a))
      (assertion_error "app_identity_mismatch")
  guard
      (equals_text expected.client_id (item "client_id" a)
        && equals_text expected.app_id (item "app_id" a))
      (assertion_error "app_identity_mismatch")
  guard (scopes_equal (sort_texts expected.scopes) (item "scopes" a))
      (assertion_error "app_identity_mismatch")
  guard (equals_text expected.request_id (item "request_id" a))
      (assertion_error "app_identity_mismatch")

-- The checks before the replay check.
unfoldable pub check_assertion :
    Codec → Verifier → Json → Dict Fields → Expected → ℕ → Result Fields
check_assertion codec v assertion keys expected current = do
  a ← parsed_or_refused (parse_app_assertion codec assertion)
  check_times v a current
  key ← need (Dict.get (to_text codec.text_of (item "key_id" a)) keys) unverified
  check_key v key current
  guard
      (verify_signature codec (item "public_key" key)
        (codec.canonical (obj (without "signature" a))) (item "signature" a))
      unverified
  check_binding v expected a
  ok a

-- The cache's key for an id. A text is its own key; any other value gets a mark that no UUID has.
unfoldable pub seen_key : Codec → Json → String
seen_key codec (str s) = s
seen_key codec value = String.◌++◌ "#" (codec.text_of value)

abbrev pub replay_checked : Fields → Result (Unit {0}) × Verifier → Result Fields × Verifier
replay_checked a (ok _, v) = (ok a, v)
replay_checked a (err e, v) = (err e, v)

-- The clock is read a second time by the replay check. The result is the assertion, whose fields
-- `VerifiedAppAssertion` lists.
unfoldable pub verify :
    Codec → Json → Dict Fields → Expected → ℕ → ℕ → Verifier → Result Fields × Verifier
unfolding seen_key integer
verify codec assertion keys expected current again v =
    elim (check_assertion codec v assertion keys expected current) [
      | err e ↦ (err e, v)
      | ok a ↦ replay_checked a (
          reject_replay (seen_key codec (item "assertion_id" a)) (integer (item "expires_at" a))
            again v)
    ]
