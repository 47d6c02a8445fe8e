-- ===== src/Delegation/Headers.antt =====
-- remote_agent_connector/protocol.py: `canonical_delegation` and `verify_delegation_headers`.
pub mod Trusted
pub mod Canonical
use Prim.Native.String.{◌++◌}
use remote_agent_connector.Prelude.{
  ℕ, String, Bool, true, false, ◌&&◌, ◌||◌, not, max, Option, none, some, List, [], ◌∷◌, ◌==◌,
  if◌then◌else◌,
}
use remote_agent_connector.Prelude.Int.{ℤ, pos, exceeds}
use remote_agent_connector.Prelude.Json.{
  Json, str, arr, Items, nil, cons, Fields, item, equals_text,
}
use remote_agent_connector.Prelude.Texts.{strip, lower, join, split}
use remote_agent_connector.Protocol.Ids.{parse_client_id, parse_nonce, is_hex_digest}
use remote_agent_connector.Relay.{protocol_error, Result, ok, err}
use remote_agent_connector.Service.Identity.{DelegatedIdentity}
use remote_agent_connector.Delegation.{Codec, ◌>>=◌, ◌>>◌, guard, need}
use remote_agent_connector.Delegation.Scopes.{validate_agent_scopes}
use remote_agent_connector.Delegation.Assertion.{parse_encoded}

-- What is signed: the version, and the fields by lines.
unfoldable pub v3_text : String → String → String → String → String → String
v3_text audience client_id timestamp nonce scopes =
    "v3\n"
    ++ (audience
        ++ ("\n" ++ (client_id ++ ("\n" ++ (timestamp ++ ("\n" ++ (nonce ++ ("\n" ++ scopes))))))))

unfoldable pub v4_text : String → String → String → String → String → String → String
v4_text audience client_id app_id timestamp nonce scopes =
    "v4\n"
    ++ (audience
        ++ ("\n"
            ++ (client_id
                ++ ("\n"
                    ++ (app_id
                        ++ ("\n" ++ (timestamp ++ ("\n" ++ (nonce ++ ("\n" ++ scopes))))))))))

-- An app id makes it version 4.
unfoldable pub signed_text : String → String → String → String → String → String → String
unfolding v3_text v4_text
signed_text audience client_id app_id timestamp nonce scopes =
    if app_id == ""
    then v3_text audience client_id timestamp nonce scopes
    else v4_text audience client_id app_id timestamp nonce scopes

unfoldable pub canonical_delegation :
    Codec → String → String → ℤ → String → List String → String → Result String
canonical_delegation codec audience client_id timestamp nonce scopes app_id = do
  client ← need (parse_client_id client_id) (protocol_error "client id is invalid")
  once ← need (parse_nonce nonce) (protocol_error "delegation nonce is invalid")
  granted ← validate_agent_scopes scopes
  ok (signed_text audience client (strip app_id) (codec.int_text timestamp) once (join "," granted))

-- A header that is missing reads as the empty text.
abbrev pub Headers : Type 0
Headers = String → String

-- The fields that the signature covers, and the signature.
pub record Claimed : Type 0 where
  pub client_id : String
  pub scopes : List String
  pub nonce : String
  pub timestamp : ℤ
  pub signature : String

abbrev either_error {ℓ} : {A : Type ℓ} → Result A → Result A
either_error (ok a) = ok a
either_error (err e) = err (protocol_error "delegated identity headers are invalid")

unfoldable pub read_headers : Codec → Headers → Result Claimed
read_headers codec h = either_error (do
  client_id ← need (parse_client_id (h "x-mcp-hub-client-id")) (protocol_error "")
  scopes ← validate_agent_scopes (split b',' (h "x-mcp-hub-client-scopes"))
  nonce ← need (parse_nonce (h "x-mcp-hub-client-nonce")) (protocol_error "")
  timestamp ← need (codec.int_of (strip (h "x-mcp-hub-client-timestamp"))) (protocol_error "")
  ok (record {
    client_id = client_id;
    scopes = scopes;
    nonce = nonce;
    timestamp = timestamp;
    signature = lower (strip (h "x-mcp-hub-client-signature"));
  }))

-- `tuple(value) == scopes`, for the texts that the parser put there.
unfoldable pub equals_texts : List String → Items → Bool
equals_texts [] nil = true
equals_texts (s ∷ rest) (cons v items) = equals_text s v && equals_texts rest items
equals_texts scopes items = false

unfoldable pub scopes_equal : List String → Json → Bool
unfolding equals_texts
scopes_equal scopes (arr items) = equals_texts scopes items
scopes_equal scopes v = false

unfoldable pub matched : Claimed → String → Fields → Bool
unfolding scopes_equal
matched c app_id a =
    equals_text c.client_id (item "client_id" a)
    && equals_text app_id (item "app_id" a)
    && equals_text c.nonce (item "nonce" a)
    && scopes_equal c.scopes (item "scopes" a)

-- The assertion of the request, if it has one that it may have.
unfoldable pub read_assertion : Codec → Claimed → String → String → Bool → Result (Option Fields)
read_assertion codec c app_id raw required =
    if app_id == ""
    then (if raw == ""
        then ok none
        else err (protocol_error "app assertion requires a v4 delegation"))
    else if raw == ""
    then (if required then err (protocol_error "app assertion is required") else ok none)
    else do
      a ← parse_encoded codec raw
      guard (matched c app_id a) (protocol_error "app assertion does not match the delegation")
      ok (some a)

unfoldable pub verify_delegation_headers :
    Codec → Headers → String → String → ℕ → ℕ → Bool → Result DelegatedIdentity
verify_delegation_headers codec h secret audience now max_age_seconds required = do
  c ← read_headers codec h
  guard (is_hex_digest c.signature) (protocol_error "delegation signature is invalid")
  guard
      (not (
        exceeds (max 1 max_age_seconds) (pos now) c.timestamp
        || exceeds (max 1 max_age_seconds) c.timestamp (pos now)))
      (protocol_error "delegation is expired")
  let app_id = strip (h "x-mcp-hub-app-id")
  payload ← canonical_delegation codec audience c.client_id c.timestamp c.nonce c.scopes app_id
  guard (codec.hmac secret payload == c.signature)
      (protocol_error "delegation signature is invalid")
  app_assertion ← read_assertion codec c app_id (strip (h "x-mcp-hub-app-assertion")) required
  ok (record {
    client_id = c.client_id;
    scopes = c.scopes;
    nonce = c.nonce;
    timestamp = c.timestamp;
    app_id = app_id;
    app_assertion = app_assertion;
  })
