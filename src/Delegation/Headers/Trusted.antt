-- ===== src/Delegation/Headers/Trusted.antt =====
-- remote_agent_connector/protocol.py, `verify_delegation_headers`: the lemmas on an identity that is
-- returned.
use remote_agent_connector.Prelude.{
  ℕ, String, Bool, true, false, max, Option, none, some, ◌==◌, ◌≡◌, ◌≢◌, ◌⊎◌, arith, eq_iff, inl,
  inr, Bool-cases, Option-cases,
}
use remote_agent_connector.Prelude.Int.{pos, exceeds}
use remote_agent_connector.Prelude.Json.{Fields, item, equals_text}
use remote_agent_connector.Prelude.Texts.{strip, lower, split}
use remote_agent_connector.Relay.{Result-cases, ok}
use remote_agent_connector.Service.Identity.{DelegatedIdentity}
use remote_agent_connector.Protocol.Ids.{parse_client_id}
use remote_agent_connector.Delegation.{Codec}
use remote_agent_connector.Delegation.Scopes.{validate_agent_scopes}
use remote_agent_connector.Delegation.Assertion.{parse_encoded}
use remote_agent_connector.Delegation.Headers.{
  Headers, Claimed, canonical_delegation, matched, scopes_equal, read_assertion, read_headers,
  verify_delegation_headers,
}

-- What ties an assertion to the identity that the headers prove.
abbrev pub Bound : DelegatedIdentity → Fields → Type 0
Bound i a =
    (equals_text i.client_id (item "client_id" a) ≡ true)
    × (equals_text i.app_id (item "app_id" a) ≡ true)
    × (equals_text i.nonce (item "nonce" a) ≡ true)
    × (scopes_equal i.scopes (item "scopes" a) ≡ true)

-- The identity that is put together from the headers.
abbrev identity_of : Claimed → String → Option Fields → DelegatedIdentity
identity_of c app_id found = record {
  client_id = c.client_id;
  scopes = c.scopes;
  nonce = c.nonce;
  timestamp = c.timestamp;
  app_id = app_id;
  app_assertion = found;
}

signature-read :
    (codec : Codec) (h : Headers) (c : Claimed)
    → read_headers codec h ≡ ok c
    → c.signature ≡ lower (strip (h "x-mcp-hub-client-signature"))
unfolding read_headers
signature-read codec h c p = elim (Option-cases (parse_client_id (h "x-mcp-hub-client-id"))) [
  | inl e ↦ absurd (ground (arith, p, e))
  | inr (client_id, e) ↦
      elim (Result-cases (validate_agent_scopes (split b',' (h "x-mcp-hub-client-scopes")))) [
        | inr (x, f) ↦ absurd (ground (arith, p, e, f))
        | inl (scopes, f) ↦ ground (arith, p, e, f)
      ]
]

client-read :
    (codec : Codec) (h : Headers) (c : Claimed)
    → read_headers codec h ≡ ok c
    → parse_client_id (h "x-mcp-hub-client-id") ≡ some c.client_id
unfolding read_headers
client-read codec h c p = elim (Option-cases (parse_client_id (h "x-mcp-hub-client-id"))) [
  | inl e ↦ absurd (ground (arith, p, e))
  | inr (client_id, e) ↦
      elim (Result-cases (validate_agent_scopes (split b',' (h "x-mcp-hub-client-scopes")))) [
        | inr (x, f) ↦ absurd (ground (arith, p, e, f))
        | inl (scopes, f) ↦ ground (arith, p, e, f)
      ]
]

-- The client of an identity that is returned is the one that the headers name.
pub verified_client :
    (codec : Codec) (h : Headers) (secret audience : String) (now max_age : ℕ) (required : Bool)
    (i : DelegatedIdentity)
    → verify_delegation_headers codec h secret audience now max_age required ≡ ok i
    → parse_client_id (h "x-mcp-hub-client-id") ≡ some i.client_id
unfolding verify_delegation_headers
verified_client codec h secret audience now max_age required i p =
    elim (Result-cases (read_headers codec h)) [
      | inr (e, q) ↦ absurd (ground (arith, p, q))
      | inl (c, q) ↦
          let app_id = strip (h "x-mcp-hub-app-id") in
          let client = client-read codec h c q in
          elim (Result-cases
            (canonical_delegation codec audience c.client_id c.timestamp c.nonce c.scopes app_id)) [
              | inr (e, r) ↦ absurd (ground (arith, p, q, r))
              | inl (payload, r) ↦
                  elim (Result-cases (
                    read_assertion codec c app_id (strip (h "x-mcp-hub-app-assertion")) required)) [
                      | inr (e, s) ↦ absurd (ground (arith, p, q, r, s))
                      | inl (found, s) ↦
                          let this : i ≡ identity_of c app_id found = ground (arith, p, q, r, s) in
                          rw this client
                    ]
            ]
    ]

read_assertion_lem :
    (codec : Codec) (c : Claimed) (app_id raw : String) (required : Bool) (found : Option Fields)
    → read_assertion codec c app_id raw required ≡ ok found
    → (app_id ≡ "" → found ≡ none)
      × (required ≡ true → app_id ≢ "" → (a : Fields) × (found ≡ some a))
      × ((a : Fields) → found ≡ some a → matched c app_id a ≡ true)
unfolding read_assertion
read_assertion_lem codec c app_id raw required found h = elim (Bool-cases (app_id == "")) [
  | inl bare ↦ (
    λ e. ground (arith, h, bare),
    λ e ne. absurd (ground (arith, bare, ne, eq_iff app_id "")),
    λ a e. absurd (ground (arith, h, bare, e)),
  )
  | inr named ↦ elim (Bool-cases (raw == "")) [
    | inl empty ↦ (
      λ e. absurd (ground (arith, e, named, eq_iff app_id "")),
      λ e ne. absurd (ground (arith, h, named, empty, e)),
      λ a e. absurd (ground (arith, h, named, empty, e)),
    )
    | inr sent ↦ elim (Result-cases (parse_encoded codec raw)) [
      | inr (x, refused) ↦ absurd (ground (arith, h, named, sent, refused))
      | inl (a, parsed) ↦ (
        λ e. absurd (ground (arith, e, named, eq_iff app_id "")),
        λ e ne. (a, ground (arith, h, named, sent, parsed)),
        λ b e. ground (arith, h, named, sent, parsed, e),
      )
    ]
  ]
]

verified_parts :
    (codec : Codec) (h : Headers) (secret audience : String) (now max_age : ℕ) (required : Bool)
    (i : DelegatedIdentity)
    → verify_delegation_headers codec h secret audience now max_age required ≡ ok i
    → ((payload : String) × (canonical_delegation codec audience i.client_id i.timestamp i.nonce
            i.scopes i.app_id
          ≡ ok payload)
        × (codec.hmac secret payload ≡ lower (strip (h "x-mcp-hub-client-signature"))))
      × (exceeds (max 1 max_age) (pos now) i.timestamp ≡ false)
      × (exceeds (max 1 max_age) i.timestamp (pos now) ≡ false)
      × (i.app_id ≡ "" → i.app_assertion ≡ none)
      × (required ≡ true → i.app_id ≢ "" → (a : Fields) × (i.app_assertion ≡ some a))
      × ((a : Fields) → i.app_assertion ≡ some a → Bound i a)
unfolding verify_delegation_headers
verified_parts codec h secret audience now max_age required i p =
    elim (Result-cases (read_headers codec h)) [
      | inr (e, q) ↦ absurd (ground (arith, p, q))
      | inl (c, q) ↦
          let app_id = strip (h "x-mcp-hub-app-id") in
          elim (Result-cases
            (canonical_delegation codec audience c.client_id c.timestamp c.nonce c.scopes app_id)) [
              | inr (e, r) ↦ absurd (ground (arith, p, q, r))
              | inl (payload, r) ↦
                  elim (Result-cases (
                    read_assertion codec c app_id (strip (h "x-mcp-hub-app-assertion")) required)) [
                      | inr (e, s) ↦ absurd (ground (arith, p, q, r, s))
                      | inl (found, s) ↦
                          let (bare, must, fits) =
                            read_assertion_lem codec c app_id (strip (h "x-mcp-hub-app-assertion"))
                              required found s in
                          let this : i ≡ identity_of c app_id found = ground (arith, p, q, r, s) in
                          rw this (
                            (
                              payload,
                              r,
                              ground (
                                arith,
                                p,
                                q,
                                r,
                                s,
                                eq_iff (codec.hmac secret payload) c.signature,
                                signature-read codec h c q,
                              ),
                            ),
                            ground (arith, p, q, r, s),
                            ground (arith, p, q, r, s),
                            bare,
                            must,
                            λ a e. unfold matched in ground (arith, fits a e),
                          )
                    ]
            ]
    ]

-- An identity names no application and has no assertion, or names one and has an assertion that is
-- bound to it, or names one and has none, which it may if none is required.
abbrev pub Attested : DelegatedIdentity → Bool → Type 0
Attested i required =
    ((i.app_id ≡ "") × (i.app_assertion ≡ none))
    ⊎ ((i.app_id ≢ "") × ((a : Fields) × (i.app_assertion ≡ some a) × Bound i a))
    ⊎ ((i.app_id ≢ "") × (i.app_assertion ≡ none) × (required ≡ false))

attested :
    (i : DelegatedIdentity) (required : Bool)
    → (i.app_id ≡ "" → i.app_assertion ≡ none)
    → (required ≡ true → i.app_id ≢ "" → (a : Fields) × (i.app_assertion ≡ some a))
    → ((a : Fields) → i.app_assertion ≡ some a → Bound i a)
    → Attested i required
attested i required bare must fits = elim (Bool-cases (i.app_id == "")) [
  | inl e ↦ let empty = (eq_iff i.app_id "").0 e in inl (empty, bare empty)
  | inr e ↦
      let named : i.app_id ≢ "" = λ p. ground (arith, e, p, eq_iff i.app_id "") in
      elim (Option-cases i.app_assertion) [
        | inr (a, f) ↦ inr (inl (named, (a, f, fits a f)))
        | inl f ↦ elim (Bool-cases required) [
          | inl r ↦ absurd (ground (arith, f, (must r named).1))
          | inr r ↦ inr (inr (named, f, r))
        ]
      ]
]

-- An identity that is returned was signed with the secret over exactly its own fields, in time. It
-- names no application and has no assertion, or names one and has an assertion for the same client,
-- application, nonce and scopes, or names one and has none, if assertions are not required.
pub verify_delegation_headers_lem :
    (codec : Codec) (h : Headers) (secret audience : String) (now max_age : ℕ) (required : Bool)
    (i : DelegatedIdentity)
    → verify_delegation_headers codec h secret audience now max_age required ≡ ok i
    → ((payload : String) × (canonical_delegation codec audience i.client_id i.timestamp i.nonce
            i.scopes i.app_id
          ≡ ok payload)
        × (codec.hmac secret payload ≡ lower (strip (h "x-mcp-hub-client-signature"))))
      × (exceeds (max 1 max_age) (pos now) i.timestamp ≡ false)
      × (exceeds (max 1 max_age) i.timestamp (pos now) ≡ false)
      × Attested i required
verify_delegation_headers_lem codec h secret audience now max_age required i p =
    let (signed, old, early, bare, must, fits) =
      verified_parts codec h secret audience now max_age required i p in
    (signed, old, early, attested i required bare must fits)
