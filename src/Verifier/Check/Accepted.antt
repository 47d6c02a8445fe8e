-- ===== src/Verifier/Check/Accepted.antt =====
-- remote_agent_connector/app_assertion.py, `verify`: the lemmas on an assertion that is accepted.
use remote_agent_connector.Prelude.{
  ℕ, true, false, ◌||◌, some, ◌≡◌, arith, sym, Option-cases, inl, inr,
}
use remote_agent_connector.Prelude.Dict
use remote_agent_connector.Prelude.Dict.{Dict}
use remote_agent_connector.Prelude.Int.{ℤ, pos, leb_ℤ, exceeds}
use remote_agent_connector.Prelude.Json.{Json, obj, Fields, item, without, to_text, equals_text}
use remote_agent_connector.Prelude.Texts.{sort_texts}
use remote_agent_connector.Relay.{
  agent_error, protocol_error, assertion_error, tool_error, type_error, runtime_error, value_error,
  key_error, integrity_error, cancelled_error, Result, ok, err, Result-cases,
}
use remote_agent_connector.Delegation.{Codec}
use remote_agent_connector.Delegation.Assertion.{parse_app_assertion}
use remote_agent_connector.Delegation.Headers.{scopes_equal}
use remote_agent_connector.Verifier.{Verifier, verify_signature, as_int}
use remote_agent_connector.Verifier.Replay.{reject_replay}
use remote_agent_connector.Verifier.Check.{
  Expected, parsed_or_refused, integer, check_times, check_key, check_binding, check_assertion,
  seen_key, replay_checked, verify,
}

-- The assertion is for this device, this request and its caller.
abbrev pub Fits : Verifier → Expected → Fields → Type 0
Fits v expected a =
    (equals_text v.connector_id (item "connector_id" a) ≡ true)
    × (equals_text expected.client_id (item "client_id" a) ≡ true)
    × (equals_text expected.app_id (item "app_id" a) ≡ true)
    × (scopes_equal (sort_texts expected.scopes) (item "scopes" a) ≡ true)
    × (equals_text expected.request_id (item "request_id" a) ≡ true)

check_binding-Fits :
    (v : Verifier) (expected : Expected) (a : Fields)
    → check_binding v expected a ≡ ok tt
    → Fits v expected a
unfolding check_binding
check_binding-Fits v expected a h = ground (arith, h)

-- The key may be used now: it is active or retiring, its time has come, the skew allowed for, and has
-- not passed.
abbrev pub Usable : Verifier → Fields → ℕ → Type 0
Usable v key current =
    ((equals_text "active" (item "status" key) || equals_text "retiring" (item "status" key))
      ≡ true)
    × ((m : ℤ) × (as_int (item "not_before" key) ≡ some m)
        × (exceeds v.clock_skew_seconds m (pos current) ≡ false))
    × ((n : ℤ) × (as_int (item "not_after" key) ≡ some n) × (leb_ℤ n (pos current) ≡ false))

check_key-Usable :
    (v : Verifier) (key : Fields) (current : ℕ)
    → check_key v key current ≡ ok tt
    → Usable v key current
unfolding check_key
check_key-Usable v key current h = elim (Option-cases (as_int (item "not_before" key))) [
  | inl e ↦ absurd (ground (arith, h, e))
  | inr (m, e) ↦ elim (Option-cases (as_int (item "not_after" key))) [
    | inl f ↦ absurd (ground (arith, h, e, f))
    | inr (n, f) ↦
        (ground (arith, h, e, f), (m, e, ground (arith, h, e, f)), (n, f, ground (arith, h, e, f)))
  ]
]

parsed_lem : (r : Result Fields) (a : Fields) → parsed_or_refused r ≡ ok a → r ≡ ok a
unfolding parsed_or_refused
parsed_lem (ok b) a h = h
parsed_lem (err (agent_error m)) a h = h
parsed_lem (err (protocol_error m)) a h = absurd (ground (arith, h))
parsed_lem (err (assertion_error m)) a h = h
parsed_lem (err (tool_error m)) a h = h
parsed_lem (err type_error) a h = h
parsed_lem (err runtime_error) a h = h
parsed_lem (err value_error) a h = h
parsed_lem (err key_error) a h = h
parsed_lem (err integrity_error) a h = h
parsed_lem (err cancelled_error) a h = h

check_times-live :
    (v : Verifier) (a : Fields) (current : ℕ)
    → check_times v a current ≡ ok tt
    → leb_ℤ (integer (item "expires_at" a)) (pos current) ≡ false
unfolding check_times
check_times-live v a current h = ground (arith, h)

-- What is checked before the replay check.
abbrev pub Checked : Codec → Verifier → Json → Dict Fields → Expected → ℕ → Fields → Type 0
Checked codec v assertion keys expected current a =
    (parse_app_assertion codec assertion ≡ ok a)
    × (leb_ℤ (integer (item "expires_at" a)) (pos current) ≡ false)
    × ((key : Fields) × (Dict.get (to_text codec.text_of (item "key_id" a)) keys ≡ some key)
        × Usable v key current
        × (verify_signature codec (item "public_key" key)
              (codec.canonical (obj (without "signature" a))) (item "signature" a)
            ≡ true))
    × Fits v expected a

check_assertion-Checked :
    (codec : Codec) (v : Verifier) (assertion : Json) (keys : Dict Fields) (expected : Expected)
    (current : ℕ) (a : Fields)
    → check_assertion codec v assertion keys expected current ≡ ok a
    → Checked codec v assertion keys expected current a
unfolding check_assertion
check_assertion-Checked codec v assertion keys expected current a h =
    elim (Result-cases (parsed_or_refused (parse_app_assertion codec assertion))) [
      | inr (e, p) ↦ absurd (ground (arith, h, p))
      | inl (b, p) ↦ elim (Result-cases (check_times v b current)) [
        | inr (e, t) ↦ absurd (ground (arith, h, p, t))
        | inl (_, t) ↦
            elim (Option-cases (Dict.get (to_text codec.text_of (item "key_id" b)) keys)) [
              | inl k ↦ absurd (ground (arith, h, p, t, k))
              | inr (key, k) ↦ elim (Result-cases (check_key v key current)) [
                | inr (e, u) ↦ absurd (ground (arith, h, p, t, k, u))
                | inl (_, u) ↦ elim (Result-cases (check_binding v expected b)) [
                  | inr (e, f) ↦ absurd (ground (arith, h, p, t, k, u, f))
                  | inl (_, f) ↦
                      let this : b ≡ a = ground (arith, h, p, t, k, u, f) in
                      rw (sym this) (
                        parsed_lem _ b p,
                        check_times-live v b current t,
                        (
                          key,
                          k,
                          check_key-Usable v key current u,
                          ground (arith, h, p, t, k, u, f),
                        ),
                        check_binding-Fits v expected b f,
                      )
                ]
              ]
            ]
      ]
    ]

replay_checked_lem :
    (b a : Fields) (v' : Verifier) (r : Result (Unit {0}) × Verifier)
    → replay_checked b r ≡ (ok a, v')
    → (b ≡ a) × (r ≡ (ok tt, v'))
replay_checked_lem b a v' (ok _, v) h = (ground (arith, h), ground (arith, h))
replay_checked_lem b a v' (err e, v) h = absurd (ground (arith, h))

-- An assertion that is accepted was parsed, has not expired and is for this device, this request
-- and its caller; a key that may be used now verifies its signature; and the replay check has
-- accepted its id, in the state that is returned.
pub verify_lem :
    (codec : Codec) (assertion : Json) (keys : Dict Fields) (expected : Expected)
    (current again : ℕ) (v v' : Verifier) (a : Fields)
    → verify codec assertion keys expected current again v ≡ (ok a, v')
    → Checked codec v assertion keys expected current a
      × (reject_replay
            (seen_key codec (item "assertion_id" a))
            (integer (item "expires_at" a))
            again
            v
          ≡ (ok tt, v'))
unfolding verify
verify_lem codec assertion keys expected current again v v' a h =
    elim (Result-cases (check_assertion codec v assertion keys expected current)) [
      | inr (e, p) ↦ absurd (ground (arith, h, p))
      | inl (b, p) ↦
          let (this, accepted) =
            replay_checked_lem b a v'
              (reject_replay (seen_key codec (item "assertion_id" b))
                (integer (item "expires_at" b)) again v)
              (ground (arith, h, p)) in
          rw (sym this)
            (check_assertion-Checked codec v assertion keys expected current b p, accepted)
    ]
