-- ===== src/Verifier/Keyset/Lasting.antt =====
-- remote_agent_connector/app_assertion.py, `verify_keyset`: the lemmas on the time of the check.
use remote_agent_connector.Prelude.{ℕ, ◌≤◌, ◌≡◌, arith, Option-cases, inl, inr}
use remote_agent_connector.Prelude.Dict.{Dict}
use remote_agent_connector.Prelude.Json.{Json, Fields, obj, item}
use remote_agent_connector.Relay.{ok, Result-cases}
use remote_agent_connector.Delegation.{Codec}
use remote_agent_connector.Verifier.{Verifier, as_int}
use remote_agent_connector.Verifier.Keyset.{check_envelope, check_lifetime, verify_keyset}

check_lifetime_later :
    (v : Verifier) (keyset : Fields) (current later : ℕ)
    → current ≤ later
    → check_lifetime v keyset current ≡ ok tt
    → check_lifetime v keyset later ≡ ok tt
unfolding check_lifetime
check_lifetime_later v keyset current later le h =
    elim (Option-cases (as_int (item "issued_at" keyset))) [
      | inl e ↦ absurd (ground (arith, h, e))
      | inr (issued, e) ↦ elim (Option-cases (as_int (item "expires_at" keyset))) [
        | inl f ↦ absurd (ground (arith, h, e, f))
        | inr (expires, f) ↦ ground (arith, h, e, f, le)
      ]
    ]

-- A keyset that is accepted at one time is accepted at every later time, with the same keys: its
-- expiry is never compared with the clock.
pub verify_keyset_later :
    (codec : Codec) (v : Verifier) (keyset : Json) (current later : ℕ) (keys : Dict Fields)
    → current ≤ later
    → verify_keyset codec v keyset current ≡ ok keys
    → verify_keyset codec v keyset later ≡ ok keys
unfolding verify_keyset
verify_keyset_later codec v (obj keyset) current later keys le h =
    elim (Result-cases (check_lifetime v keyset current)) [
      | inr (e, p) ↦ absurd (elim (Result-cases (check_envelope codec v keyset)) [
        | inr (x, q) ↦ ground (arith, h, p, q)
        | inl (_, q) ↦ ground (arith, h, p, q)
      ])
      | inl (_, p) ↦ elim (Result-cases (check_envelope codec v keyset)) [
        | inr (x, q) ↦ absurd (ground (arith, h, q))
        | inl (_, q) ↦
            ground
              (arith, h, p, q, check_lifetime_later v keyset current later le (ground (arith, p)))
      ]
    ]
verify_keyset_later codec v keyset current later keys le h = absurd (ground (arith, h))
