-- ===== src/Tests/Verifying.antt =====
-- Headers, assertions and keysets that are accepted, and replays that are not.
use remote_agent_connector.Prelude.{
  ◌≤◌, String, true, false, max, [], ◌∷◌, ◌≡◌, refl, arith, length,
}
use remote_agent_connector.Prelude.Int.{pos, exceeds}
use remote_agent_connector.Prelude.Json.{obj, item}
use remote_agent_connector.Prelude.Texts.{lower, strip, join}
use remote_agent_connector.Relay.{ok, err, assertion_error}
use remote_agent_connector.Delegation.Headers.{canonical_delegation, verify_delegation_headers}
use remote_agent_connector.Delegation.Headers.Trusted.{Attested, verify_delegation_headers_lem}
use remote_agent_connector.Delegation.Headers.Canonical.{one_line, signed_text_injective}
use remote_agent_connector.Verifier.{Verifier, start}
use remote_agent_connector.Verifier.Replay.{reject_replay}
use remote_agent_connector.Verifier.Replay.Window.{
  submit_all, replay_refused, evicted_accepted, submit_all-start,
}
use remote_agent_connector.Verifier.Keyset.{verify_keyset}
use remote_agent_connector.Verifier.Keyset.Lasting.{verify_keyset_later}
use remote_agent_connector.Verifier.Check.{integer, seen_key, verify}
use remote_agent_connector.Verifier.Check.Accepted.{Checked, verify_lem}
use remote_agent_connector.Tests.Fleet.{differ}
use remote_agent_connector.Tests.Caller.{
  checks, codec, headers, identity, nonce, assertion, keyset, trusted, verifier, expected,
}

headers_verified :
    verify_delegation_headers codec headers "secret" "connector" 1000 90 true ≡ ok identity
unfolding checks
headers_verified = refl

verify_delegation_headers_lem_example :
    ((payload : String) × (canonical_delegation codec "connector" "hub"
          (pos 1000)
          nonce
          ("agent:read" ∷ [])
          "mail"
        ≡ ok payload)
      × (codec.hmac "secret" payload ≡ lower (strip (headers "x-mcp-hub-client-signature"))))
    × (exceeds (max 1 90) (pos 1000) (pos 1000) ≡ false)
    × (exceeds (max 1 90) (pos 1000) (pos 1000) ≡ false)
    × Attested identity true
verify_delegation_headers_lem_example =
    verify_delegation_headers_lem codec headers "secret" "connector" 1000 90 true identity
      headers_verified

-- With another secret the signature does not fit.
headers_refused :
    (verify_delegation_headers codec headers "other" "connector" 1000 90 true)
    ≡ err (remote_agent_connector.Relay.protocol_error "delegation signature is invalid")
unfolding checks
headers_refused = refl

signed_text_injective_example :
    (identity.client_id ≡ "hub")
    × (identity.app_id ≡ "mail")
    × (codec.int_text (pos 1000) ≡ "1000")
    × (identity.nonce ≡ nonce)
    × (join "," identity.scopes ≡ "agent:read")
unfolding one_line join
signed_text_injective_example =
    signed_text_injective "connector" identity.client_id "hub" identity.app_id "mail"
      (codec.int_text (pos 1000)) "1000" identity.nonce nonce (join "," identity.scopes)
      "agent:read" refl refl refl refl refl refl refl refl refl

abbrev seen_once : Verifier
seen_once = record verifier { seen = ("a1", pos 1040) ∷ [] }

assertion_verified :
    verify codec (obj assertion) trusted expected 1000 1000 verifier ≡ (ok assertion, seen_once)
unfolding checks
assertion_verified = refl

verify_lem_example :
    Checked codec verifier (obj assertion) trusted expected 1000 assertion
    × (reject_replay
          (seen_key codec (item "assertion_id" assertion))
          (integer (item "expires_at" assertion))
          1000
          verifier
        ≡ (ok tt, seen_once))
verify_lem_example =
    verify_lem codec (obj assertion) trusted expected 1000 1000 verifier seen_once assertion
      assertion_verified

first_accepted : (reject_replay "a1" (pos 1040) 1000 verifier).0 ≡ ok tt
unfolding checks
first_accepted = refl

replay_refused_example :
    (reject_replay "a1" (pos 1100) 1010 (
      submit_all
        (record { assertion_id = "a2"; expires_at = pos 1050; current = 1005 } ∷ [])
        (reject_replay "a1" (pos 1040) 1000 verifier).1)).0
    ≡ err (assertion_error "app_assertion_replayed")
replay_refused_example =
    replay_refused "a1" (pos 1040) (pos 1100) 1000 1010
      (record { assertion_id = "a2"; expires_at = pos 1050; current = 1005 } ∷ []) verifier
      first_accepted (omega arith) (refl, tt) refl

abbrev full : Verifier
full = record verifier { seen = ("a1", pos 1040) ∷ ("a2", pos 1040) ∷ [] }

evicted_accepted_example :
    (reject_replay "a1" (pos 1040) 1000 (reject_replay "a3" (pos 1040) 1000 full).1).0 ≡ ok tt
unfolding checks
evicted_accepted_example =
    evicted_accepted "a1" "a3" (pos 1040) (pos 1040) (pos 1040) 1000 (("a2", pos 1040) ∷ []) full
      refl refl refl refl refl (differ "a3" "a1" refl)

keyset_verified : verify_keyset codec verifier (obj keyset) 1000 ≡ ok trusted
unfolding checks
keyset_verified = refl

verify_keyset_later_example : verify_keyset codec verifier (obj keyset) 5000 ≡ ok trusted
verify_keyset_later_example =
    verify_keyset_later codec verifier (obj keyset) 1000 5000 trusted (omega arith) keyset_verified

submit_all-start_example :
    length
      (submit_all
        (record { assertion_id = "a1"; expires_at = pos 1040; current = 1000 }
          ∷ record { assertion_id = "a2"; expires_at = pos 1040; current = 1000 }
          ∷ [])
        (start verifier.anchor "laptop" (pos 5) (pos 0))).seen
    ≤ 1
submit_all-start_example = submit_all-start verifier.anchor "laptop" (pos 5) (pos 0) (
    record { assertion_id = "a1"; expires_at = pos 1040; current = 1000 }
    ∷ record { assertion_id = "a2"; expires_at = pos 1040; current = 1000 }
    ∷ [])
