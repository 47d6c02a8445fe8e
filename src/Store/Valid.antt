-- ===== src/Store/Valid.antt =====
-- remote_agent_connector/migrations/sqlite: the registry's integrity, that is the primary keys, the
-- foreign keys and which devices may be online, and the lemmas on tokens and challenges.
pub mod Devices
pub mod Instances
use remote_agent_connector.Prelude.{
  ℕ, String, Bool, true, false, ◌&&◌, Option, none, some, List, [], ◌∷◌, ◌++◌, ◌==◌, ◌≡◌, ◌≢◌, refl,
  ap, arith, eq_iff, eq_refl, is_none, not, if◌then◌else◌, Option-cases, Bool-cases, inl, inr,
}
use remote_agent_connector.Prelude.Table.{
  All, All-append, All-update_where, All-delete_where, All-imp, first, first_sound, first-append,
  first-update_where, first-delete_other, update_where, delete_where,
}
use remote_agent_connector.Prelude.Distinct.{
  Distinct, Distinct-append, Distinct-update_where, Distinct-delete_where,
}
use remote_agent_connector.Protocol.Profiles.{Profile}
use remote_agent_connector.Store.{
  Store, TokenRow, ChallengeRow, DeviceRow, InstanceRow, Datetime, is_online, is_enrolled,
  as_timestamp,
}
use remote_agent_connector.Store.Tokens.{
  issue_enrollment_token, consume_enrollment_token_detailed, token_row, mark_consumed, unconsumed,
}
use remote_agent_connector.Store.Challenges.{
  Challenge, create_challenge, consume_challenge, challenge_row, challenge_refused, unused,
  mark_used,
}
use remote_agent_connector.Store.Devices.{
  has_connector, get_device, enroll_device, revoke_device, delete_revoked_device, set_display_label,
  revoke_row, close_row, live_on,
}
use remote_agent_connector.Store.Instances.{
  has_instance, upsert_presence, upsert_row, heartbeat, disconnect_instance, mark_stale_instances,
  beats, of_generation, is_stale, retire,
}

-- The instance's device is there, and is enrolled if the instance is online.
abbrev pub Placed : List DeviceRow → InstanceRow → Type 0
Placed devices i =
    (d : DeviceRow) × (first (has_connector i.connector_id) devices ≡ some d)
    × (is_online i.state ≡ true → is_enrolled d.enrollment_state ≡ true)

pub record IsValid (s : Store) : Type 0 where
  pub tokens : Distinct (λ (r : TokenRow). r.token_hash) s.enrollment_tokens
  pub challenges : Distinct (λ (r : ChallengeRow). r.challenge_id) s.relay_challenges
  pub devices : Distinct (λ (r : DeviceRow). r.connector_id) s.remote_agent_devices
  pub instances : Distinct (λ (r : InstanceRow). r.instance_id) s.live_instances
  pub placed : All (Placed s.remote_agent_devices) s.live_instances

module _ (sha256 : String → String) where
  pub issue_enrollment_token-IsValid :
      (c p l : String) (seconds : ℕ) (now : Datetime) (raw : String) (s : Store)
      → IsValid s
      → IsValid (issue_enrollment_token sha256 c p l seconds now raw s).1
  unfolding issue_enrollment_token
  issue_enrollment_token-IsValid c p l seconds now raw s v =
      elim (Option-cases (token_row sha256 raw s)) [
        | inr (row, e) ↦ rw e v
        | inl e ↦ rw e (record {
          tokens =
              Distinct-append (λ (r : TokenRow). r.token_hash) s.enrollment_tokens _ v.tokens e;
          challenges = v.challenges;
          devices = v.devices;
          instances = v.instances;
          placed = v.placed;
        })
      ]

  pub create_challenge-IsValid :
      (seconds : ℕ) (now : Datetime) (drawn : Challenge) (s : Store)
      → IsValid s
      → IsValid (create_challenge sha256 seconds now drawn s).1
  unfolding create_challenge
  create_challenge-IsValid seconds now drawn s v =
      elim (Option-cases (challenge_row sha256 drawn.challenge_id s)) [
        | inr (row, e) ↦ rw e v
        | inl e ↦ rw e (record {
          tokens = v.tokens;
          challenges =
              Distinct-append (λ (r : ChallengeRow). r.challenge_id) s.relay_challenges _
                v.challenges e;
          devices = v.devices;
          instances = v.instances;
          placed = v.placed;
        })
      ]

  mark_consumed-IsValid :
      (raw : String) (now : ℕ) (s : Store)
      → IsValid s
      → IsValid (record s {
        enrollment_tokens =
            update_where (unconsumed sha256 raw) (mark_consumed sha256 now) s.enrollment_tokens;
      })
  unfolding mark_consumed
  mark_consumed-IsValid raw now s v = record {
    tokens =
        Distinct-update_where (λ (r : TokenRow). r.token_hash) (unconsumed sha256 raw) _
          s.enrollment_tokens (λ r _. refl) v.tokens;
    challenges = v.challenges;
    devices = v.devices;
    instances = v.instances;
    placed = v.placed;
  }

  pub consume_enrollment_token-IsValid :
      (raw c : String) (now : Datetime) (s : Store)
      → IsValid s
      → IsValid (consume_enrollment_token_detailed sha256 raw c now s).1
  unfolding consume_enrollment_token_detailed
  consume_enrollment_token-IsValid raw c now s v = elim (Option-cases (token_row sha256 raw s)) [
    | inl e ↦ rw e v
    | inr (row, e) ↦ rw e (ground (arith, v, mark_consumed-IsValid raw (as_timestamp now) s v))
  ]

  pub consume_challenge-IsValid :
      (id text : String) (now : Datetime) (s : Store)
      → IsValid s
      → IsValid (consume_challenge sha256 id text now s).1
  unfolding consume_challenge
  consume_challenge-IsValid id text now s v =
      elim (Bool-cases
        (challenge_refused sha256 (challenge_row sha256 id s) text (as_timestamp now))) [
          | inl e ↦ rw e v
          | inr e ↦ rw e (record {
            tokens = v.tokens;
            challenges =
                Distinct-update_where (λ (r : ChallengeRow). r.challenge_id) (unused sha256 id) _
                  s.relay_challenges (λ r _. refl) v.challenges;
            devices = v.devices;
            instances = v.instances;
            placed = v.placed;
          })
        ]
