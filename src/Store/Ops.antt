-- ===== src/Store/Ops.antt =====
-- remote_agent_connector/store.py: histories of the store's methods from an empty database.
use remote_agent_connector.Prelude.{ℕ, String, List, [], ◌∷◌, Bool-cases, is_some, inl, inr}
use remote_agent_connector.Prelude.Json.{Json}
use remote_agent_connector.Protocol.Profiles.{Profile}
use remote_agent_connector.Store.{Store, empty, Datetime, RequestRow, RequestStatus}
use remote_agent_connector.Store.Tokens.{issue_enrollment_token, consume_enrollment_token_detailed}
use remote_agent_connector.Store.Challenges.{Challenge, create_challenge, consume_challenge}
use remote_agent_connector.Store.Devices.{
  enroll_device, revoke_device, delete_revoked_device, set_display_label,
}
use remote_agent_connector.Store.Instances.{
  upsert_presence, heartbeat, disconnect_instance, mark_stale_instances,
}
use remote_agent_connector.Store.Requests.{
  RequestKey, claimed_row, claim_request, complete_request, insert_or_ignore, request_row,
}
use remote_agent_connector.Store.Audit.{Event, append_audit}
use remote_agent_connector.Store.Valid.{
  IsValid, issue_enrollment_token-IsValid, create_challenge-IsValid,
  consume_enrollment_token-IsValid, consume_challenge-IsValid,
}
use remote_agent_connector.Store.Valid.Devices.{
  enroll_device-IsValid, revoke_device-IsValid, delete_revoked_device-IsValid,
  set_display_label-IsValid,
}
use remote_agent_connector.Store.Valid.Instances.{
  upsert_presence-IsValid, heartbeat-IsValid, disconnect_instance-IsValid,
  mark_stale_instances-IsValid,
}

-- One call of a method that writes. The reads of liveness write what `mark_stale` does.
pub data Op : Type 0 where
  issue : String → String → String → ℕ → Datetime → String → Op
  use_token : String → String → Datetime → Op
  challenge : ℕ → Datetime → Challenge → Op
  use_challenge : String → String → Datetime → Op
  enroll : String → String → String → Profile → Datetime → String → Op
  revoke : String → Datetime → Op
  delete : String → Op
  rename : String → String → Datetime → Op
  presence : String → String → String → ℕ → List String → Datetime → Op
  beat : String → String → ℕ → Datetime → Op
  disconnect : String → String → Datetime → Op
  mark_stale : Datetime → Op
  claim : RequestKey → String → String → String → Datetime → Op
  complete : RequestKey → RequestStatus → Json → Datetime → Op
  audit : Event → Datetime → String → Op

module _ (sha256 : String → String) (redact : Json → Json) where
  unfoldable pub apply : Op → Store → Store
  apply (issue c p l n now raw) s = (issue_enrollment_token sha256 c p l n now raw s).1
  apply (use_token raw c now) s = (consume_enrollment_token_detailed sha256 raw c now s).1
  apply (challenge n now drawn) s = (create_challenge sha256 n now drawn s).1
  apply (use_challenge id text now) s = (consume_challenge sha256 id text now s).1
  apply (enroll c key l p now platform) s = (enroll_device c key l p now platform s).1
  apply (revoke c now) s = (revoke_device c now s).1
  apply (delete c) s = (delete_revoked_device c s).1
  apply (rename c l now) s = set_display_label c l now s
  apply (presence c id g epoch caps now) s = (upsert_presence c id g epoch caps now s).1
  apply (beat id g epoch now) s = (heartbeat id g epoch now s).1
  apply (disconnect id g now) s = (disconnect_instance id g now s).1
  apply (mark_stale cutoff) s = (mark_stale_instances cutoff s).1
  apply (claim k r tool digest now) s = (claim_request k r tool digest now s).1
  apply (complete k status result now) s = complete_request k status result now s
  apply (audit e now id) s = append_audit redact e now id s

  unfoldable pub run : List Op → Store → Store
  unfolding apply
  run [] s = s
  run (op ∷ ops) s = run ops (apply op s)

  insert_or_ignore-IsValid :
      (k : RequestKey) (row : RequestRow) (s : Store)
      → IsValid s
      → IsValid (insert_or_ignore k row s)
  unfolding insert_or_ignore
  insert_or_ignore-IsValid k row s v = elim (Bool-cases (is_some (request_row k s))) [
    | inl e ↦ rw (e, insert_or_ignore) v
    | inr e ↦
        rw (e, insert_or_ignore)
          (record {
            tokens = v.tokens;
            challenges = v.challenges;
            devices = v.devices;
            instances = v.instances;
            placed = v.placed;
          })
  ]

  apply-IsValid : (op : Op) (s : Store) → IsValid s → IsValid (apply op s)
  unfolding apply claim_request complete_request append_audit
  apply-IsValid (issue c p l n now raw) s v =
      issue_enrollment_token-IsValid sha256 c p l n now raw s v
  apply-IsValid (use_token raw c now) s v = consume_enrollment_token-IsValid sha256 raw c now s v
  apply-IsValid (challenge n now drawn) s v = create_challenge-IsValid sha256 n now drawn s v
  apply-IsValid (use_challenge id text now) s v = consume_challenge-IsValid sha256 id text now s v
  apply-IsValid (enroll c key l p now platform) s v =
      enroll_device-IsValid c key l p now platform s v
  apply-IsValid (revoke c now) s v = revoke_device-IsValid c now s v
  apply-IsValid (delete c) s v = delete_revoked_device-IsValid c s v
  apply-IsValid (rename c l now) s v = set_display_label-IsValid c l now s v
  apply-IsValid (presence c id g epoch caps now) s v =
      upsert_presence-IsValid c id g epoch caps now s v
  apply-IsValid (beat id g epoch now) s v = heartbeat-IsValid id g epoch now s v
  apply-IsValid (disconnect id g now) s v = disconnect_instance-IsValid id g now s v
  apply-IsValid (mark_stale cutoff) s v = mark_stale_instances-IsValid cutoff s v
  apply-IsValid (claim k r tool digest now) s v =
      insert_or_ignore-IsValid k (claimed_row k r tool digest now) s v
  apply-IsValid (complete k status result now) s v = record {
    tokens = v.tokens;
    challenges = v.challenges;
    devices = v.devices;
    instances = v.instances;
    placed = v.placed;
  }
  apply-IsValid (audit e now id) s v = record {
    tokens = v.tokens;
    challenges = v.challenges;
    devices = v.devices;
    instances = v.instances;
    placed = v.placed;
  }

  run_from : (ops : List Op) (s : Store) → IsValid s → IsValid (run ops s)
  unfolding run
  run_from [] s v = v
  run_from (op ∷ ops) s v = run_from ops (apply op s) (apply-IsValid op s v)

  empty-IsValid : IsValid empty
  empty-IsValid = record { tokens = tt; challenges = tt; devices = tt; instances = tt; placed = tt }

  -- After any history of calls, valid or refused, the keys of tokens, challenges, devices and
  -- instances are distinct, each live instance belongs to a device that is there, and an instance
  -- that is online belongs to an enrolled device.
  pub run-IsValid : (ops : List Op) → IsValid (run ops empty)
  run-IsValid ops = run_from ops empty empty-IsValid
