-- ===== src/Service/Commands/Outcomes.antt =====
-- remote_agent_connector/service.py, `device_command`: the lemmas on the ways in which it ends.
use remote_agent_connector.Prelude.{
  String, false, none, some, ◌≡◌, ◌≢◌, refl, arith, eq_refl, Bool-cases, inl, inr, ltb,
}
use remote_agent_connector.Prelude.Dict
use remote_agent_connector.Prelude.Dict.{get-pop}
use remote_agent_connector.Prelude.Json.{Json, Fields, obj, str, field, end}
use remote_agent_connector.Prelude.Table.{first}
use remote_agent_connector.Store.{
  Store, RequestRow, RequestStatus, completed, failed as failed_status, Datetime, is_pending,
}
use remote_agent_connector.Store.Requests.{RequestKey, request_row, complete_request, close_claim}
use remote_agent_connector.Store.Idempotency.{request_row_complete, claim-fresh, claim-claim}
use remote_agent_connector.Store.Audit.{append_audit}
use remote_agent_connector.Relay.{agent_error, Result, err}
use remote_agent_connector.Service.{Env, App, GuardKey, Guard, audit}
use remote_agent_connector.Service.Commands.{
  Call, Dispatched, Wake, result_max_bytes, answered, timed_out, broken, task_cancelled, settle,
  finish, release, abandon, fail_request, set_pending, claim_and_launch, after_claim, launch,
  request_key,
}
use remote_agent_connector.Service.Collision.{acquire_collision_guard, collision_key, same_key}
use remote_agent_connector.Service.Checks.{Command, Admitted, request_digest}

closed :
    (k : RequestKey) (status : RequestStatus) (v : Json) (now : Datetime) (s : Store)
    (row : RequestRow)
    → is_pending status ≡ false
    → request_row k s ≡ some row
    → (row' : RequestRow) × (request_row k (complete_request k status v now s) ≡ some row')
      × (is_pending row'.status ≡ false)
unfolding close_claim
closed k status v now s row final found = elim (Bool-cases (is_pending row.status)) [
  | inl e ↦ (
    close_claim status v now row,
    ground (arith, e, request_row_complete k status v now s row found),
    final,
  )
  | inr e ↦ (row, ground (arith, e, request_row_complete k status v now s row found), e)
]

finish-closed :
    (env : Env) (call : Call) (v : Fields) (now : Datetime) (s : App) (row : RequestRow)
    → request_row call.key s.store ≡ some row
    → (row' : RequestRow) × (request_row call.key (finish env call v now s).1.store ≡ some row')
      × (is_pending row'.status ≡ false)
unfolding finish fail_request audit append_audit request_row
finish-closed env call v now s row found =
    elim (Bool-cases (ltb result_max_bytes (env.encoded_size (obj v)))) [
      | inl e ↦
          let (row', p, q) =
            closed call.key failed_status (obj (field "code" (str "result_too_large") end)) now
              s.store row refl found in
          (row', ground (arith, e, p), q)
      | inr e ↦
          let (row', p, q) = closed call.key completed (obj v) now s.store row refl found in
          (row', ground (arith, e, p), q)
    ]

-- If the claim of a call is on record and its task is not cancelled, then however the call ends its
-- claim is still on record and is no longer pending.
pub settle-closed :
    (env : Env) (call : Call) (w : Wake) (now : Datetime) (s : App) (row : RequestRow)
    → w ≢ task_cancelled
    → request_row call.key s.store ≡ some row
    → (row' : RequestRow) × (request_row call.key (settle env call w now s).1.store ≡ some row')
      × (is_pending row'.status ≡ false)
unfolding settle release abandon fail_request
settle-closed env call (answered v) now s row ne found =
    finish-closed env call v now (release call s) row found
settle-closed env call timed_out now s row ne found =
    closed call.key failed_status (obj (field "code" (str "device_timeout") end)) now
      (abandon call s).store row refl (ground (arith, found))
settle-closed env call broken now s row ne found =
    closed call.key failed_status (obj (field "code" (str "device_offline") end)) now s.store row
      refl found
settle-closed env call task_cancelled now s row ne found = absurd (ne refl)

-- A new claim whose collision key is held is refused as in flight, and its row stays pending: a
-- retry of the same request under the same key, with another request id, is then refused as pending.
pub busy-strands :
    (env : Env) (c : Command) (a : Admitted) (k : GuardKey) (g : Guard) (retry : String)
    (now later : Datetime) (s : App)
    → request_row (request_key c a) s.store ≡ none
    → collision_key env a.connector_id c.tool c.arguments ≡ some k
    → first (same_key k) s.in_flight ≡ some g
    → a.request_id ≢ retry
    → let stranded : Result Dispatched × App = claim_and_launch env c a now s in
      (stranded.0 ≡ err (agent_error "command_in_flight"))
      × ((claim_and_launch env c (record a { request_id = retry }) later stranded.1).0
          ≡ err (agent_error "request_pending"))
unfolding claim_and_launch after_claim launch acquire_collision_guard request_key
busy-strands env c a k g retry now later s absent key held ne =
    let digest = request_digest env a.connector_id c.tool c.arguments a.row in
    let fresh = claim-fresh (request_key c a) a.request_id c.tool digest now s.store absent in
    let again =
      claim-claim (request_key c a) a.request_id retry c.tool c.tool digest digest now later s.store
        absent ne in
    (ground (arith, fresh, key, held), ground (arith, fresh, again, key, held, eq_refl digest))

-- However a command ends, its session no longer waits for it.
pub settle-released :
    (env : Env) (call : Call) (w : Wake) (now : Datetime) (s : App)
    → Dict.get call.request_id ((settle env call w now s).1.relay.objects call.session).pending
      ≡ none
unfolding settle finish release fail_request abandon audit set_pending
settle-released env call (answered v) now s = ground (
  arith,
  eq_refl call.request_id,
  get-pop call.request_id call.request_id (s.relay.objects call.session).pending,
)
settle-released env call timed_out now s = ground (
  arith,
  eq_refl call.request_id,
  get-pop call.request_id call.request_id (s.relay.objects call.session).pending,
)
settle-released env call broken now s = ground (
  arith,
  eq_refl call.request_id,
  get-pop call.request_id call.request_id (s.relay.objects call.session).pending,
)
settle-released env call task_cancelled now s = ground (
  arith,
  eq_refl call.request_id,
  get-pop call.request_id call.request_id (s.relay.objects call.session).pending,
)
