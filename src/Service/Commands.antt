-- ===== src/Service/Commands.antt =====
-- remote_agent_connector/service.py: a device command, from its dispatch to its end. The code between
-- two waits is one step: `dispatch` runs to the frame's send, and `settle` from the end of the wait.
pub mod Guarded
pub mod Interleaving
pub mod Outcomes
pub mod Admission
pub mod Routing
use remote_agent_connector.Prelude.{
  ℕ, suc, ◌+◌, ◌*◌, String, Bool, true, false, ◌&&◌, ◌||◌, not, Option, none, some, List, [], ◌∷◌,
  ◌++◌, ◌==◌, ltb, eqb, contains, is_some, is_none, if◌then◌else◌,
}
use remote_agent_connector.Prelude.Dict
use remote_agent_connector.Prelude.Int.{ℤ, pos, ltb_ℤ, leb_ℤ}
use remote_agent_connector.Prelude.Table.{first, delete_where}
use remote_agent_connector.Prelude.Texts.{replace_dots}
use remote_agent_connector.Prelude.Json.{
  to_text, or_empty, item, Json, null, int, str, obj, boolean, Fields, end, field, get, has_field,
  is_truthy,
}
use remote_agent_connector.Protocol.Profiles.{mutating_relay_tools}
use remote_agent_connector.Protocol.Ids.{parse_connector_id, parse_instance_id}
use remote_agent_connector.Store.{
  Store, InstanceRow, Datetime, as_timestamp, microseconds, completed, failed as failed_status,
}
use remote_agent_connector.Store.Instances.{exact_online_instance, latest_online_instance}
use remote_agent_connector.Store.Requests.{
  RequestKey, Claim, new, conflict, pending_call, replay, claim_request, complete_request,
}
use remote_agent_connector.Store.Audit.{Event}
use remote_agent_connector.Relay.{
  Future, waiting, resolved, abandoned, is_done, Session, Relay, update, Exc, agent_error,
  protocol_error, runtime_error, cancelled_error, Result, ok, err,
}
use remote_agent_connector.Relay.Registry.{has_capability, get_exact}
use remote_agent_connector.Service.{
  Env, Config, App, GuardKey, Guard, Exec, ◌>>=◌, ◌>>◌, pure, raise, ensure, require, on_store,
  gets, audit, fresh_after,
}
use remote_agent_connector.Service.Identity.{DelegatedIdentity}
use remote_agent_connector.Service.Collision.{
  collision_key, same_key, acquire_collision_guard, release_collision_guard,
}
use remote_agent_connector.Service.Checks.{
  relay_session, live_session, assertion_fits, assertion_live, requested_timeout, timeout_fits,
  request_id_of, request_digest, Command, Admitted, admit,
}

abbrev pub result_max_bytes : ℕ
result_max_bytes = 1 * 1024 * 1024

abbrev pub assertion_delivery_allowance_seconds : ℕ
assertion_delivery_allowance_seconds = 30

-- A command that was sent, with what its task still needs.
pub record Call : Type 0 where
  pub tool : String
  pub key : RequestKey
  pub request_id : String
  pub session : ℕ
  pub future : ℕ
  pub collision_key : Option GuardKey

pub data Dispatched : Type 0 where
  replayed : Json → Dispatched
  sent : Call → Dispatched

unfoldable pub set_pending : ℕ → Dict.Dict ℕ → Relay → Relay
set_pending session pending r = record r {
  objects = update r.objects session (record (r.objects session) { pending = pending });
}

-- From a new claim to the send of the frame.
unfoldable pub launch : Env → Command → RequestKey → Admitted → Exec Dispatched
launch env c key a s =
    let guard : Option GuardKey = collision_key env a.connector_id c.tool c.arguments in
    let (free, held) = acquire_collision_guard guard a.request_id s.in_flight in
    let future : ℕ = s.next_future in
    let call : Call = record {
      tool = c.tool;
      key = key;
      request_id = a.request_id;
      session = a.session;
      future = future;
      collision_key = guard;
    } in
    let relay : Relay =
      set_pending a.session (Dict.set a.request_id future (s.relay.objects a.session).pending)
        (record s.relay { futures = update s.relay.futures future waiting }) in
    if free
    then (ok (sent call), record s { relay = relay; in_flight = held; next_future = suc future })
    else (err (agent_error "command_in_flight"), record s { next_future = suc future })

-- What follows each outcome of the claim.
unfoldable pub after_claim : Env → Command → RequestKey → Admitted → Claim → Exec Dispatched
after_claim env c key a conflict = raise (agent_error "idempotency_conflict")
after_claim env c key a (replay v) = pure (replayed v)
after_claim env c key a pending_call = raise (agent_error "request_pending")
after_claim env c key a new = launch env c key a

unfoldable pub request_key : Command → Admitted → RequestKey
request_key c a = record {
  connector_id = a.connector_id;
  client_id = c.identity.client_id;
  idempotency_key = c.idempotency_key;
}

-- The claim and what follows.
unfoldable pub claim_and_launch : Env → Command → Admitted → Datetime → Exec Dispatched
claim_and_launch env c a now = do
  outcome ← on_store (
      claim_request (request_key c a) a.request_id c.tool
        (request_digest env a.connector_id c.tool c.arguments a.row) now)
  claim ← require outcome runtime_error
  after_claim env c (request_key c a) a claim

unfoldable pub dispatch : Env → Config → Command → Datetime → Exec Dispatched
dispatch env cfg c now = do a ← admit env cfg c now; claim_and_launch env c a now

-- How the wait for a command ends: its future is resolved, the window closes, the send or the future
-- raises, or the task itself is cancelled.
pub data Wake : Type 0 where
  answered : Fields → Wake
  timed_out broken task_cancelled : Wake

-- `wait_for` cancels a future that is not done when it gives up.
unfoldable pub abandon : Call → App → App
abandon c s =
    if is_done (s.relay.futures c.future)
    then s
    else record s { relay = record s.relay { futures = update s.relay.futures c.future abandoned } }

-- The `finally` block.
unfoldable pub release : Call → App → App
unfolding set_pending
release c s = record s {
  relay = set_pending c.session (Dict.pop c.request_id (s.relay.objects c.session).pending) s.relay;
  in_flight = release_collision_guard c.collision_key s.in_flight;
}

unfoldable pub fail_request : Call → String → Datetime → App → App
fail_request c code now s = record s {
  store = complete_request c.key failed_status (obj (field "code" (str code) end)) now s.store;
}

command_event : Call → String → String → Event
command_event c action code = record {
  action = action;
  result_code = code;
  agent_principal = some c.key.client_id;
  connector_id = some c.key.connector_id;
  request_id = some c.request_id;
  details = obj end;
}

-- The audit of a frame that took longer to write than the allowance.
unfoldable pub delivered : Env → Call → ℕ → Datetime → Exec (Unit {0})
unfolding command_event
delivered env c elapsed now =
    if ltb (assertion_delivery_allowance_seconds * microseconds) elapsed
    then audit env
        (command_event c (Prim.Native.String.◌++◌ "relay." c.tool) "assertion_delivery_slow") now
    else pure tt

-- `str(result.get("code") or "ok")`.
result_code : Env → Option Json → String
result_code env none = "ok"
result_code env (some v) = if is_truthy v then to_text env.text_of v else "ok"

-- After the `finally` block, with a result.
unfoldable pub finish : Env → Call → Fields → Datetime → Exec Fields
unfolding command_event result_code
finish env c result now s =
    if ltb result_max_bytes (env.encoded_size (obj result))
    then (err (agent_error "result_too_large"), fail_request c "result_too_large" now s)
    else (audit env
            (command_event c (Prim.Native.String.◌++◌ "mcp." c.tool)
              (result_code env (get "code" result)))
            now
          >> pure result)
        (record s { store = complete_request c.key completed (obj result) now s.store })

unfoldable pub settle : Env → Call → Wake → Datetime → Exec Fields
settle env c (answered result) now s = finish env c result now (release c s)
settle env c timed_out now s = (
  err (agent_error "device_timeout"),
  release c (fail_request c "device_timeout" now (abandon c s)),
)
settle env c broken now s =
    (err (agent_error "device_offline"), release c (fail_request c "device_offline" now s))
settle env c task_cancelled now s = (err cancelled_error, release c (abandon c s))
