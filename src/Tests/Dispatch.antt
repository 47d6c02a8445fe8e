-- ===== src/Tests/Dispatch.antt =====
-- A write to the laptop, from its dispatch to its answer, and what is refused.
use mathlib.Core.List.{Mem}
use remote_agent_connector.Prelude.{true, false, none, some, [], ◌∷◌, ◌≡◌, ◌<◌, refl, arith}
use remote_agent_connector.Prelude.Dict
use remote_agent_connector.Prelude.Table.{first}
use remote_agent_connector.Prelude.Json.{end}
use remote_agent_connector.Prelude.Texts.{replace_dots}
use remote_agent_connector.Protocol.Ids.{parse_connector_id}
use remote_agent_connector.Store.{
  DeviceRow, InstanceRow, RequestRow, is_enrolled, is_online, is_pending, as_timestamp,
}
use remote_agent_connector.Store.Devices.{get_device}
use remote_agent_connector.Store.Requests.{request_row, claimed_row}
use remote_agent_connector.Relay.{ok, err, agent_error, waiting}
use remote_agent_connector.Relay.Registry.{has_capability, get_exact}
use remote_agent_connector.Service.{App, GuardKey, fresh_after}
use remote_agent_connector.Service.Commands.{
  Call, sent, request_key, dispatch, settle, timed_out, answered, claim_and_launch,
}
use remote_agent_connector.Service.Collision.{collision_key, same_key}
use remote_agent_connector.Service.Checks.{Command, Admitted}
use remote_agent_connector.Service.Commands.Admission.{dispatch-sent, dispatch-recorded}
use remote_agent_connector.Service.Commands.Interleaving.{
  System, Step, send, finish_call, here, next, IsGuarded, Reach-IsGuarded,
}
use remote_agent_connector.Service.Commands.Outcomes.{settle-closed, settle-released, busy-strands}
use remote_agent_connector.Tests.Fleet.{
  program, differ, env, config, noon, fleet, fleet-IsValid, app, command,
}

abbrev pub call : Call
call = record {
  tool = "files.write";
  key = record { connector_id = "laptop"; client_id = "hub"; idempotency_key = "k1" };
  request_id = "r1";
  session = 0;
  future = 0;
  collision_key = some (record { connector_id = "laptop"; tool = "files.write"; digest = "{}" });
}

abbrev after : App
after = (dispatch env config (command "files.write" "laptop" "r1") noon app).1

write_sent :
    dispatch env config (command "files.write" "laptop" "r1") noon app ≡ (ok (sent call), after)
unfolding program
write_sent = refl

dispatch-sent_example :
    (parse_connector_id "laptop" ≡ some "laptop")
    × (true ≡ true)
    × (true ≡ true)
    × (true ≡ true)
    × (has_capability (app.relay.objects 0) (replace_dots "files.write") ≡ true)
    × ((i : InstanceRow) × (get_exact "laptop" i.instance_id app.relay ≡ some 0)
        × Mem i fleet.live_instances
        × (i.connector_id ≡ "laptop")
        × (is_online i.state ≡ true)
        × (as_timestamp (fresh_after config noon) < i.last_heartbeat_at))
    × ((d : DeviceRow) × (get_device "laptop" fleet ≡ some d)
        × (is_enrolled d.enrollment_state ≡ true))
unfolding program
dispatch-sent_example =
    dispatch-sent env config (command "files.write" "laptop" "r1") noon app after call fleet-IsValid
      write_sent

-- A read of the kiosk, which may only read.
abbrev pub read_call : Call
read_call = record {
  tool = "files.read";
  key = record { connector_id = "kiosk"; client_id = "hub"; idempotency_key = "k1" };
  request_id = "r2";
  session = 1;
  future = 0;
  collision_key = none;
}

abbrev after_read : App
after_read = (dispatch env config (command "files.read" "kiosk" "r2") noon app).1

read_sent :
    dispatch env config (command "files.read" "kiosk" "r2") noon app
    ≡ (ok (sent read_call), after_read)
unfolding program
read_sent = refl

-- A write to the kiosk is refused.
write_refused :
    (dispatch env config (command "files.write" "kiosk" "r3") noon app).0
    ≡ err (agent_error "capability_not_granted")
unfolding program
write_refused = refl

-- A device that was revoked is offline.
revoked_refused :
    (dispatch env config (command "files.read" "lost" "r4") noon app).0
    ≡ err (agent_error "device_offline")
unfolding program
revoked_refused = refl

dispatch-recorded_example :
    ((row : RequestRow) × (request_row call.key after.store ≡ some row) × (row.request_id ≡ "r1"))
    × (Dict.get "r1" (after.relay.objects 0).pending ≡ some 0)
    × (after.relay.futures 0 ≡ waiting)
dispatch-recorded_example =
    dispatch-recorded env config (command "files.write" "laptop" "r1") noon app after call
      write_sent

abbrev row : RequestRow
row = claimed_row call.key "r1" "files.write" "{}" noon

write_claimed : request_row call.key after.store ≡ some row
unfolding program
write_claimed = refl

settle-closed_example :
    (row' : RequestRow) × (request_row call.key (settle env call timed_out noon after).1.store
      ≡ some row')
    × (is_pending row'.status ≡ false)
settle-closed_example = settle-closed env call timed_out noon after row (ground arith) write_claimed

settle-released_example :
    Dict.get "r1" ((settle env call (answered end) noon after).1.relay.objects 0).pending ≡ none
settle-released_example = settle-released env call (answered end) noon after

abbrev start : System
start = record { app = app; live = [] }

abbrev sent_system : System
sent_system = record { app = after; live = call ∷ [] }

write_step : Step env config start sent_system
write_step = send (command "files.write" "laptop" "r1") noon start after call write_sent

abbrev ended : System
ended = record { app = (settle env call timed_out noon after).1; live = [] }

end_step : Step env config sent_system ended
end_step = finish_call [] [] call timed_out noon sent_system refl

start-IsGuarded : IsGuarded start
start-IsGuarded = record { exact = refl; exclusive = tt }

Reach-IsGuarded_example : IsGuarded ended
Reach-IsGuarded_example =
    Reach-IsGuarded {env = env} {cfg = config} {s = start} {t = ended}
      (next (next here write_step) end_step) start-IsGuarded

-- The same write while the first one runs, under another idempotency key.
abbrev admitted : Admitted
admitted = record {
  connector_id = "laptop";
  row = record {
    instance_id = "one";
    connector_id = "laptop";
    connection_generation = "first";
    context_epoch = 0;
    state = remote_agent_connector.Store.online;
    connected_at = 1000;
    last_heartbeat_at = 1000;
    disconnected_at = none;
  };
  session = 0;
  request_id = "r5";
}

abbrev again : Command
again = record (command "files.write" "laptop" "r5") { idempotency_key = "k2" }

abbrev key : GuardKey
key = record { connector_id = "laptop"; tool = "files.write"; digest = "{}" }

second_unclaimed : request_row (request_key again admitted) after.store ≡ none
unfolding program
second_unclaimed = refl

second_held : first (same_key key) after.in_flight ≡ some (record { key = key; request_id = "r1" })
unfolding program
second_held = refl

second_guarded : collision_key env "laptop" "files.write" again.arguments ≡ some key
unfolding program
second_guarded = refl

busy-strands_example :
    ((claim_and_launch env again admitted noon after).0 ≡ err (agent_error "command_in_flight"))
    × ((claim_and_launch env again
          (record admitted { request_id = "r6" })
          noon
          (claim_and_launch env again admitted noon after).1).0
        ≡ err (agent_error "request_pending"))
busy-strands_example =
    busy-strands env again admitted key (record { key = key; request_id = "r1" }) "r6" noon noon
      after second_unclaimed second_guarded second_held (differ "r5" "r6" refl)
