-- ===== src/Tests/Cancelling.antt =====
-- An operator cancels the laptop's write while it runs.
use remote_agent_connector.Prelude.{ℕ, true, none, some, ◌≡◌, ◌≢◌, refl}
use remote_agent_connector.Prelude.Dict
use remote_agent_connector.Store.{InstanceRow}
use remote_agent_connector.Relay.{ok, is_done}
use remote_agent_connector.Relay.Registry.{get_exact}
use remote_agent_connector.Service.{App}
use remote_agent_connector.Protocol.Ids.{parse_connector_id}
use remote_agent_connector.Service.Checks.{relay_session}
use remote_agent_connector.Service.Commands.{dispatch}
use remote_agent_connector.Service.Cancel.{cancel_request, resolve_cancelled, cancel_event}
use remote_agent_connector.Service.Cancel.Answered.{cancel_request_lem}
use remote_agent_connector.Tests.Fleet.{program, env, config, noon, app, command}

abbrev running : App
running = (dispatch env config (command "files.write" "laptop" "r1") noon app).1

abbrev after : App
after = (cancel_request env config "laptop" "r1" noon running).1

write_cancelled :
    cancel_request env config "laptop" "r1" noon running ≡ (ok ("laptop", "r1"), after)
unfolding program cancel_request resolve_cancelled cancel_event
write_cancelled = refl

cancel_request_lem_example :
    (parse_connector_id "laptop" ≡ some "laptop")
    × (env.uuid "r1" ≡ some "r1")
    × (i : InstanceRow) × (session : ℕ) × (future : ℕ) × ((t : App) × (relay_session config "laptop"
            none noon running
          ≡ (ok (some i), t)))
    × (get_exact "laptop" i.instance_id running.relay ≡ some session)
    × (Dict.get "r1" (running.relay.objects session).pending ≡ some future)
    × (is_done (after.relay.futures future) ≡ true)
    × ((f : ℕ) → f ≢ future → after.relay.futures f ≡ running.relay.futures f)
    × (is_done (running.relay.futures future) ≡ true
        → after.relay.futures future ≡ running.relay.futures future)
cancel_request_lem_example =
    cancel_request_lem env config "laptop" "r1" "laptop" "r1" noon running after write_cancelled
