-- ===== src/Tests/Connecting.antt =====
-- The laptop's connection: its session, and the end of the connection that it replaces.
use remote_agent_connector.Prelude.{true, some, [], ◌≡◌, refl, arith}
use remote_agent_connector.Prelude.Dict.{get}
use remote_agent_connector.Prelude.Int.{pos}
use remote_agent_connector.Protocol.Profiles.{full_agent}
use remote_agent_connector.Store.Challenges.{create_challenge}
use remote_agent_connector.Relay.{ok, update}
use remote_agent_connector.Relay.Registry.{register}
use remote_agent_connector.Service.{App}
use remote_agent_connector.Service.Enrollment.{AuthRequest}
use remote_agent_connector.Service.Connection.{authenticate_session, close_session}
use remote_agent_connector.Service.Connection.Teardown.{close_session-register}
use remote_agent_connector.Tests.Fleet.{program, env, noon, app, session}

abbrev challenged : App
challenged = record app {
  store =
      (create_challenge (λ s. s) 120 noon (record { challenge_id = "c1"; challenge = "text" })
        app.store).1;
}

abbrev request : AuthRequest
request = record {
  challenge_id = "c1";
  challenge = "text";
  connector_id = "laptop";
  instance_id = "one";
  context_epoch = pos 0;
  signature = "key";
  connection_generation = "first";
  capabilities = [];
}

abbrev after : App
after = (authenticate_session env request noon challenged).1

laptop_connected :
    authenticate_session env request noon challenged
    ≡ (ok (session "laptop" "one" full_agent), after)
unfolding program authenticate_session
laptop_connected = refl

-- Session 2 is the laptop's next connection.
abbrev joined : App
joined = record app {
  relay = record app.relay {
    objects = update app.relay.objects 2 (session "laptop" "one" full_agent);
  };
}

close_session-register_example :
    let closed : App =
      (close_session 0 true noon (record joined { relay = register 2 joined.relay })).1 in
    (closed.store ≡ joined.store) × (get "laptop" closed.relay.sessions ≡ some 2)
close_session-register_example = close_session-register 0 2 noon joined refl (ground arith)
