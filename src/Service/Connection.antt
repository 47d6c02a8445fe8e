-- ===== src/Service/Connection.antt =====
-- remote_agent_connector/relay.py, `AgentRelayEndpoint`: the session of an authenticated connection,
-- a heartbeat that it sends, and its teardown. The frames' keys and versions are checked before.
pub mod Teardown
use remote_agent_connector.Prelude.{ℕ, String, Bool, true, false, ◌||◌, not, [], max, if◌then◌else◌}
use remote_agent_connector.Protocol.Profiles.{capabilities_for_profile}
use remote_agent_connector.Store.{Datetime}
use remote_agent_connector.Store.Devices.{get_device}
use remote_agent_connector.Relay.{Session, Relay, update, type_error, ok}
use remote_agent_connector.Relay.Registry.{remove}
use remote_agent_connector.Service.{Env, App, Exec, ◌>>=◌, ◌>>◌, pure, require, gets}
use remote_agent_connector.Service.Enrollment.{AuthRequest, authenticate_relay}
use remote_agent_connector.Service.Devices.{heartbeat, disconnect_relay}

-- `_authenticate_session`, after the checks of its message. `authenticate_relay` is given no
-- capabilities: the session's are those of the device's profile.
unfoldable pub authenticate_session : Env → AuthRequest → Datetime → Exec Session
authenticate_session env q now = do
  identity ← authenticate_relay env (record q { capabilities = [] }) now
  known ← gets (λ s. get_device identity.connector_id s.store)
  device ← require known type_error
  pure (record {
    connector_id = identity.connector_id;
    instance_id = identity.instance_id;
    context_epoch = identity.context_epoch;
    connection_generation = identity.connection_generation;
    capabilities = capabilities_for_profile device.capability_profile;
    capability_profile = device.capability_profile;
    pending = [];
  })

unfoldable pub raise_epoch : ℕ → ℕ → Relay → Relay
raise_epoch session epoch r = record r {
  objects =
      update r.objects session (record (r.objects session) {
        context_epoch = max (r.objects session).context_epoch epoch;
      });
}

-- The heartbeat of `_serve_session`, with an epoch that is a natural number.
unfoldable pub serve_heartbeat : ℕ → ℕ → Datetime → Exec (Unit {0})
unfolding raise_epoch
serve_heartbeat session epoch now s =
    (heartbeat (s.relay.objects session).instance_id (s.relay.objects session).connection_generation
          epoch now
        >> (λ t. (ok tt, record t { relay = raise_epoch session epoch t.relay })))
      s

-- The `finally` block of `handle`; `registered` says whether the session was registered.
unfoldable pub close_session : ℕ → Bool → Datetime → Exec (Unit {0})
close_session session registered now s =
    let (removed, r) = remove session s.relay in
    let t : App = record s { relay = r } in
    if removed || not registered
    then disconnect_relay (r.objects session).instance_id (r.objects session).connection_generation
        now t
    else (ok tt, t)
