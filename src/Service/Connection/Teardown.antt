-- ===== src/Service/Connection/Teardown.antt =====
-- remote_agent_connector/relay.py: the lemmas on a connection's session and its teardown.
use remote_agent_connector.Prelude.{ℕ, true, some, ◌≡◌, ◌≢◌, arith}
use remote_agent_connector.Prelude.Dict.{get}
use remote_agent_connector.Store.{Datetime}
use remote_agent_connector.Relay.Registry.{register}
use remote_agent_connector.Relay.Futures.{remove-register}
use remote_agent_connector.Service.{App}
use remote_agent_connector.Service.Connection.{close_session}

-- When a registered session was replaced by another session of its connector, its teardown writes
-- nothing to the store, and the other session stays registered.
pub close_session-register :
    (old session : ℕ) (now : Datetime) (s : App)
    → (s.relay.objects old).connector_id ≡ (s.relay.objects session).connector_id
    → old ≢ session
    → let closed : App =
        (close_session old true now (record s { relay = register session s.relay })).1 in
      (closed.store ≡ s.store)
      × (get (s.relay.objects session).connector_id closed.relay.sessions ≡ some session)
unfolding close_session
close_session-register old session now s same ne =
    let (kept, found) = remove-register old session s.relay same ne in
    (ground (arith, kept), ground (arith, kept, found))
