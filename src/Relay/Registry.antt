-- ===== src/Relay/Registry.antt =====
-- remote_agent_connector/relay.py: `AgentRelaySession` and `AgentRelayRegistry`. The registry's lock
-- is held over code that never waits, so each method is one step.
use remote_agent_connector.Prelude.{
  ℕ, String, Bool, true, false, ◌&&◌, not, Option, none, some, [], ◌∷◌, ◌==◌, eqb, contains,
  if◌then◌else◌,
}
use remote_agent_connector.Prelude.Dict.{Dict, get, set, pop}
use remote_agent_connector.Relay.{Future, failed, is_done, Session, Relay, update}

unfoldable pub has_capability : Session → String → Bool
has_capability session capability = contains capability session.capabilities

-- The loop over `pending.values()`.
unfoldable pub fail_all : Dict ℕ → (ℕ → Future) → ℕ → Future
fail_all [] futures = futures
fail_all ((k, f) ∷ rest) futures =
    fail_all rest
      (if is_done (futures f) then futures else update futures f (failed "device_offline"))

unfoldable pub fail_pending : ℕ → Relay → Relay
unfolding fail_all
fail_pending session r = record r {
  futures = fail_all (r.objects session).pending r.futures;
  objects = update r.objects session (record (r.objects session) { pending = [] });
}

unfoldable pub register : ℕ → Relay → Relay
unfolding fail_pending
register session r =
    let connector_id = (r.objects session).connector_id in
    let r' : Relay = elim (get connector_id r.sessions) [
      | none ↦ r
      | some existing ↦ fail_pending existing r
    ] in
    record r' { sessions = set connector_id session r'.sessions }

-- `current is session and current.connection_generation == session.connection_generation`.
unfoldable pub is_current : ℕ → Relay → Bool
is_current session r = elim (get (r.objects session).connector_id r.sessions) [
  | none ↦ false
  | some current ↦
      eqb current session
      && (r.objects current).connection_generation == (r.objects session).connection_generation
]

unfoldable pub remove : ℕ → Relay → Bool × Relay
unfolding is_current fail_pending
remove session r =
    if is_current session r
    then (
      true,
      fail_pending session
          (record r { sessions = pop (r.objects session).connector_id r.sessions }),
    )
    else (false, fail_pending session r)

unfoldable pub get_exact : String → String → Relay → Option ℕ
get_exact connector_id instance_id r = elim (get connector_id r.sessions) [
  | none ↦ none
  | some session ↦
      if not ((r.objects session).instance_id == instance_id) then none else some session
]
