-- ===== src/Service/Commands/Admission.antt =====
-- remote_agent_connector/service.py, `device_command`: the lemmas on a command up to its send.
use mathlib.Core.List.{Mem}
use remote_agent_connector.Prelude.{
  ℕ, ◌<◌, String, true, false, Option, none, some, ◌≡◌, refl, ap, sym, ◌∙◌, arith, eq_refl,
  Option-cases, Bool-cases, inl, inr, contains,
}
use remote_agent_connector.Prelude.Texts.{replace_dots}
use remote_agent_connector.Protocol.Profiles.{
  read_only, capabilities_for_profile, mutating_relay_tools,
}
use remote_agent_connector.Protocol.Ceiling.{read_only_mutates_nothing}
use remote_agent_connector.Protocol.Ids.{parse_connector_id}
use remote_agent_connector.Store.{
  Datetime, DeviceRow, InstanceRow, RequestRow, as_timestamp, is_online, is_enrolled,
}
use remote_agent_connector.Store.Devices.{get_device}
use remote_agent_connector.Store.Valid.{IsValid}
use remote_agent_connector.Store.Idempotency.{claim_new}
use remote_agent_connector.Store.Requests.{RequestKey, request_row}
use remote_agent_connector.Relay.{waiting, update, ok}
use remote_agent_connector.Relay.Registry.{has_capability, get_exact}
use remote_agent_connector.Service.{Env, Config, App, fresh_after, Exec-cases, continue-eq-ok}
use remote_agent_connector.Service.Commands.{
  Call, sent, dispatch, launch, claim_and_launch, request_key, set_pending,
}
use remote_agent_connector.Service.Collision.{collision_key, acquire_collision_guard}
use remote_agent_connector.Service.Checks.{
  Command, Admitted, admit, live_session, relay_session, assertion_fits, assertion_live,
  timeout_fits, requested_timeout, request_digest,
}
use remote_agent_connector.Service.Commands.Routing.{relay_session-Routed}
use remote_agent_connector.Prelude.Dict.{get, get-set}
use remote_agent_connector.Service.Commands.Guarded.{claim_and_launch-sent}

relay-relay_session :
    (cfg : Config) (c : String) (i : Option String) (now : Datetime) (s : App)
    → (relay_session cfg c i now s).1.relay ≡ s.relay
unfolding relay_session
relay-relay_session cfg c none now s = refl
relay-relay_session cfg c (some i) now s = ground arith

-- The session that a command goes to is the one registered for the instance it is resolved to.
pub live_session_lem :
    (cfg : Config) (c : String) (i : Option String) (now : Datetime) (s s' : App)
    (row : InstanceRow) (session : ℕ)
    → live_session cfg c i now s ≡ (ok (row, session), s')
    → ((t : App) × (relay_session cfg c i now s ≡ (ok (some row), t)))
      × (get_exact c row.instance_id s.relay ≡ some session)
      × (s'.relay ≡ s.relay)
unfolding live_session
live_session_lem cfg c i now s s' row session h = elim (Exec-cases (relay_session cfg c i now s)) [
  | inr (x, t, p) ↦ absurd (ground (arith, h, p))
  | inl (none, t, p) ↦ absurd (ground (arith, h, p))
  | inl (some row', t, p) ↦
      let relay = relay-relay_session cfg c i now s in
      ((t, ground (arith, h, p)), ground (arith, h, p, relay), ground (arith, h, p, relay))
]

-- Every check before the claim holds of a command that is admitted.
pub admit-ok :
    (env : Env) (cfg : Config) (c : Command) (now : Datetime) (s s' : App) (a : Admitted)
    → admit env cfg c now s ≡ (ok a, s')
    → (parse_connector_id c.connector_id ≡ some a.connector_id)
      × (assertion_fits c.identity.app_assertion a.connector_id ≡ true)
      × ((t : App) × (relay_session cfg a.connector_id c.instance_id now s ≡ (ok (some a.row), t)))
      × (get_exact a.connector_id a.row.instance_id s.relay ≡ some a.session)
      × (has_capability (s.relay.objects a.session) (replace_dots c.tool) ≡ true)
      × (assertion_live c.identity.app_assertion now ≡ true)
      × (timeout_fits cfg (requested_timeout c.arguments) ≡ true)
unfolding admit
admit-ok env cfg c now s s' a h = elim (Option-cases (parse_connector_id c.connector_id)) [
  | inl e ↦ absurd (ground (arith, h, e))
  | inr (id, e) ↦ elim (Exec-cases (live_session cfg id c.instance_id now s)) [
    | inr (x, t, p) ↦ absurd (ground (arith, h, e, p))
    | inl ((row, session), t, p) ↦
        let found = live_session_lem cfg id c.instance_id now s t row session p in
        (
          ground (arith, h, e, p),
          ground (arith, h, e, p),
          (found.0.0, ground (arith, h, e, p, found.0.1)),
          ground (arith, h, e, p, found),
          ground (arith, h, e, p, found),
          ground (arith, h, e, p),
          ground (arith, h, e, p),
        )
  ]
]

-- What a launch records for the call that it sends.
launch-sent :
    (env : Env) (c : Command) (key : RequestKey) (a : Admitted) (s s' : App) (call : Call)
    → launch env c key a s ≡ (ok (sent call), s')
    → (call.key ≡ key)
      × (call.session ≡ a.session)
      × (call.request_id ≡ a.request_id)
      × (s'.store ≡ s.store)
      × (get call.request_id (s'.relay.objects call.session).pending ≡ some call.future)
      × (s'.relay.futures call.future ≡ waiting)
unfolding launch acquire_collision_guard set_pending update
launch-sent env c key a s s' call h =
    elim (Bool-cases
      (acquire_collision_guard (collision_key env a.connector_id c.tool c.arguments) a.request_id
        s.in_flight).0) [
          | inr busy ↦ absurd (ground (arith, h, busy))
          | inl free ↦
              let pending =
                get-set a.request_id a.request_id s.next_future
                  (s.relay.objects a.session).pending in
              (
                ground (arith, h, free),
                ground (arith, h, free),
                ground (arith, h, free),
                ground (arith, h, free),
                ground (arith, h, free, pending, eq_refl a.request_id),
                ground (arith, h, free),
              )
        ]

-- In a valid state, a command that is sent goes to the session that is registered, under the connector
-- that it names, for an instance of the store that is the connector's and is online and fresh; its
-- assertion fits that connector and has not expired, its budget is within the relay's window, the
-- session has its capability, and the connector is enrolled.
pub dispatch-sent :
    (env : Env) (cfg : Config) (c : Command) (now : Datetime) (s s' : App) (call : Call)
    → IsValid s.store
    → dispatch env cfg c now s ≡ (ok (sent call), s')
    → (parse_connector_id c.connector_id ≡ some call.key.connector_id)
      × (assertion_fits c.identity.app_assertion call.key.connector_id ≡ true)
      × (assertion_live c.identity.app_assertion now ≡ true)
      × (timeout_fits cfg (requested_timeout c.arguments) ≡ true)
      × (has_capability (s.relay.objects call.session) (replace_dots c.tool) ≡ true)
      × ((i : InstanceRow) × (get_exact call.key.connector_id i.instance_id s.relay
            ≡ some call.session)
          × Mem i s.store.live_instances
          × (i.connector_id ≡ call.key.connector_id)
          × (is_online i.state ≡ true)
          × (as_timestamp (fresh_after cfg now) < i.last_heartbeat_at))
      × ((d : DeviceRow) × (get_device call.key.connector_id s.store ≡ some d)
          × (is_enrolled d.enrollment_state ≡ true))
unfolding dispatch request_key
dispatch-sent env cfg c now s s' call v h =
    let (a, t, admitted, claimed) =
      continue-eq-ok (admit env cfg c now s) (λ a. claim_and_launch env c a now) h in
    let (parsed, fits, (t', found), held, granted, fresh, budget) =
      admit-ok env cfg c now s t a admitted in
    let (_, launched) = claim_and_launch-sent env c a now t s' call claimed in
    let (key, session, _, _, _, _) = launch-sent env c (request_key c a) a _ s' call launched in
    let (known, own, on, recent, (d, row, enrolled)) =
      relay_session-Routed cfg a.connector_id c.instance_id now s t' a.row v found in
    let id : call.key.connector_id ≡ a.connector_id = ap (λ k. k.connector_id) key in
    (
      rw id parsed,
      rw id fits,
      fresh,
      budget,
      rw session granted,
      (a.row, rw (id, session) held, known, own ∙ sym id, on, recent),
      (d, rw id row, enrolled),
    )

-- A command that is sent claims a key of its own client.
pub dispatch-client :
    (env : Env) (cfg : Config) (c : Command) (now : Datetime) (s s' : App) (call : Call)
    → dispatch env cfg c now s ≡ (ok (sent call), s')
    → call.key.client_id ≡ c.identity.client_id
unfolding dispatch request_key
dispatch-client env cfg c now s s' call h =
    let (a, t, _, claimed) =
      continue-eq-ok (admit env cfg c now s) (λ a. claim_and_launch env c a now) h in
    let (_, launched) = claim_and_launch-sent env c a now t s' call claimed in
    let (key, _, _, _, _, _) = launch-sent env c (request_key c a) a _ s' call launched in
    ap (λ k. k.client_id) key

-- In a valid state, a session with the capabilities of the read-only profile is never sent a tool that
-- changes state.
pub dispatch-read_only :
    (env : Env) (cfg : Config) (c : Command) (now : Datetime) (s s' : App) (call : Call)
    → IsValid s.store
    → dispatch env cfg c now s ≡ (ok (sent call), s')
    → (s.relay.objects call.session).capabilities ≡ capabilities_for_profile read_only
    → contains c.tool mutating_relay_tools ≡ false
unfolding has_capability
dispatch-read_only env cfg c now s s' call v h ceiling =
    let granted = (dispatch-sent env cfg c now s s' call v h).4 in
    elim (Bool-cases (contains c.tool mutating_relay_tools)) [
      | inr e ↦ e
      | inl m ↦ absurd (ground (arith, granted, ceiling, read_only_mutates_nothing c.tool m))
    ]

-- A command that is sent has claimed its key for its own request id, and its session waits for that
-- request id with a future that is not done.
pub dispatch-recorded :
    (env : Env) (cfg : Config) (c : Command) (now : Datetime) (s s' : App) (call : Call)
    → dispatch env cfg c now s ≡ (ok (sent call), s')
    → ((row : RequestRow) × (request_row call.key s'.store ≡ some row)
        × (row.request_id ≡ call.request_id))
      × (get call.request_id (s'.relay.objects call.session).pending ≡ some call.future)
      × (s'.relay.futures call.future ≡ waiting)
unfolding dispatch
dispatch-recorded env cfg c now s s' call h =
    let (a, t, admitted, claimed) =
      continue-eq-ok (admit env cfg c now s) (λ a. claim_and_launch env c a now) h in
    let (fresh, launched) = claim_and_launch-sent env c a now t s' call claimed in
    let (key, _, id, store, pending, future) =
      launch-sent env c (request_key c a) a _ s' call launched in
    let (row, found, own) =
      claim_new (request_key c a) a.request_id c.tool
        (request_digest env a.connector_id c.tool c.arguments a.row) now t.store fresh in
    ((row, rw (key, store) found, own ∙ sym id), pending, future)
