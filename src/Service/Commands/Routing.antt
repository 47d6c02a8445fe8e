-- ===== src/Service/Commands/Routing.antt =====
-- remote_agent_connector/service.py, `_relay_session`: the lemmas on the instance that a command is
-- resolved to.
use mathlib.Core.List.{Mem, mem-cons_self, mem-cons_of_mem}
use remote_agent_connector.Prelude.{
  ◌<◌, List, [], ◌∷◌, String, true, Option, none, some, ◌==◌, ◌≡◌, subst, arith, eq_iff,
  Option-cases, Bool-cases, inl, inr,
}
use remote_agent_connector.Prelude.Table.{
  All, All-imp, All-update_where, first, first-All, first_sound, select, select-All, select-keeps,
}
use remote_agent_connector.Protocol.Ids.{parse_instance_id}
use remote_agent_connector.Store.{
  Store, DeviceRow, InstanceRow, Datetime, as_timestamp, is_online, is_enrolled,
}
use remote_agent_connector.Store.Devices.{get_device, has_connector}
use remote_agent_connector.Store.Instances.{
  latest_online_instance, exact_online_instance, mark_stale_instances, fresh_on, is_stale, retire,
}
use remote_agent_connector.Store.Valid.{IsValid, Placed}
use remote_agent_connector.Store.Valid.Instances.{mark_stale_instances-IsValid}
use remote_agent_connector.Store.Presence.{latest_All}
use remote_agent_connector.Relay.{ok}
use remote_agent_connector.Service.{Config, App, fresh_after}
use remote_agent_connector.Service.Checks.{relay_session}

-- The row is one of the store's, is the connector's, is online and beat after the cutoff; the connector
-- is enrolled.
abbrev Routed : String → Datetime → Store → InstanceRow → Type 0
Routed c cutoff s row =
    Mem row s.live_instances
    × (row.connector_id ≡ c)
    × (is_online row.state ≡ true)
    × (as_timestamp cutoff < row.last_heartbeat_at)
    × ((d : DeviceRow) × (get_device c s ≡ some d) × (is_enrolled d.enrollment_state ≡ true))

Placed-Routed :
    (c : String) (cutoff : Datetime) (s : Store) (row : InstanceRow)
    → fresh_on c (as_timestamp cutoff) row ≡ true
    → Placed s.remote_agent_devices row
    → (is_online row.state ≡ true → Mem row s.live_instances)
    → Routed c cutoff s row
unfolding get_device
Placed-Routed c cutoff s row t (d, found, live) known =
    let on : is_online row.state ≡ true = ground (arith, t) in
    (
      known on,
      (eq_iff row.connector_id c).0 (ground (arith, t)),
      on,
      ground (arith, t),
      (
        d,
        subst (λ x. first (has_connector x) s.remote_agent_devices ≡ some d)
            ((eq_iff row.connector_id c).0 (ground (arith, t))) found,
        live on,
      ),
    )

All-Mem : (rows : List InstanceRow) → All (λ (i : InstanceRow). Mem i rows) rows
All-Mem [] = tt
All-Mem (x ∷ rows) = (
  mem-cons_self,
  All-imp (λ (i : InstanceRow). Mem i rows) (λ (i : InstanceRow). Mem i (x ∷ rows)) rows
      (λ i m. mem-cons_of_mem x m) (All-Mem rows),
)

-- The sweep makes no row that is online.
mark_stale-Mem :
    (cutoff : Datetime) (s : Store)
    → All
        (λ (i : InstanceRow). is_online i.state ≡ true → Mem i s.live_instances)
        (mark_stale_instances cutoff s).1.live_instances
unfolding mark_stale_instances
mark_stale-Mem cutoff s =
    All-update_where (λ (i : InstanceRow). Mem i s.live_instances) _
      (is_stale (as_timestamp cutoff)) retire s.live_instances (λ i _ t on. cc) (λ i m t on. m)
      (All-Mem s.live_instances)

Placed-mark_stale :
    (cutoff : Datetime) (s : Store)
    → IsValid s
    → All (Placed s.remote_agent_devices) (mark_stale_instances cutoff s).1.live_instances
Placed-mark_stale cutoff s v =
    unfold mark_stale_instances in (mark_stale_instances-IsValid cutoff s v).placed

latest-Routed :
    (c : String) (cutoff : Datetime) (s : Store) (row : InstanceRow)
    → IsValid s
    → (latest_online_instance c cutoff s).0 ≡ some row
    → Routed c cutoff s row
unfolding latest_online_instance
latest-Routed c cutoff s row v h =
    let rows = (mark_stale_instances cutoff s).1.live_instances in
    let test = fresh_on c (as_timestamp cutoff) in
    Placed-Routed c cutoff s row
      (latest_All (λ j. test j ≡ true) (select test rows) row h (select-All test rows))
      (latest_All (Placed s.remote_agent_devices) (select test rows) row h
        (select-keeps (Placed s.remote_agent_devices) test rows (Placed-mark_stale cutoff s v)))
      (latest_All (λ j. is_online j.state ≡ true → Mem j s.live_instances) (select test rows) row h
        (select-keeps (λ j. is_online j.state ≡ true → Mem j s.live_instances) test rows
          (mark_stale-Mem cutoff s)))

exact-Routed :
    (c i : String) (cutoff : Datetime) (s : Store) (row : InstanceRow)
    → IsValid s
    → (exact_online_instance c i cutoff s).0 ≡ some row
    → Routed c cutoff s row
unfolding exact_online_instance
exact-Routed c i cutoff s row v h =
    let rows = (mark_stale_instances cutoff s).1.live_instances in
    let t = first_sound _ rows row h in
    Placed-Routed c cutoff s row (ground (arith, t))
      (first-All (Placed s.remote_agent_devices) _ rows row (Placed-mark_stale cutoff s v) h)
      (first-All (λ j. is_online j.state ≡ true → Mem j s.live_instances) _ rows row
        (mark_stale-Mem cutoff s) h)

-- In a valid state the instance that a command is resolved to is a row of the connector, is online and
-- beat within the window, and the connector is enrolled.
pub relay_session-Routed :
    (cfg : Config) (c : String) (i : Option String) (now : Datetime) (s t : App) (row : InstanceRow)
    → IsValid s.store
    → relay_session cfg c i now s ≡ (ok (some row), t)
    → Routed c (fresh_after cfg now) s.store row
unfolding relay_session
relay_session-Routed cfg c none now s t row v h =
    latest-Routed c (fresh_after cfg now) s.store row v (ground (arith, h))
relay_session-Routed cfg c (some i) now s t row v h = elim (Bool-cases (i == "")) [
  | inl e ↦ latest-Routed c (fresh_after cfg now) s.store row v (ground (arith, h, e))
  | inr e ↦ elim (Option-cases (parse_instance_id i)) [
    | inl n ↦ absurd (ground (arith, h, e, n))
    | inr (id, p) ↦ exact-Routed c id (fresh_after cfg now) s.store row v (ground (arith, h, e, p))
  ]
]
