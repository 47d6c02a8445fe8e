-- ===== src/Store/Presence.antt =====
-- remote_agent_connector/store.py, the methods on live instances: the lemmas on freshness, routing,
-- heartbeats and replaced connections.
use remote_agent_connector.Prelude.{
  ℕ, ◌≤◌, ◌<◌, String, true, false, none, some, List, [], ◌∷◌, ◌==◌, ◌≡◌, ◌≢◌, ◌↔◌, refl, ap, sym,
  subst, ◌∙◌, arith, eq_iff, eq_refl, ltb, Option-cases, Bool-cases, inl, inr,
}
use remote_agent_connector.Prelude.Table.{
  All, All-update_where, All-imp, first, first-append, first-update_self, select, select-All,
  select-none, All-select,
}
use remote_agent_connector.Store.{
  Store, DeviceRow, InstanceRow, Datetime, as_timestamp, is_online, is_enrolled, online,
}
use remote_agent_connector.Store.Devices.{get_device, has_connector}
use remote_agent_connector.Store.Instances.{
  has_instance, upsert_presence, upsert_row, heartbeat, disconnect_instance, mark_stale_instances,
  latest_online_instance, latest, fresh_on, is_stale, retire, online_instance,
}
use remote_agent_connector.Prelude.Distinct.{first-and}
use remote_agent_connector.Store.Valid.{IsValid, Placed}
use remote_agent_connector.Store.Valid.Instances.{
  mark_stale_instances-IsValid, upsert_presence-IsValid,
}

-- After the sweep every instance that is still online beat later than the cutoff.
pub mark_stale-fresh :
    (cutoff : Datetime) (s : Store)
    → All
        (λ (i : InstanceRow). is_online i.state ≡ true → as_timestamp cutoff < i.last_heartbeat_at)
        (mark_stale_instances cutoff s).1.live_instances
unfolding mark_stale_instances
mark_stale-fresh cutoff s =
    All-update_where (λ _. Unit {0}) _ (is_stale (as_timestamp cutoff)) retire s.live_instances
      (λ i _ t on. cc) (λ i _ t on. ground arith) (all_unit s.live_instances)
  where
    all_unit : (l : List InstanceRow) → All (λ _. Unit {0}) l
    all_unit [] = tt
    all_unit (x ∷ r) = (tt, all_unit r)

latest-none {ℓ} :
    (P : InstanceRow → Type ℓ) (rows : List InstanceRow) → latest rows ≡ none → All P rows
unfolding latest
latest-none P [] h = tt
latest-none P (x ∷ rest) h = absurd (ground arith)

latest_bound :
    (rows : List InstanceRow) (i : InstanceRow)
    → latest rows ≡ some i
    → All (λ (j : InstanceRow). j.last_heartbeat_at ≤ i.last_heartbeat_at) rows
unfolding latest
latest_bound [] i h = tt
latest_bound (x ∷ rest) i h = elim (Option-cases (latest rest)) [
  | inl e ↦ (ground arith, latest-none _ rest e)
  | inr (j, e) ↦ (
    ground arith,
    All-imp (λ (k : InstanceRow). k.last_heartbeat_at ≤ j.last_heartbeat_at) _ rest
        (λ k le. ground arith) (latest_bound rest j e),
  )
]

pub latest_All {ℓ} :
    (P : InstanceRow → Type ℓ) (rows : List InstanceRow) (i : InstanceRow)
    → latest rows ≡ some i
    → All P rows
    → P i
unfolding latest
latest_All P [] i h all = absurd (ground arith)
latest_All P (x ∷ rest) i h all = elim (Option-cases (latest rest)) [
  | inl e ↦ subst P (ground arith) all.0
  | inr (j, e) ↦ elim (Bool-cases (ltb x.last_heartbeat_at j.last_heartbeat_at)) [
    | inl t ↦ subst P (ground arith) (latest_All P rest j e all.1)
    | inr t ↦ subst P (ground arith) all.0
  ]
]

-- The instance that a command is routed to belongs to the connector, is online and fresh, and no
-- fresh instance of the connector beat later.
pub latest_online_instance_lem :
    (c : String) (fresh_after : Datetime) (s : Store) (i : InstanceRow)
    → (latest_online_instance c fresh_after s).0 ≡ some i
    → (i.connector_id ≡ c)
      × (is_online i.state ≡ true)
      × (as_timestamp fresh_after < i.last_heartbeat_at)
      × All
          (λ (j : InstanceRow).
            fresh_on c (as_timestamp fresh_after) j ≡ true
            → j.last_heartbeat_at ≤ i.last_heartbeat_at)
          (latest_online_instance c fresh_after s).1.live_instances
unfolding latest_online_instance
latest_online_instance_lem c fresh_after s i h =
    let rows = (mark_stale_instances fresh_after s).1.live_instances in
    let test = fresh_on c (as_timestamp fresh_after) in
    let t = latest_All (λ j. test j ≡ true) (select test rows) i h (select-All test rows) in
    (
      ground (arith, t, eq_iff i.connector_id c),
      ground (arith, t),
      ground (arith, t),
      All-select _ test rows (latest_bound (select test rows) i h),
    )

-- A device that is not enrolled is routed to by nothing, in every valid state.
pub latest_online_instance-revoked :
    (c : String) (fresh_after : Datetime) (s : Store) (d : DeviceRow)
    → IsValid s
    → get_device c s ≡ some d
    → is_enrolled d.enrollment_state ≡ false
    → (latest_online_instance c fresh_after s).0 ≡ none
unfolding latest_online_instance get_device
latest_online_instance-revoked c fresh_after s d v found revoked = rw (
    select-none (fresh_on c (as_timestamp fresh_after))
      (mark_stale_instances fresh_after s).1.live_instances
      (All-imp (Placed s.remote_agent_devices) _ _
        (λ i (e, placed, live). elim (Bool-cases (i.connector_id == c)) [
          | inr n ↦ ground (arith, n)
          | inl y ↦
              let same : some e ≡ some d =
                sym placed
                ∙ ap (λ x. first (has_connector x) s.remote_agent_devices)
                    ((eq_iff i.connector_id c).0 y)
                ∙ found in
              elim (Bool-cases (is_online i.state)) [
                | inr off ↦ ground (arith, off)
                | inl on ↦ absurd (ground (arith, same, live on))
              ]
        ])
        (unfold mark_stale_instances in (mark_stale_instances-IsValid fresh_after s v).placed)))

-- A heartbeat is accepted exactly from the online instance's own connection, with an epoch that does
-- not go back.
pub heartbeat_iff :
    (id generation : String) (epoch : ℕ) (now : Datetime) (s : Store)
    → ((heartbeat id generation epoch now s).0 ≡ true) ↔ (
        (row : InstanceRow) × (first (online_instance id) s.live_instances ≡ some row)
        × (row.connection_generation ≡ generation)
        × (row.context_epoch ≤ epoch))
unfolding heartbeat
heartbeat_iff id generation epoch now s = (
  λ h. elim (Option-cases (first (online_instance id) s.live_instances)) [
    | inl e ↦ absurd (ground arith)
    | inr (row, e) ↦
        (row, e, ground (arith, eq_iff row.connection_generation generation), ground arith)
  ],
  λ (row, e, g, le). ground (arith, e, g, le, eq_iff row.connection_generation generation),
)

-- The row of an instance after its presence was recorded.
first-upsert_row :
    (row : InstanceRow) (rows : List InstanceRow)
    → first (has_instance row.instance_id) (upsert_row row rows) ≡ some row
unfolding upsert_row
first-upsert_row row rows = elim (Option-cases (first (has_instance row.instance_id) rows)) [
  | inl e ↦
      ground
        (arith, e, eq_refl row.instance_id, first-append (has_instance row.instance_id) rows row)
  | inr (old, e) ↦
      rw (e, upsert_row)
        (first-update_self (has_instance row.instance_id) row old rows (eq_refl row.instance_id) e)
]

-- What an accepted presence leaves for its instance id.
pub recorded :
    (c id generation : String) (epoch : ℕ) (caps : List String) (now : Datetime) (s s' : Store)
    → upsert_presence c id generation epoch caps now s ≡ (true, s')
    → (row : InstanceRow) × (first (has_instance id) s'.live_instances ≡ some row)
      × (row.connection_generation ≡ generation)
      × (row.connector_id ≡ c)
unfolding upsert_presence
recorded c id generation epoch caps now s s' h = elim (Option-cases (get_device c s)) [
  | inl e ↦ absurd (ground arith)
  | inr (d, e) ↦
      let row : InstanceRow = record {
        instance_id = id;
        connector_id = c;
        connection_generation = generation;
        context_epoch = epoch;
        state = online;
        connected_at = as_timestamp now;
        last_heartbeat_at = as_timestamp now;
        disconnected_at = none;
      } in
      (row, ground (arith, first-upsert_row row s.live_instances), refl, refl)
]

-- Once an instance connected anew, a heartbeat or a disconnect of any other connection of that
-- instance is refused and changes nothing.
pub superseded :
    (c id generation old : String) (epoch later : ℕ) (caps : List String) (now at : Datetime)
    (s s' : Store)
    → IsValid s
    → upsert_presence c id generation epoch caps now s ≡ (true, s')
    → old ≢ generation
    → (heartbeat id old later at s' ≡ (false, s'))
      × (disconnect_instance id old at s' ≡ (false, s'))
unfolding heartbeat disconnect_instance
superseded c id generation old epoch later caps now at s s' v h ne =
    let (row, found, g, _) = recorded c id generation epoch caps now s s' h in
    let v' : IsValid s' =
      subst (λ r. IsValid r.1) h (upsert_presence-IsValid c id generation epoch caps now s v) in
    let beat =
      first-and (λ (r : InstanceRow). r.instance_id) id (λ i. is_online i.state) s'.live_instances
        row v'.instances found in
    (
      ground (arith, found, g, beat, eq_iff row.connection_generation old),
      ground (arith, found, g, eq_iff row.connection_generation old),
    )
