-- ===== src/Store/Valid/Instances.antt =====
-- remote_agent_connector/store.py, the methods on live instances: the lemmas on the registry's
-- integrity.
use remote_agent_connector.Prelude.{
  ℕ, String, Bool, true, false, some, List, ◌≡◌, refl, sym, arith, eq_iff, Option-cases, Bool-cases,
  inl, inr,
}
use remote_agent_connector.Prelude.Table.{All, All-append, All-update_where, first, update_where}
use remote_agent_connector.Prelude.Distinct.{Distinct, Distinct-append, Distinct-update_where}
use remote_agent_connector.Store.{
  Store, DeviceRow, InstanceRow, Datetime, is_online, is_enrolled, offline, as_timestamp,
}
use remote_agent_connector.Store.Devices.{get_device}
use remote_agent_connector.Store.Instances.{
  has_instance, is_subset, upsert_presence, upsert_row, heartbeat, disconnect_instance,
  mark_stale_instances, beats, of_generation, is_stale, retire,
}
use remote_agent_connector.Store.Valid.{Placed, IsValid}
use remote_agent_connector.Protocol.Profiles.{capabilities_for_profile}

-- An update of instances that keeps their ids and connectors, and puts none online.
module _ (s : Store) (q : InstanceRow → Bool) (f : InstanceRow → InstanceRow)
    (id : (i : InstanceRow) → (f i).instance_id ≡ i.instance_id)
    (connector : (i : InstanceRow) → (f i).connector_id ≡ i.connector_id)
    (quiet : (i : InstanceRow) → is_online (f i).state ≡ true → is_online i.state ≡ true) where
  update_instances-IsValid :
      IsValid s → IsValid (record s { live_instances = update_where q f s.live_instances })
  update_instances-IsValid v = record {
    tokens = v.tokens;
    challenges = v.challenges;
    devices = v.devices;
    instances =
        Distinct-update_where (λ (r : InstanceRow). r.instance_id) q f s.live_instances
          (λ r _. id r) v.instances;
    placed =
        All-update_where (Placed s.remote_agent_devices) (Placed s.remote_agent_devices) q f
          s.live_instances
          (λ i (d, found, live) t. (d, rw (connector i) found, λ on. live (quiet i on)))
          (λ i p t. p) v.placed;
  }

upsert_row-Placed :
    (devices : List DeviceRow) (row : InstanceRow) (rows : List InstanceRow)
    → Placed devices row
    → All (Placed devices) rows
    → All (Placed devices) (upsert_row row rows)
unfolding upsert_row
upsert_row-Placed devices row rows p h =
    elim (Option-cases (first (has_instance row.instance_id) rows)) [
      | inl e ↦ rw (e, upsert_row) (All-append (Placed devices) rows row h p)
      | inr (old, e) ↦
          rw (e, upsert_row)
            (All-update_where (Placed devices) (Placed devices) (has_instance row.instance_id) _
              rows (λ _ _ _. p) (λ _ q _. q) h)
    ]

upsert_row-Distinct :
    (row : InstanceRow) (rows : List InstanceRow)
    → Distinct (λ (r : InstanceRow). r.instance_id) rows
    → Distinct (λ (r : InstanceRow). r.instance_id) (upsert_row row rows)
unfolding upsert_row
upsert_row-Distinct row rows d = elim (Option-cases (first (has_instance row.instance_id) rows)) [
  | inl e ↦ rw (e, upsert_row) (Distinct-append (λ (r : InstanceRow). r.instance_id) rows row d e)
  | inr (old, e) ↦
      rw (e, upsert_row)
        (Distinct-update_where (λ (r : InstanceRow). r.instance_id) (has_instance row.instance_id) _
          rows (λ r t. sym ((eq_iff r.instance_id row.instance_id).0 t)) d)
]

pub upsert_presence-IsValid :
    (c id generation : String) (epoch : ℕ) (caps : List String) (now : Datetime) (s : Store)
    → IsValid s
    → IsValid (upsert_presence c id generation epoch caps now s).1
unfolding upsert_presence
upsert_presence-IsValid c id generation epoch caps now s v = elim (Option-cases (get_device c s)) [
  | inl e ↦ rw (e, upsert_presence) v
  | inr (d, e) ↦
      rw (e, upsert_presence)
        (elim (Bool-cases (is_enrolled d.enrollment_state)) [
          | inr t ↦ rw t v
          | inl t ↦
              rw t
                (elim (Bool-cases
                  (is_subset caps (capabilities_for_profile d.capability_profile))) [
                    | inr u ↦ rw u v
                    | inl u ↦ rw u (record {
                      tokens = v.tokens;
                      challenges = v.challenges;
                      devices = v.devices;
                      instances = upsert_row-Distinct _ s.live_instances v.instances;
                      placed =
                          upsert_row-Placed s.remote_agent_devices _ s.live_instances (d, e, λ _. t)
                            v.placed;
                    })
                  ])
        ])
]

pub heartbeat-IsValid :
    (id generation : String) (epoch : ℕ) (now : Datetime) (s : Store)
    → IsValid s
    → IsValid (heartbeat id generation epoch now s).1
unfolding heartbeat
heartbeat-IsValid id generation epoch now s v = ground (
  arith,
  v,
  update_instances-IsValid s (beats id generation)
      (λ (i : InstanceRow). record i {
        context_epoch = epoch;
        last_heartbeat_at = as_timestamp now;
      })
      (λ i. refl) (λ i. refl) (λ i h. h) v,
)

pub disconnect_instance-IsValid :
    (id generation : String) (now : Datetime) (s : Store)
    → IsValid s
    → IsValid (disconnect_instance id generation now s).1
unfolding disconnect_instance
disconnect_instance-IsValid id generation now s v = ground (
  arith,
  v,
  update_instances-IsValid s (of_generation id generation)
      (λ (i : InstanceRow). record i { state = offline; disconnected_at = some (as_timestamp now) })
      (λ i. refl) (λ i. refl) (λ i (h : false ≡ true). cc) v,
)

pub mark_stale_instances-IsValid :
    (cutoff : Datetime) (s : Store) → IsValid s → IsValid (mark_stale_instances cutoff s).1
unfolding mark_stale_instances
mark_stale_instances-IsValid cutoff s v =
    update_instances-IsValid s (is_stale (as_timestamp cutoff)) retire (λ i. refl) (λ i. refl)
      (λ i h. cc) v
