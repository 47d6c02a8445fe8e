-- ===== src/Store/Valid/Devices.antt =====
-- remote_agent_connector/store.py, the methods on devices: the lemmas on the registry's integrity.
use remote_agent_connector.Prelude.{
  String, Bool, some, List, ◌==◌, ◌≡◌, refl, ap, arith, eq_iff, if◌then◌else◌, Option-cases,
  Bool-cases, inl, inr,
}
use remote_agent_connector.Prelude.Table.{
  All-update_where, All-delete_where, All-imp, first, first_sound, first-append, first-update_where,
  first-delete_other, update_where,
}
use remote_agent_connector.Prelude.Distinct.{
  Distinct-append, Distinct-update_where, Distinct-delete_where,
}
use remote_agent_connector.Protocol.Profiles.{Profile}
use remote_agent_connector.Store.{Store, DeviceRow, InstanceRow, Datetime, is_enrolled}
use remote_agent_connector.Store.Devices.{
  has_connector, get_device, enroll_device, enrolled_row, revoke_device, delete_revoked_device,
  set_display_label, live_on,
}
use remote_agent_connector.Store.Valid.{Placed, IsValid}

pub enroll_device-IsValid :
    (c key label : String) (p : Profile) (now : Datetime) (platform : String) (s : Store)
    → IsValid s
    → IsValid (enroll_device c key label p now platform s).1
unfolding enroll_device
enroll_device-IsValid c key label p now platform s v = elim (Option-cases (get_device c s)) [
  | inr (row, e) ↦ rw (e, enroll_device) v
  | inl e ↦
      rw (e, enroll_device)
        (record {
          tokens = v.tokens;
          challenges = v.challenges;
          devices =
              Distinct-append (λ (r : DeviceRow). r.connector_id) s.remote_agent_devices _ v.devices
                e;
          instances = v.instances;
          placed =
              All-imp (Placed s.remote_agent_devices) (Placed _) s.live_instances
                (λ i (d, found, live). (
                  d,
                  ground (
                    arith,
                    found,
                    first-append (has_connector i.connector_id) s.remote_agent_devices
                        (enrolled_row c key label p now platform),
                  ),
                  live,
                ))
                v.placed;
        })
]

-- The device of an instance after an update that keeps connector ids.
found_after :
    (q : DeviceRow → Bool) (f : DeviceRow → DeviceRow) (c : String) (devices : List DeviceRow)
    (d : DeviceRow)
    → ((r : DeviceRow) → (f r).connector_id ≡ r.connector_id)
    → first (has_connector c) devices ≡ some d
    → first (has_connector c) (update_where q f devices) ≡ some (if q d then f d else d)
found_after q f c devices d same found = ground (
  arith,
  found,
  first-update_where (has_connector c) q f devices (λ r. ap (λ x. x == c) (same r)),
)

pub revoke_device-IsValid :
    (c : String) (now : Datetime) (s : Store) → IsValid s → IsValid (revoke_device c now s).1
unfolding revoke_device
revoke_device-IsValid c now s v = elim (Option-cases (get_device c s)) [
  | inl e ↦ rw (e, revoke_device) v
  | inr (row, e) ↦
      rw (e, revoke_device)
        (record {
          tokens = v.tokens;
          challenges = v.challenges;
          devices =
              Distinct-update_where (λ (r : DeviceRow). r.connector_id) (has_connector c) _
                s.remote_agent_devices (λ r _. refl) v.devices;
          instances =
              Distinct-update_where (λ (r : InstanceRow). r.instance_id) (live_on c) _
                s.live_instances (λ r _. refl) v.instances;
          placed =
              All-update_where (Placed s.remote_agent_devices) (Placed _) (live_on c) _
                s.live_instances
                (λ i (d, found, live) t. (
                  _,
                  found_after _ _ i.connector_id s.remote_agent_devices d (λ r. refl) found,
                  λ on. cc,
                ))
                (λ i (d, found, live) t. (
                  _,
                  found_after _ _ i.connector_id s.remote_agent_devices d (λ r. refl) found,
                  λ on. ground (
                    arith,
                    live on,
                    t,
                    on,
                    first_sound (has_connector i.connector_id) s.remote_agent_devices d found,
                    eq_iff d.connector_id i.connector_id,
                    eq_iff d.connector_id c,
                    eq_iff i.connector_id c,
                  ),
                ))
                v.placed;
        })
]

pub delete_revoked_device-IsValid :
    (c : String) (s : Store) → IsValid s → IsValid (delete_revoked_device c s).1
unfolding delete_revoked_device
delete_revoked_device-IsValid c s v = elim (Option-cases (get_device c s)) [
  | inl e ↦ rw (e, delete_revoked_device) v
  | inr (row, e) ↦
      rw (e, delete_revoked_device)
        (elim (Bool-cases (is_enrolled row.enrollment_state)) [
          | inl t ↦ rw t v
          | inr t ↦ rw t (record {
            tokens = v.tokens;
            challenges = v.challenges;
            devices =
                Distinct-delete_where (λ (r : DeviceRow). r.connector_id) (has_connector c)
                  s.remote_agent_devices v.devices;
            instances =
                Distinct-delete_where (λ (r : InstanceRow). r.instance_id) _ s.live_instances
                  v.instances;
            placed =
                All-delete_where (Placed s.remote_agent_devices) (Placed _) _ s.live_instances
                  (λ i (d, found, live) t. (
                    d,
                    rw
                        (first-delete_other (has_connector i.connector_id) (has_connector c)
                          s.remote_agent_devices
                          (λ r h. ground (
                            arith,
                            t,
                            h,
                            eq_iff r.connector_id i.connector_id,
                            eq_iff r.connector_id c,
                            eq_iff i.connector_id c,
                          )))
                        found,
                    live,
                  ))
                  v.placed;
          })
        ])
]

pub set_display_label-IsValid :
    (c label : String) (now : Datetime) (s : Store)
    → IsValid s
    → IsValid (set_display_label c label now s)
unfolding set_display_label
set_display_label-IsValid c label now s v = record {
  tokens = v.tokens;
  challenges = v.challenges;
  devices =
      Distinct-update_where (λ (r : DeviceRow). r.connector_id) (has_connector c) _
        s.remote_agent_devices (λ r _. refl) v.devices;
  instances = v.instances;
  placed =
      All-imp (Placed s.remote_agent_devices) (Placed _) s.live_instances
        (λ i (d, found, live). (
          _,
          found_after _ _ i.connector_id s.remote_agent_devices d (λ r. refl) found,
          λ on. ground (arith, live on),
        ))
        v.placed;
}
