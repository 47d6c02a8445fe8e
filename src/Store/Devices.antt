-- ===== src/Store/Devices.antt =====
-- remote_agent_connector/store.py: the enrolled devices.
use remote_agent_connector.Prelude.{
  String, Bool, true, false, ◌&&◌, Option, none, some, List, [], ◌∷◌, ◌++◌, ◌==◌, if◌then◌else◌,
}
use remote_agent_connector.Prelude.Table.{first, update_where, delete_where, order_by}
use remote_agent_connector.Prelude.Texts.{text_leb}
use remote_agent_connector.Protocol.Profiles.{Profile, capabilities_for_profile}
use remote_agent_connector.Store.{
  Store, DeviceRow, InstanceRow, enrolled, revoked, offline, is_enrolled, is_online, Datetime,
  Timestamp, as_timestamp,
}

abbrev pub has_connector : String → DeviceRow → Bool
has_connector connector_id d = d.connector_id == connector_id

unfoldable pub get_device : String → Store → Option DeviceRow
get_device connector_id s = first (has_connector connector_id) s.remote_agent_devices

-- The row of a device that enrols.
unfoldable pub enrolled_row : String → String → String → Profile → Datetime → String → DeviceRow
enrolled_row connector_id public_key label profile now platform = record {
  connector_id = connector_id;
  public_key = public_key;
  display_label = label;
  capability_profile = profile;
  capabilities = capabilities_for_profile profile;
  platform = platform;
  enrollment_state = enrolled;
  enrolled_at = as_timestamp now;
  revoked_at = none;
  updated_at = as_timestamp now;
}

unfoldable pub enroll_device :
    String → String → String → Profile → Datetime → String → Store → Bool × Store
unfolding get_device enrolled_row
enroll_device connector_id public_key label profile now platform s =
    elim (get_device connector_id s) [
      | none ↦ (
        true,
        record s {
          remote_agent_devices =
              s.remote_agent_devices
              ++ enrolled_row connector_id public_key label profile now platform ∷ [];
        },
      )
      | some existing ↦ (false, s)
    ]

-- `ORDER BY display_label, connector_id`.
unfoldable pub by_label : DeviceRow → DeviceRow → Bool
by_label a b =
    if a.display_label == b.display_label
    then text_leb a.connector_id b.connector_id
    else text_leb a.display_label b.display_label

unfoldable pub list_devices : Store → List DeviceRow
unfolding by_label
list_devices s = order_by by_label s.remote_agent_devices

unfoldable pub revoke_row : Timestamp → DeviceRow → DeviceRow
revoke_row current d = record d {
  enrollment_state = revoked;
  revoked_at = some current;
  updated_at = current;
}

abbrev pub live_on : String → InstanceRow → Bool
live_on connector_id i = (i.connector_id == connector_id) && is_online i.state

unfoldable pub close_row : Timestamp → InstanceRow → InstanceRow
close_row current i = record i { state = offline; disconnected_at = some current }

unfoldable pub revoke_device : String → Datetime → Store → Bool × Store
unfolding get_device revoke_row close_row
revoke_device connector_id now s = elim (get_device connector_id s) [
  | none ↦ (false, s)
  | some row ↦ (
    true,
    record s {
      remote_agent_devices =
          update_where (has_connector connector_id) (revoke_row (as_timestamp now))
            s.remote_agent_devices;
      live_instances =
          update_where (live_on connector_id) (close_row (as_timestamp now)) s.live_instances;
    },
  )
]

pub data DeleteResult : Type 0 where
  device_not_found device_not_revoked deleted : DeleteResult

unfoldable pub delete_revoked_device : String → Store → DeleteResult × Store
unfolding get_device
delete_revoked_device connector_id s = elim (get_device connector_id s) [
  | none ↦ (device_not_found, s)
  | some device ↦ if is_enrolled device.enrollment_state then (device_not_revoked, s) else (
    deleted,
    record s {
      live_instances =
          delete_where (λ (i : InstanceRow). i.connector_id == connector_id) s.live_instances;
      remote_agent_devices = delete_where (has_connector connector_id) s.remote_agent_devices;
    },
  )
]

-- The statement that `rename_device` of service.py runs on the table.
unfoldable pub set_display_label : String → String → Datetime → Store → Store
set_display_label connector_id label now s = record s {
  remote_agent_devices =
      update_where (has_connector connector_id)
        (λ (d : DeviceRow). record d { display_label = label; updated_at = as_timestamp now })
        s.remote_agent_devices;
}
