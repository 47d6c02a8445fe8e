-- ===== src/Service/Devices.antt =====
-- remote_agent_connector/service.py: heartbeats and disconnects, and what an operator sees and does.
use remote_agent_connector.Prelude.{ℕ, String, Option, List, [], ◌∷◌, is_some, ◌==◌, if◌then◌else◌}
use mathlib.Core.Option
use remote_agent_connector.Prelude.Json.{obj, end}
use remote_agent_connector.Protocol.Profiles.{Profile, capabilities_for_profile}
use remote_agent_connector.Protocol.Ids.{parse_instance_id, validate_display_label}
use remote_agent_connector.Store.{
  DeviceRow, InstanceRow, EnrollmentState, ConnectionState, online, offline, Datetime, Timestamp,
  is_enrolled,
}
use remote_agent_connector.Store.Devices
use remote_agent_connector.Store.Devices.{
  get_device, list_devices, set_display_label, DeleteResult, device_not_found, device_not_revoked,
  deleted,
}
use remote_agent_connector.Store.Instances
use remote_agent_connector.Store.Instances.{
  OnlineAgent, disconnect_instance, latest_online_instance,
}
use remote_agent_connector.Relay.{agent_error, protocol_error, ok}
use remote_agent_connector.Service.{
  Env, Config, Exec, ◌>>=◌, ◌>>◌, pure, raise, ensure, require, on_store, gets, audit, fresh_after,
}
use remote_agent_connector.Service.Enrollment.{device_event}

unfoldable pub heartbeat : String → String → ℕ → Datetime → Exec (Unit {0})
heartbeat instance_id generation epoch now = do
  id ← require (parse_instance_id instance_id) (protocol_error "instance_id is invalid")
  beaten ← on_store (Instances.heartbeat id generation epoch now)
  ensure beaten (agent_error "stale_connection")

unfoldable pub disconnect_relay : String → String → Datetime → Exec (Unit {0})
disconnect_relay instance_id generation now = do
  id ← require (parse_instance_id instance_id) (protocol_error "instance_id is invalid")
  closed ← on_store (disconnect_instance id generation now)
  pure tt

pub record DeviceStatus : Type 0 where
  pub connector_id : String
  pub display_label : String
  pub public_key_fingerprint : String
  pub capability_profile : Profile
  pub capabilities : List String
  pub enrollment_state : EnrollmentState
  pub enrolled_at : Timestamp
  pub revoked_at : Option Timestamp
  pub connection_state : ConnectionState
  pub last_heartbeat_at : Option Timestamp
  pub context_epoch : Option ℕ

status_of : Env → String → DeviceRow → Option InstanceRow → DeviceStatus
status_of env connector_id device instance' = record {
  connector_id = connector_id;
  display_label = device.display_label;
  public_key_fingerprint = env.fingerprint device.public_key;
  capability_profile = device.capability_profile;
  capabilities = capabilities_for_profile device.capability_profile;
  enrollment_state = device.enrollment_state;
  enrolled_at = device.enrolled_at;
  revoked_at = device.revoked_at;
  connection_state = if is_some instance' then online else offline;
  last_heartbeat_at = Option.map (λ (i : InstanceRow). i.last_heartbeat_at) instance';
  context_epoch = Option.map (λ (i : InstanceRow). i.context_epoch) instance';
}

unfoldable pub device_status : Env → Config → String → Datetime → Exec DeviceStatus
unfolding status_of
device_status env cfg connector_id now = do
  known ← gets (λ s. get_device connector_id s.store)
  device ← require known (agent_error "device_not_found")
  found ← on_store (latest_online_instance connector_id (fresh_after cfg now))
  pure (status_of env connector_id device found)

statuses : Env → Config → List DeviceRow → Datetime → Exec (List DeviceStatus)
unfolding device_status
statuses env cfg [] now s = (ok [], s)
statuses env cfg (d ∷ rest) now s =
    (device_status env cfg d.connector_id now >>= λ status.
    statuses env cfg rest now >>= λ others. pure (status ∷ others))
      s

unfoldable pub operator_devices : Env → Config → Datetime → Exec (List DeviceStatus)
unfolding statuses
operator_devices env cfg now = do
  devices ← gets (λ s. list_devices s.store)
  statuses env cfg devices now

pub record Agent : Type 0 where
  pub device_id : String
  pub platform : String
  pub capabilities : List String
  pub connected_at : Timestamp

agents : List OnlineAgent → List Agent
agents [] = []
agents (a ∷ rest) =
    record {
      device_id = a.device_id;
      platform = if a.platform == "" then "unknown" else a.platform;
      capabilities = capabilities_for_profile a.capability_profile;
      connected_at = a.connected_at;
    }
    ∷ agents rest

unfoldable pub online_agents : Config → Datetime → Exec (List Agent)
unfolding agents
online_agents cfg now = do
  rows ← on_store (Instances.online_agents (fresh_after cfg now))
  pure (agents rows)

unfoldable pub revoke_device : Env → String → Datetime → Exec (Unit {0})
revoke_device env connector_id now = do
  found ← on_store (Devices.revoke_device connector_id now)
  ensure found (agent_error "device_not_found")
  audit env (device_event "device.revoked" connector_id (obj end)) now

unfoldable pub deletion : DeleteResult → Exec (Unit {0})
deletion device_not_found = raise (agent_error "device_not_found")
deletion device_not_revoked = raise (agent_error "device_not_revoked")
deletion deleted = pure tt

unfoldable pub delete_revoked_device : Env → String → Datetime → Exec (Unit {0})
delete_revoked_device env connector_id now = do
  result ← on_store (Devices.delete_revoked_device connector_id)
  deletion result
  audit env (device_event "device.deleted" connector_id (obj end)) now

unfoldable pub rename_device : Env → String → String → Datetime → Exec (Unit {0})
rename_device env connector_id label now = do
  display_label ← require (validate_display_label label) (protocol_error "display_label is invalid")
  known ← gets (λ s. get_device connector_id s.store)
  device ← require known (agent_error "device_not_found")
  ensure (is_enrolled device.enrollment_state) (agent_error "device_revoked")
  on_store (λ s. (tt, set_display_label connector_id display_label now s))
  audit env (device_event "device.renamed" connector_id (obj end)) now
