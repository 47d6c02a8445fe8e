-- ===== src/Tests/Liveness.antt =====
-- Who is live in the fleet.
use remote_agent_connector.Prelude.{true, false, none, some, [], ◌≡◌, ◌≤◌, ◌<◌, ◌↔◌, refl}
use remote_agent_connector.Prelude.Table.{All, first}
use remote_agent_connector.Protocol.Profiles.{full_agent}
use remote_agent_connector.Store.{
  Store, DeviceRow, InstanceRow, as_timestamp, is_online, online, revoked,
}
use remote_agent_connector.Store.Devices.{get_device, enrolled_row}
use remote_agent_connector.Store.Instances.{
  heartbeat, disconnect_instance, upsert_presence, latest_online_instance, fresh_on,
  online_instance,
}
use remote_agent_connector.Store.Presence.{
  latest_online_instance_lem, latest_online_instance-revoked, heartbeat_iff, superseded,
}
use remote_agent_connector.Tests.Fleet.{program, differ, noon, fleet, fleet-IsValid}

abbrev row : InstanceRow
row = record {
  instance_id = "one";
  connector_id = "laptop";
  connection_generation = "first";
  context_epoch = 0;
  state = online;
  connected_at = 1000;
  last_heartbeat_at = 1000;
  disconnected_at = none;
}

abbrev lost : DeviceRow
lost = record (enrolled_row "lost" "key" "Lost" full_agent noon "linux") {
  enrollment_state = revoked;
  revoked_at = some 1000;
}

laptop_online : (latest_online_instance "laptop" 0 fleet).0 ≡ some row
unfolding program
laptop_online = refl

lost_known : get_device "lost" fleet ≡ some lost
unfolding program
lost_known = refl

latest_online_instance_lem_example :
    (row.connector_id ≡ "laptop")
    × (is_online row.state ≡ true)
    × (as_timestamp 0 < 1000)
    × All
        (λ (j : InstanceRow).
          fresh_on "laptop" (as_timestamp 0) j ≡ true → j.last_heartbeat_at ≤ 1000)
        (latest_online_instance "laptop" 0 fleet).1.live_instances
latest_online_instance_lem_example = latest_online_instance_lem "laptop" 0 fleet row laptop_online

latest_online_instance-revoked_example : (latest_online_instance "lost" 0 fleet).0 ≡ none
latest_online_instance-revoked_example =
    latest_online_instance-revoked "lost" 0 fleet lost fleet-IsValid lost_known refl

heartbeat_iff_example : ((heartbeat "one" "first" 3 noon fleet).0 ≡ true) ↔ (
    (i : InstanceRow) × (first (online_instance "one") fleet.live_instances ≡ some i)
    × (i.connection_generation ≡ "first")
    × (i.context_epoch ≤ 3))
heartbeat_iff_example = heartbeat_iff "one" "first" 3 noon fleet

abbrev reconnected : Store
reconnected = (upsert_presence "laptop" "one" "second" 0 [] noon fleet).1

laptop_reconnects : upsert_presence "laptop" "one" "second" 0 [] noon fleet ≡ (true, reconnected)
unfolding program
laptop_reconnects = refl

superseded_example :
    (heartbeat "one" "first" 9 noon reconnected ≡ (false, reconnected))
    × (disconnect_instance "one" "first" noon reconnected ≡ (false, reconnected))
superseded_example =
    superseded "laptop" "one" "second" "first" 0 9 [] noon noon fleet reconnected fleet-IsValid
      laptop_reconnects (differ "first" "second" refl)
