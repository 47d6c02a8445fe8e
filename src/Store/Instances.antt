-- ===== src/Store/Instances.antt =====
-- remote_agent_connector/store.py: the live instances of the devices.
use remote_agent_connector.Prelude.{
  ℕ, String, Bool, true, false, ◌&&◌, ◌||◌, Option, none, some, List, [], ◌∷◌, ◌++◌, ◌==◌, not, ltb,
  leb, contains, coalesce, if◌then◌else◌,
}
use remote_agent_connector.Prelude.Table.{first, select, update_where, count_where, order_by}
use remote_agent_connector.Prelude.Texts.{text_leb}
use remote_agent_connector.Protocol.Profiles.{Profile, capabilities_for_profile}
use remote_agent_connector.Store.{
  Store, DeviceRow, InstanceRow, online, offline, is_enrolled, is_online, Datetime, Timestamp,
  as_timestamp,
}
use remote_agent_connector.Store.Devices.{get_device}

abbrev pub has_instance : String → InstanceRow → Bool
has_instance instance_id i = i.instance_id == instance_id

-- `set(a).issubset(b)`.
unfoldable pub is_subset : List String → List String → Bool
is_subset [] granted = true
is_subset (c ∷ rest) granted = contains c granted && is_subset rest granted

-- `INSERT … ON CONFLICT(instance_id) DO UPDATE`.
unfoldable pub upsert_row : InstanceRow → List InstanceRow → List InstanceRow
upsert_row row rows = elim (first (has_instance row.instance_id) rows) [
  | none ↦ rows ++ row ∷ []
  | some old ↦ update_where (has_instance row.instance_id) (λ _. row) rows
]

unfoldable pub upsert_presence :
    String → String → String → ℕ → List String → Datetime → Store → Bool × Store
unfolding is_subset upsert_row get_device
upsert_presence connector_id instance_id generation epoch capabilities now s =
    let row : InstanceRow = record {
      instance_id = instance_id;
      connector_id = connector_id;
      connection_generation = generation;
      context_epoch = epoch;
      state = online;
      connected_at = as_timestamp now;
      last_heartbeat_at = as_timestamp now;
      disconnected_at = none;
    } in
    elim (get_device connector_id s) [
      | none ↦ (false, s)
      | some device ↦
          if not (is_enrolled device.enrollment_state)
          then (false, s)
          else if not (is_subset capabilities (capabilities_for_profile device.capability_profile))
          then (false, s)
          else (true, record s { live_instances = upsert_row row s.live_instances })
    ]

-- `WHERE instance_id = ? AND state = 'online'`.
abbrev pub online_instance : String → InstanceRow → Bool
online_instance instance_id i = (i.instance_id == instance_id) && is_online i.state

-- The row that a heartbeat writes to.
unfoldable pub beats : String → String → InstanceRow → Bool
beats instance_id generation i =
    (i.instance_id == instance_id) && (i.connection_generation == generation) && is_online i.state

unfoldable pub heartbeat : String → String → ℕ → Datetime → Store → Bool × Store
unfolding beats
heartbeat instance_id generation epoch now s =
    elim (first (online_instance instance_id) s.live_instances) [
      | none ↦ (false, s)
      | some row ↦
          if not (row.connection_generation == generation) || ltb epoch row.context_epoch
          then (false, s)
          else (
            true,
            record s {
              live_instances =
                  update_where (beats instance_id generation)
                    (λ (i : InstanceRow). record i {
                      context_epoch = epoch;
                      last_heartbeat_at = as_timestamp now;
                    })
                    s.live_instances;
            },
          )
    ]

-- `WHERE instance_id = ? AND connection_generation = ?`.
unfoldable pub of_generation : String → String → InstanceRow → Bool
of_generation instance_id generation i =
    (i.instance_id == instance_id) && (i.connection_generation == generation)

unfoldable pub disconnect_instance : String → String → Datetime → Store → Bool × Store
unfolding of_generation
disconnect_instance instance_id generation now s =
    elim (first (has_instance instance_id) s.live_instances) [
      | none ↦ (false, s)
      | some row ↦ if not (row.connection_generation == generation) then (false, s) else (
        true,
        record s {
          live_instances =
              update_where (of_generation instance_id generation)
                (λ (i : InstanceRow). record i {
                  state = offline;
                  disconnected_at = some (as_timestamp now);
                })
                s.live_instances;
        },
      )
    ]

-- `WHERE state = 'online' AND last_heartbeat_at <= ?`.
abbrev pub is_stale : Timestamp → InstanceRow → Bool
is_stale cutoff i = is_online i.state && leb i.last_heartbeat_at cutoff

unfoldable pub retire : InstanceRow → InstanceRow
retire i = record i {
  state = offline;
  disconnected_at = some (coalesce i.disconnected_at i.last_heartbeat_at);
}

unfoldable pub mark_stale_instances : Datetime → Store → ℕ × Store
unfolding retire
mark_stale_instances stale_before s = (
  count_where (is_stale (as_timestamp stale_before)) s.live_instances,
  record s {
    live_instances = update_where (is_stale (as_timestamp stale_before)) retire s.live_instances;
  },
)

-- `state = 'online' AND last_heartbeat_at > ?`.
abbrev pub is_fresh : Timestamp → InstanceRow → Bool
is_fresh cutoff i = is_online i.state && ltb cutoff i.last_heartbeat_at

unfoldable pub exact_online_instance :
    String → String → Datetime → Store → Option InstanceRow × Store
unfolding mark_stale_instances
exact_online_instance connector_id instance_id fresh_after s =
    let s' : Store = (mark_stale_instances fresh_after s).1 in
    (
      first
          (λ (i : InstanceRow).
            (i.connector_id == connector_id)
            && (i.instance_id == instance_id)
            && is_fresh (as_timestamp fresh_after) i)
          s'.live_instances,
      s',
    )

-- `ORDER BY last_heartbeat_at DESC LIMIT 1`; of rows with equal heartbeats, which the statement does
-- not order, the one inserted first.
unfoldable pub latest : List InstanceRow → Option InstanceRow
latest [] = none
latest (i ∷ rest) = elim (latest rest) [
  | none ↦ some i
  | some j ↦ if ltb i.last_heartbeat_at j.last_heartbeat_at then some j else some i
]

abbrev pub fresh_on : String → Timestamp → InstanceRow → Bool
fresh_on connector_id cutoff i = (i.connector_id == connector_id) && is_fresh cutoff i

unfoldable pub latest_online_instance : String → Datetime → Store → Option InstanceRow × Store
unfolding mark_stale_instances latest
latest_online_instance connector_id fresh_after s =
    let s' : Store = (mark_stale_instances fresh_after s).1 in
    (latest (select (fresh_on connector_id (as_timestamp fresh_after)) s'.live_instances), s')

pub record OnlineAgent : Type 0 where
  pub device_id : String
  pub platform : String
  pub capability_profile : Profile
  pub connected_at : Timestamp
  pub last_heartbeat_at : Timestamp

-- The rows that one device joins with.
unfoldable pub agents_of : DeviceRow → List InstanceRow → List OnlineAgent
agents_of d [] = []
agents_of d (i ∷ rest) =
    record {
      device_id = d.connector_id;
      platform = d.platform;
      capability_profile = d.capability_profile;
      connected_at = i.connected_at;
      last_heartbeat_at = i.last_heartbeat_at;
    }
    ∷ agents_of d rest

unfoldable pub join_agents : Timestamp → List DeviceRow → List InstanceRow → List OnlineAgent
unfolding agents_of
join_agents cutoff [] instances = []
join_agents cutoff (d ∷ devices) instances =
    (if is_enrolled d.enrollment_state
      then agents_of d (select (fresh_on d.connector_id cutoff) instances)
      else [])
    ++ join_agents cutoff devices instances

-- `ORDER BY d.connector_id, i.last_heartbeat_at DESC`.
unfoldable pub by_device : OnlineAgent → OnlineAgent → Bool
by_device a b =
    if a.device_id == b.device_id
    then leb b.last_heartbeat_at a.last_heartbeat_at
    else text_leb a.device_id b.device_id

unfoldable pub online_agents : Datetime → Store → List OnlineAgent × Store
unfolding mark_stale_instances join_agents by_device
online_agents stale_before s =
    let s' : Store = (mark_stale_instances stale_before s).1 in
    (
      order_by by_device
          (join_agents (as_timestamp stale_before) s'.remote_agent_devices s'.live_instances),
      s',
    )
