-- ===== src/Service/Collision.antt =====
-- remote_agent_connector/service.py: the guard against two runs of one mutating command.
use remote_agent_connector.Prelude.{
  String, Bool, true, false, ◌&&◌, Option, none, some, List, [], ◌∷◌, ◌++◌, ◌==◌, contains, is_some,
  if◌then◌else◌,
}
use remote_agent_connector.Prelude.Table.{first, delete_where}
use remote_agent_connector.Prelude.Json.{obj, Fields, end, field}
use remote_agent_connector.Protocol.Profiles.{mutating_relay_tools}
use remote_agent_connector.Service.{Env, GuardKey, Guard}

unfoldable pub collision_key : Env → String → String → Fields → Option GuardKey
collision_key env connector_id tool arguments =
    if contains tool mutating_relay_tools
    then some (record {
      connector_id = connector_id;
      tool = tool;
      digest = env.sha256 (env.dumps (obj (field "arguments" (obj arguments) end)));
    })
    else none

abbrev pub same_key : GuardKey → Guard → Bool
same_key k g =
    (g.key.connector_id == k.connector_id) && (g.key.tool == k.tool) && (g.key.digest == k.digest)

-- `false` is `command_in_flight`.
unfoldable pub acquire_collision_guard : Option GuardKey → String → List Guard → Bool × List Guard
acquire_collision_guard none request_id held = (true, held)
acquire_collision_guard (some k) request_id held =
    if is_some (first (same_key k) held)
    then (false, held)
    else (true, held ++ record { key = k; request_id = request_id } ∷ [])

unfoldable pub release_collision_guard : Option GuardKey → List Guard → List Guard
release_collision_guard none held = held
release_collision_guard (some k) held = delete_where (same_key k) held
