-- ===== src/Protocol/Profiles.antt =====
-- remote_agent_connector/protocol.py: the capability profiles and the verbs that change state.
use remote_agent_connector.Prelude.{
  ℕ, ◌*◌, max, String, Option, none, some, List, [], ◌∷◌, ◌++◌, ◌==◌, if◌then◌else◌,
}
use remote_agent_connector.Prelude.Texts.{sorted, strip, lower}

pub data Profile : Type 0 where
  read_only read_write full_agent : Profile

unfoldable pub read_only_capabilities : List String
read_only_capabilities =
    "connector_health" ∷ "files_list" ∷ "files_stat" ∷ "files_search" ∷ "files_read"
    ∷ "files_download" ∷ "skills_list" ∷ "mcp_list_servers" ∷ "mcp_health" ∷ "skills_health" ∷ []

unfoldable pub read_write_capabilities : List String
unfolding read_only_capabilities
read_write_capabilities =
    read_only_capabilities
    ++ ("files_write" ∷ "files_delete" ∷ "files_move" ∷ "files_mkdir" ∷ "files_upload"
        ∷ "skills_materialize" ∷ [])

unfoldable pub full_agent_capabilities : List String
unfolding read_write_capabilities
full_agent_capabilities =
    read_write_capabilities
    ++ ("terminal_execute" ∷ "ssh_execute" ∷ "ssh_list_profiles" ∷ "skills_execute" ∷ "mcp_call"
        ∷ [])

unfoldable pub capabilities_by_profile : Profile → List String
unfolding full_agent_capabilities
capabilities_by_profile read_only = read_only_capabilities
capabilities_by_profile read_write = read_write_capabilities
capabilities_by_profile full_agent = full_agent_capabilities

unfoldable pub mutating_relay_tools : List String
mutating_relay_tools =
    "files.write" ∷ "files.delete" ∷ "files.move" ∷ "files.mkdir" ∷ "files.upload"
    ∷ "terminal.execute" ∷ "ssh.execute" ∷ "skills.materialize" ∷ "skills.execute" ∷ "mcp.call" ∷ []

unfoldable pub capabilities_for_profile : Profile → List String
unfolding capabilities_by_profile sorted
capabilities_for_profile profile = sorted (capabilities_by_profile profile)

unfoldable pub profile_name : Profile → String
profile_name read_only = "read_only"
profile_name read_write = "read_write"
profile_name full_agent = "full_agent"

-- The key of `CAPABILITIES_BY_PROFILE`; `none` is the `KeyError` of `capabilities_for_profile`.
unfoldable pub profile_of : String → Option Profile
profile_of profile =
    if profile == "read_only"
    then some read_only
    else if profile == "read_write"
    then some read_write
    else if profile == "full_agent"
    then some full_agent
    else none

-- `none` is the `ProtocolError`.
unfoldable pub validate_capability_profile : String → Option Profile
unfolding strip lower profile_of
validate_capability_profile value = profile_of (lower (strip value))

abbrev pub heartbeat_interval_seconds : ℕ
heartbeat_interval_seconds = 15

abbrev pub instance_stale_multiplier : ℕ
instance_stale_multiplier = 5

unfoldable pub instance_stale_seconds : ℕ → ℕ
instance_stale_seconds heartbeat_timeout_seconds =
    max heartbeat_timeout_seconds (heartbeat_interval_seconds * instance_stale_multiplier)
