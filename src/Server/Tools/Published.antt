-- ===== src/Server/Tools/Published.antt =====
-- remote_agent_connector/server.py: the tools that `create_app` publishes, and a call of one.
pub mod Granted
use remote_agent_connector.Prelude.{ℕ, String, Option}
use remote_agent_connector.Prelude.Int.{ℤ}
use remote_agent_connector.Prelude.Json.{Fields}
use remote_agent_connector.Store.{Datetime}
use remote_agent_connector.Relay.{Result, ok, err}
use remote_agent_connector.Service.{App, Env}
use remote_agent_connector.Service.Identity.{DelegatedIdentity}
use remote_agent_connector.Service.Checks.{Command}
use remote_agent_connector.Service.Commands.{Dispatched}
use remote_agent_connector.Delegation.{Codec}
use remote_agent_connector.Delegation.Headers.{Headers}
use remote_agent_connector.Server.{
  ServerConfig, ToolAnnotations, read_only, write, control, Target, delegated_identity, call_agent,
}
use remote_agent_connector.Server.Tools.Files
use remote_agent_connector.Server.Tools.Agent

-- A call of a published tool, with the tool's own arguments.
pub data Tool : Type 0 where
  connector_health : Tool
  files_list : (root path : String) (pattern : Option String) → Tool
  files_stat : (root path : String) → Tool
  files_search : (root path query : String) (limit : ℤ) → Tool
  files_read : (root path : String) (offset : ℤ) (length : Option ℤ) (encoding : String) → Tool
  files_write : (root path content encoding : String) → Tool
  files_delete : (root path : String) → Tool
  files_move : (root path destination : String) → Tool
  files_mkdir : (root path : String) → Tool
  files_upload : (root path content_base64 : String) → Tool
  files_download : (root path : String) → Tool
  terminal_execute :
      (command : String) (root : Option String) (timeout_s : Option ℤ) (cwd : Option String) → Tool
  ssh_execute : (host command : String) (root : Option String) (timeout_s : Option ℤ) → Tool
  ssh_list_profiles : Tool
  skills_list : Tool
  skills_materialize : (skill_id target_root : String) → Tool
  skills_execute : (skill_id : String) (arguments : Option Fields) → Tool
  mcp_list_servers : Tool
  mcp_call : (server_id tool_name : String) (arguments : Option Fields) → Tool
  mcp_health : (server_id : Option String) → Tool
  skills_health : Tool

-- The name under which a tool is published: its function's.
unfoldable pub tool_name : Tool → String
tool_name connector_health = "connector_health"
tool_name (files_list _ _ _) = "files_list"
tool_name (files_stat _ _) = "files_stat"
tool_name (files_search _ _ _ _) = "files_search"
tool_name (files_read _ _ _ _ _) = "files_read"
tool_name (files_write _ _ _ _) = "files_write"
tool_name (files_delete _ _) = "files_delete"
tool_name (files_move _ _ _) = "files_move"
tool_name (files_mkdir _ _) = "files_mkdir"
tool_name (files_upload _ _ _) = "files_upload"
tool_name (files_download _ _) = "files_download"
tool_name (terminal_execute _ _ _ _) = "terminal_execute"
tool_name (ssh_execute _ _ _ _) = "ssh_execute"
tool_name ssh_list_profiles = "ssh_list_profiles"
tool_name skills_list = "skills_list"
tool_name (skills_materialize _ _) = "skills_materialize"
tool_name (skills_execute _ _) = "skills_execute"
tool_name mcp_list_servers = "mcp_list_servers"
tool_name (mcp_call _ _ _) = "mcp_call"
tool_name (mcp_health _) = "mcp_health"
tool_name skills_health = "skills_health"

unfoldable pub annotations : Tool → ToolAnnotations
annotations connector_health = read_only
annotations (files_list _ _ _) = read_only
annotations (files_stat _ _) = read_only
annotations (files_search _ _ _ _) = read_only
annotations (files_read _ _ _ _ _) = read_only
annotations (files_write _ _ _ _) = write
annotations (files_delete _ _) = write
annotations (files_move _ _ _) = write
annotations (files_mkdir _ _) = write
annotations (files_upload _ _ _) = write
annotations (files_download _ _) = read_only
annotations (terminal_execute _ _ _ _) = control
annotations (ssh_execute _ _ _ _) = control
annotations ssh_list_profiles = read_only
annotations skills_list = read_only
annotations (skills_materialize _ _) = write
annotations (skills_execute _ _) = control
annotations mcp_list_servers = read_only
annotations (mcp_call _ _ _) = control
annotations (mcp_health _) = read_only
annotations skills_health = read_only

unfoldable pub tool_command : Tool → Target → DelegatedIdentity → Command
unfolding Files.connector_health Files.files_list Files.files_stat Files.files_search
    Files.files_read Files.files_write Files.files_delete Files.files_move Files.files_mkdir
    Files.files_upload Files.files_download Agent.terminal_execute Agent.ssh_execute
    Agent.ssh_list_profiles Agent.skills_list Agent.skills_materialize Agent.skills_execute
    Agent.mcp_list_servers Agent.mcp_call Agent.mcp_health Agent.skills_health
tool_command connector_health = Files.connector_health
tool_command (files_list root path pattern) = Files.files_list root path pattern
tool_command (files_stat root path) = Files.files_stat root path
tool_command (files_search root path query limit) = Files.files_search root path query limit
tool_command (files_read root path offset length encoding) =
    Files.files_read root path offset length encoding
tool_command (files_write root path content encoding) = Files.files_write root path content encoding
tool_command (files_delete root path) = Files.files_delete root path
tool_command (files_move root path destination) = Files.files_move root path destination
tool_command (files_mkdir root path) = Files.files_mkdir root path
tool_command (files_upload root path content_base64) = Files.files_upload root path content_base64
tool_command (files_download root path) = Files.files_download root path
tool_command (terminal_execute command root timeout_s cwd) =
    Agent.terminal_execute command root timeout_s cwd
tool_command (ssh_execute host command root timeout_s) =
    Agent.ssh_execute host command root timeout_s
tool_command ssh_list_profiles = Agent.ssh_list_profiles
tool_command skills_list = Agent.skills_list
tool_command (skills_materialize skill_id target_root) =
    Agent.skills_materialize skill_id target_root
tool_command (skills_execute skill_id arguments) = Agent.skills_execute skill_id arguments
tool_command mcp_list_servers = Agent.mcp_list_servers
tool_command (mcp_call server_id tool_name arguments) = Agent.mcp_call server_id tool_name arguments
tool_command (mcp_health server_id) = Agent.mcp_health server_id
tool_command skills_health = Agent.skills_health

-- A call of a tool, up to the send of the frame.
unfoldable pub call_tool :
    Codec
    → Env
    → ServerConfig
    → Headers
    → ℕ
    → Target
    → Tool
    → Datetime
    → App
    → Result Dispatched × App
call_tool codec env cfg headers at target tool now s =
    elim (delegated_identity codec cfg headers at) [
      | err e ↦ (err e, s)
      | ok identity ↦ call_agent env cfg (tool_command tool target identity) now s
    ]
