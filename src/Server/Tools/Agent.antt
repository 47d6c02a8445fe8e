-- ===== src/Server/Tools/Agent.antt =====
-- remote_agent_connector/server.py: the tools on the terminal, SSH, skills and MCP servers.
use remote_agent_connector.Prelude.{String, Option, none, some}
use remote_agent_connector.Prelude.Int.{ℤ}
use remote_agent_connector.Prelude.Json.{int, str, obj, Fields, field, end, put}
use remote_agent_connector.Service.Identity.{DelegatedIdentity}
use remote_agent_connector.Service.Checks.{Command}
use remote_agent_connector.Server.{Target, relay_command, optional}

-- `if value is not None: arguments[…] = value`.
abbrev pub with_timeout : Option ℤ → Fields → Fields
with_timeout none arguments = arguments
with_timeout (some n) arguments = put "timeout_s" (int n) arguments

abbrev pub with_root : Option String → Fields → Fields
with_root none arguments = arguments
with_root (some root) arguments = put "root" (str root) arguments

-- `arguments or {}`.
abbrev pub or_end : Option Fields → Fields
or_end none = end
or_end (some arguments) = arguments

unfoldable pub terminal_execute :
    (command : String)
    → (root : Option String) → (timeout_s : Option ℤ) → (cwd : Option String) → Target
    → DelegatedIdentity
    → Command
unfolding relay_command put
terminal_execute command root timeout_s cwd = relay_command "terminal.execute" (
    with_root root
      (with_timeout timeout_s (field "command" (str command) (field "cwd" (optional cwd) end))))

unfoldable pub ssh_execute :
    (host command : String)
    → (root : Option String) → (timeout_s : Option ℤ) → Target
    → DelegatedIdentity
    → Command
unfolding relay_command put
ssh_execute host command root timeout_s = relay_command "ssh.execute" (
    with_timeout timeout_s
      (field "root" (optional root) (field "host" (str host) (field "command" (str command) end))))

unfoldable pub ssh_list_profiles : Target → DelegatedIdentity → Command
unfolding relay_command
ssh_list_profiles = relay_command "ssh.list_profiles" end

unfoldable pub skills_list : Target → DelegatedIdentity → Command
unfolding relay_command
skills_list = relay_command "skills.list" end

unfoldable pub skills_materialize :
    (skill_id target_root : String) → Target → DelegatedIdentity → Command
unfolding relay_command
skills_materialize skill_id target_root =
    relay_command "skills.materialize"
      (field "skill_id" (str skill_id) (field "target_root" (str target_root) end))

unfoldable pub skills_execute :
    (skill_id : String) → (arguments : Option Fields) → Target → DelegatedIdentity → Command
unfolding relay_command
skills_execute skill_id arguments =
    relay_command "skills.execute"
      (field "skill_id" (str skill_id) (field "arguments" (obj (or_end arguments)) end))

unfoldable pub mcp_list_servers : Target → DelegatedIdentity → Command
unfolding relay_command
mcp_list_servers = relay_command "mcp.list_servers" end

unfoldable pub mcp_call :
    (server_id tool_name : String)
    → (arguments : Option Fields) → Target
    → DelegatedIdentity
    → Command
unfolding relay_command
mcp_call server_id tool_name arguments = relay_command "mcp.call" (
    field "server_id" (str server_id)
      (field "tool_name" (str tool_name) (field "arguments" (obj (or_end arguments)) end)))

unfoldable pub mcp_health : (server_id : Option String) → Target → DelegatedIdentity → Command
unfolding relay_command
mcp_health server_id = relay_command "mcp.health" (field "server_id" (optional server_id) end)

unfoldable pub skills_health : Target → DelegatedIdentity → Command
unfolding relay_command
skills_health = relay_command "skills.health" end
