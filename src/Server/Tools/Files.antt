-- ===== src/Server/Tools/Files.antt =====
-- remote_agent_connector/server.py: `connector_health` and the tools on files.
use remote_agent_connector.Prelude.{String, Option, none, some}
use remote_agent_connector.Prelude.Int.{ℤ}
use remote_agent_connector.Prelude.Json.{Json, null, int, str, field, end}
use remote_agent_connector.Service.Identity.{DelegatedIdentity}
use remote_agent_connector.Service.Checks.{Command}
use remote_agent_connector.Server.{Target, relay_command, optional, root_path}

-- An integer argument that may be absent.
abbrev pub optional_int : Option ℤ → Json
optional_int none = null
optional_int (some n) = int n

unfoldable pub connector_health : Target → DelegatedIdentity → Command
unfolding relay_command
connector_health = relay_command "connector.health" end

unfoldable pub files_list :
    (root path : String) → (pattern : Option String) → Target → DelegatedIdentity → Command
unfolding relay_command
files_list root path pattern =
    relay_command "files.list" (root_path root path (field "pattern" (optional pattern) end))

unfoldable pub files_stat : (root path : String) → Target → DelegatedIdentity → Command
unfolding relay_command
files_stat root path = relay_command "files.stat" (root_path root path end)

unfoldable pub files_search :
    (root path query : String) → (limit : ℤ) → Target → DelegatedIdentity → Command
unfolding relay_command
files_search root path query limit =
    relay_command "files.search"
      (root_path root path (field "query" (str query) (field "limit" (int limit) end)))

unfoldable pub files_read :
    (root path : String)
    → (offset : ℤ) → (length : Option ℤ) → (encoding : String) → Target
    → DelegatedIdentity
    → Command
unfolding relay_command
files_read root path offset length encoding = relay_command "files.read" (
    root_path root path (
      field "offset" (int offset)
        (field "length" (optional_int length) (field "encoding" (str encoding) end))))

unfoldable pub files_write :
    (root path content encoding : String) → Target → DelegatedIdentity → Command
unfolding relay_command
files_write root path content encoding =
    relay_command "files.write"
      (root_path root path (field "content" (str content) (field "encoding" (str encoding) end)))

unfoldable pub files_delete : (root path : String) → Target → DelegatedIdentity → Command
unfolding relay_command
files_delete root path = relay_command "files.delete" (root_path root path end)

unfoldable pub files_move : (root path destination : String) → Target → DelegatedIdentity → Command
unfolding relay_command
files_move root path destination =
    relay_command "files.move" (root_path root path (field "destination" (str destination) end))

unfoldable pub files_mkdir : (root path : String) → Target → DelegatedIdentity → Command
unfolding relay_command
files_mkdir root path = relay_command "files.mkdir" (root_path root path end)

unfoldable pub files_upload :
    (root path content_base64 : String) → Target → DelegatedIdentity → Command
unfolding relay_command
files_upload root path content_base64 =
    relay_command "files.upload"
      (root_path root path (field "content_base64" (str content_base64) end))

unfoldable pub files_download : (root path : String) → Target → DelegatedIdentity → Command
unfolding relay_command
files_download root path = relay_command "files.download" (root_path root path end)
