-- ===== src/Server/Tools.antt =====
-- remote_agent_connector/server.py: the tools of the MCP server. Each is a function to the command
-- that it relays; `Server/Tools/Files` has those on files.
pub mod Files
pub mod Agent
pub mod Published
