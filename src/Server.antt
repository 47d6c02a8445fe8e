-- ===== src/Server.antt =====
-- remote_agent_connector/server.py: the tools of the MCP server and the operator's routes, over the
-- service.
pub mod Tools
pub mod Operator
use remote_agent_connector.Prelude.{
  ℕ, String, Bool, true, false, Option, none, some, ◌&&◌, ◌==◌, if◌then◌else◌,
}
use remote_agent_connector.Prelude.Int.{ℤ}
use remote_agent_connector.Prelude.Json.{Json, null, str, Fields, field, end}
use remote_agent_connector.Prelude.Texts.{is_ascii}
use remote_agent_connector.Store.{Datetime}
use remote_agent_connector.Relay.{Exc, agent_error, tool_error, type_error, Result, ok, err}
use remote_agent_connector.Service.{App, Env, Config}
use remote_agent_connector.Service.Identity.{DelegatedIdentity}
use remote_agent_connector.Service.Checks.{Command}
use remote_agent_connector.Service.Commands.{Call, Dispatched, Wake, dispatch, settle}
use remote_agent_connector.Delegation.{Codec}
use remote_agent_connector.Delegation.Headers.{Headers, verify_delegation_headers}

-- What the server reads of the configuration.
pub record ServerConfig : Type 0 where
  pub service : Config
  pub mcp_bearer_token : String
  pub operator_bearer_token : String
  pub hub_delegation_secret : String
  pub hub_audience : String
  pub require_signed_app_assertion : Bool
  pub public_ca_cert_path : Option String
  pub ca_private_key_path : Option String
  pub relay_ip : String
  pub relay_certificate_validity_days : ℤ

pub record ToolAnnotations : Type 0 where
  pub read_only_hint : Bool
  pub destructive_hint : Bool

abbrev pub read_only : ToolAnnotations
read_only = record { read_only_hint = true; destructive_hint = false }

abbrev pub write : ToolAnnotations
write = record { read_only_hint = false; destructive_hint = false }

abbrev pub control : ToolAnnotations
control = record { read_only_hint = false; destructive_hint = false }

-- `hmac.compare_digest` on texts: they must be ASCII.
unfoldable pub compare_digest : String → String → Result Bool
unfolding is_ascii
compare_digest a b = if is_ascii a && is_ascii b then ok (a == b) else err type_error

-- Whether a token of the Hub is accepted.
unfoldable pub verify_token : ServerConfig → String → Result Bool
unfolding compare_digest
verify_token cfg token = compare_digest token cfg.mcp_bearer_token

-- The parameters that every tool has, and the uuid that the service may draw.
pub record Target : Type 0 where
  pub profile_id : String
  pub idempotency_key : String
  pub instance_id : Option String
  pub drawn : String

-- The arguments of `call_agent`.
unfoldable pub relay_command : String → Fields → Target → DelegatedIdentity → Command
relay_command tool arguments t identity = record {
  identity = identity;
  tool = tool;
  connector_id = t.profile_id;
  arguments = arguments;
  idempotency_key = t.idempotency_key;
  instance_id = t.instance_id;
  drawn = t.drawn;
}

-- A text argument that may be absent.
abbrev pub optional : Option String → Json
optional none = null
optional (some s) = str s

-- `dict` with a `root` and a `path`, and more.
abbrev pub root_path : String → String → Fields → Fields
root_path root path rest = field "root" (str root) (field "path" (str path) rest)

-- `delegated_identity`, 90 seconds being `verify_delegation_headers`' default age.
unfoldable pub delegated_identity : Codec → ServerConfig → Headers → ℕ → Result DelegatedIdentity
delegated_identity codec cfg headers now =
    elim (verify_delegation_headers codec headers cfg.hub_delegation_secret cfg.hub_audience now 90
      cfg.require_signed_app_assertion) [
        | ok identity ↦ ok identity
        | err e ↦ err (tool_error "delegation_invalid")
      ]

-- An `AgentError` becomes a `ToolError` with its code.
abbrev pub as_tool_error {ℓ} : {A : Type ℓ} → Result A × App → Result A × App
as_tool_error (err (agent_error code), s) = (err (tool_error code), s)
as_tool_error r = r

-- `call_agent` up to the send of the frame, and after the wait.
unfoldable pub call_agent : Env → ServerConfig → Command → Datetime → App → Result Dispatched × App
call_agent env cfg c now s = as_tool_error (dispatch env cfg.service c now s)

unfoldable pub answer_agent : Env → Call → Wake → Datetime → App → Result Fields × App
answer_agent env call wake now s = as_tool_error (settle env call wake now s)
