-- ===== src/Tests/Configuring.antt =====
-- An environment that the connector starts in.
use remote_agent_connector.Config
use remote_agent_connector.Config.FromEnv
use remote_agent_connector.Protocol.Ids
use remote_agent_connector.Prelude.{
  ◌≤◌, true, false, none, some, [], ◌∷◌, ◌≡◌, ◌≢◌, ◌⊎◌, refl, ◌==◌, if◌then◌else◌,
}
use remote_agent_connector.Prelude.Int.{pos}
use remote_agent_connector.Relay.{ok, err, runtime_error}
use remote_agent_connector.Config.{Environment, Reader, Url, env_flag, is_blank}
use remote_agent_connector.Config.FromEnv.{
  RemoteAgentConfig, from_env, connector_max_request_timeout_seconds,
}
use remote_agent_connector.Config.Ranges.{IsSecret}
use remote_agent_connector.Config.Accepted.{from_env-bounds, from_env-secrets, from_env-transport}
use remote_agent_connector.Tests.Caller.{checks}

unfoldable settings : Unit {0}
unfolding checks Config.includes Config.has_placeholder Config.env_flag Config.required_secret
    Config.required_value Config.rstrip_slash Config.is_mcp_url Config.validate_http_url
    Config.validate_database_url FromEnv.in_range FromEnv.ranged FromEnv.stripped_items
    FromEnv.allowed_hosts_of FromEnv.path_of FromEnv.read_limits FromEnv.read_secrets
    FromEnv.from_env Ids.audience_pattern
settings = tt

abbrev url : Url
url = record {
  scheme = "https";
  netloc = "agents.internal";
  path = "/mcp/";
  query = "";
  fragment = "";
  hostname = some "agents.internal";
  username = none;
  password = none;
  port = some none;
}

abbrev reader : Reader
reader = record {
  int_of = λ s.
      if s == "3030" then some (pos 3030) else if s == "0" then some (pos 0) else some (pos 30);
  urlparse = λ s. some url;
}

abbrev environment : Environment
environment name =
    if name == "REMOTE_AGENT_HUB_AUDIENCE"
    then some "connector"
    else if name == "REMOTE_AGENT_ALLOWED_HOSTS"
    then some "agents.internal, localhost"
    else if name == "REMOTE_AGENT_MCP_BEARER_TOKEN"
    then some "mcp-token-mcp-token-mcp-token-mcp"
    else if name == "REMOTE_AGENT_HUB_DELEGATION_SECRET"
    then some "hub-secret-hub-secret-hub-secret-hub"
    else if name == "REMOTE_AGENT_OPERATOR_BEARER_TOKEN"
    then some "operator-token-operator-token-operator"
    else if name == "REMOTE_AGENT_DATABASE_URL"
    then some "postgresql://db/agents"
    else if name == "REMOTE_AGENT_PRIVATE_MCP_URL"
    then some "https://agents.internal/mcp/"
    else none

abbrev started : RemoteAgentConfig
started = record {
  database_url = "postgresql://db/agents";
  mcp_bearer_token = "mcp-token-mcp-token-mcp-token-mcp";
  hub_delegation_secret = "hub-secret-hub-secret-hub-secret-hub";
  operator_bearer_token = "operator-token-operator-token-operator";
  hub_audience = "connector";
  private_mcp_url = "https://agents.internal/mcp/";
  bind_host = "127.0.0.1";
  bind_port = 3030;
  allowed_hosts = "agents.internal" ∷ "localhost" ∷ [];
  allow_insecure_private_mcp = false;
  trust_proxy_tls = false;
  request_timeout_seconds = 30;
  heartbeat_timeout_seconds = 30;
  require_signed_app_assertion = false;
  relay_handshake_timeout_seconds = 30;
  public_ca_cert_path = none;
  ca_private_key_path = none;
  relay_ip = "10.21.4.101";
  relay_certificate_validity_days = pos 30;
}

environment_read : from_env reader environment ≡ ok started
unfolding settings
environment_read = refl

-- Port 0 is refused.
port_refused :
    from_env reader
      (λ name. if name == "REMOTE_AGENT_BIND_PORT" then some "0" else environment name)
    ≡ err runtime_error
unfolding settings
port_refused = refl

from_env-bounds_example :
    ((1 ≤ started.bind_port) × (started.bind_port ≤ 65535))
    × ((1 ≤ started.request_timeout_seconds)
        × (started.request_timeout_seconds ≤ connector_max_request_timeout_seconds))
    × ((1 ≤ started.heartbeat_timeout_seconds) × (started.heartbeat_timeout_seconds ≤ 3600))
    × ((1 ≤ started.relay_handshake_timeout_seconds)
        × (started.relay_handshake_timeout_seconds ≤ 60))
from_env-bounds_example = from_env-bounds reader environment started environment_read

from_env-secrets_example :
    IsSecret started.mcp_bearer_token
    × IsSecret started.hub_delegation_secret
    × IsSecret started.operator_bearer_token
    × (started.mcp_bearer_token ≢ started.hub_delegation_secret)
    × (started.mcp_bearer_token ≢ started.operator_bearer_token)
    × (started.hub_delegation_secret ≢ started.operator_bearer_token)
from_env-secrets_example = from_env-secrets reader environment started environment_read

from_env-transport_example :
    (u : Url) × (reader.urlparse started.private_mcp_url ≡ some u)
    × ((env_flag environment "REMOTE_AGENT_ALLOW_INSECURE_HTTP" ≡ true) ⊎ (u.scheme ≡ "https"))
    × (is_blank u.username ≡ true)
    × (is_blank u.password ≡ true)
from_env-transport_example = from_env-transport reader environment started environment_read
