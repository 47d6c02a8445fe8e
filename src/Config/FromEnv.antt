-- ===== src/Config/FromEnv.antt =====
-- remote_agent_connector/config.py: `RemoteAgentConfig.from_env`.
use remote_agent_connector.Prelude.{
  ℕ, String, Bool, ◌&&◌, ◌||◌, not, leb, Option, none, some, List, [], ◌∷◌, ◌==◌, if◌then◌else◌,
}
use remote_agent_connector.Prelude.Int.{ℤ, pos, negsuc}
use remote_agent_connector.Prelude.Texts.{strip, split}
use remote_agent_connector.Protocol.Ids.{audience_pattern}
use remote_agent_connector.Relay.{runtime_error, value_error, Result, ok, err}
use remote_agent_connector.Delegation.{◌>>=◌, ◌>>◌, guard, need}
use remote_agent_connector.Config.{
  Environment, Reader, or_default, env_flag, required_secret, required_value, validate_http_url,
  validate_database_url,
}

abbrev pub connector_max_request_timeout_seconds : ℕ
connector_max_request_timeout_seconds = 600

pub record RemoteAgentConfig : Type 0 where
  pub database_url : String
  pub mcp_bearer_token : String
  pub hub_delegation_secret : String
  pub operator_bearer_token : String
  pub hub_audience : String
  pub private_mcp_url : String
  pub bind_host : String
  pub bind_port : ℕ
  pub allowed_hosts : List String
  pub allow_insecure_private_mcp : Bool
  pub trust_proxy_tls : Bool
  pub request_timeout_seconds : ℕ
  pub heartbeat_timeout_seconds : ℕ
  pub require_signed_app_assertion : Bool
  pub relay_handshake_timeout_seconds : ℕ
  pub public_ca_cert_path : Option String
  pub ca_private_key_path : Option String
  pub relay_ip : String
  pub relay_certificate_validity_days : ℤ

-- `lo <= n <= hi`, for a positive `lo`.
unfoldable pub in_range : ℕ → ℕ → ℤ → Result ℕ
in_range lo hi (pos n) = if leb lo n && leb n hi then ok n else err runtime_error
in_range lo hi (negsuc n) = err runtime_error

-- `int(os.getenv(name, default))` and its range.
unfoldable pub ranged : Reader → Environment → String → String → ℕ → Result ℕ
unfolding in_range
ranged reader env name fallback hi = do
  n ← need (reader.int_of (or_default fallback (env name))) value_error
  in_range 1 hi n

-- The items that are not blank, stripped.
unfoldable pub stripped_items : List String → List String
unfolding strip
stripped_items [] = []
stripped_items (x ∷ xs) =
    let rest = stripped_items xs in if strip x == "" then rest else strip x ∷ rest

unfoldable pub allowed_hosts_of : Environment → Result (List String)
unfolding stripped_items split
allowed_hosts_of env =
    elim (stripped_items (split b',' (or_default "" (env "REMOTE_AGENT_ALLOWED_HOSTS")))) [
      | [] ↦ err runtime_error
      | h ∷ hs ↦ ok (h ∷ hs)
    ]

-- `value.strip() or None`.
unfoldable pub path_of : Environment → String → Option String
unfolding strip
path_of env name =
    let value = strip (or_default "" (env name)) in if value == "" then none else some value

pub record Limits : Type 0 where
  pub bind_port : ℕ
  pub hub_audience : String
  pub allowed_hosts : List String
  pub request_timeout : ℕ
  pub heartbeat_timeout : ℕ
  pub handshake_timeout : ℕ
  pub validity_days : ℤ

-- From the port to the certificate's validity.
unfoldable pub read_limits : Reader → Environment → Result Limits
unfolding ranged allowed_hosts_of required_value audience_pattern
read_limits reader env = do
  bind_port ← ranged reader env "REMOTE_AGENT_BIND_PORT" "3030" 65535
  audience ← required_value env "REMOTE_AGENT_HUB_AUDIENCE"
  guard (audience_pattern audience) runtime_error
  hosts ← allowed_hosts_of env
  timeout ←
      ranged reader env "REMOTE_AGENT_REQUEST_TIMEOUT_SECONDS" "60"
        connector_max_request_timeout_seconds
  heartbeat ← ranged reader env "REMOTE_AGENT_HEARTBEAT_TIMEOUT_SECONDS" "30" 3600
  handshake ← ranged reader env "REMOTE_AGENT_RELAY_HANDSHAKE_TIMEOUT_SECONDS" "15" 60
  days ←
      need (reader.int_of (or_default "90" (env "REMOTE_AGENT_RELAY_CERT_VALIDITY_DAYS")))
        value_error
  ok (record {
    bind_port = bind_port;
    hub_audience = audience;
    allowed_hosts = hosts;
    request_timeout = timeout;
    heartbeat_timeout = heartbeat;
    handshake_timeout = handshake;
    validity_days = days;
  })

pub record Secrets : Type 0 where
  pub mcp_bearer_token : String
  pub hub_delegation_secret : String
  pub operator_bearer_token : String

-- The three secrets, which must be distinct.
unfoldable pub read_secrets : Environment → Result Secrets
unfolding required_secret
read_secrets env = do
  mcp ← required_secret env "REMOTE_AGENT_MCP_BEARER_TOKEN"
  hub ← required_secret env "REMOTE_AGENT_HUB_DELEGATION_SECRET"
  operator ← required_secret env "REMOTE_AGENT_OPERATOR_BEARER_TOKEN"
  guard (not (mcp == hub || mcp == operator || hub == operator)) runtime_error
  ok (record {
    mcp_bearer_token = mcp;
    hub_delegation_secret = hub;
    operator_bearer_token = operator;
  })

unfoldable pub from_env : Reader → Environment → Result RemoteAgentConfig
unfolding env_flag path_of
from_env reader env = do
  limits ← read_limits reader env
  secrets ← read_secrets env
  named ← required_value env "REMOTE_AGENT_DATABASE_URL"
  database_url ← validate_database_url named (env_flag env "REMOTE_AGENT_ALLOW_SQLITE_DEV")
  address ← required_value env "REMOTE_AGENT_PRIVATE_MCP_URL"
  private_mcp_url ←
      validate_http_url reader address (env_flag env "REMOTE_AGENT_ALLOW_INSECURE_HTTP")
  ok (record {
    database_url = database_url;
    mcp_bearer_token = secrets.mcp_bearer_token;
    hub_delegation_secret = secrets.hub_delegation_secret;
    operator_bearer_token = secrets.operator_bearer_token;
    hub_audience = limits.hub_audience;
    private_mcp_url = private_mcp_url;
    bind_host = strip (or_default "127.0.0.1" (env "REMOTE_AGENT_BIND_HOST"));
    bind_port = limits.bind_port;
    allowed_hosts = limits.allowed_hosts;
    allow_insecure_private_mcp = env_flag env "REMOTE_AGENT_ALLOW_INSECURE_HTTP";
    trust_proxy_tls = env_flag env "REMOTE_AGENT_TRUST_PROXY_TLS";
    request_timeout_seconds = limits.request_timeout;
    heartbeat_timeout_seconds = limits.heartbeat_timeout;
    require_signed_app_assertion = env_flag env "REMOTE_AGENT_REQUIRE_SIGNED_ASSERTION";
    relay_handshake_timeout_seconds = limits.handshake_timeout;
    public_ca_cert_path = path_of env "REMOTE_AGENT_PUBLIC_CA_CERT_PATH";
    ca_private_key_path = path_of env "REMOTE_AGENT_CA_PRIVATE_KEY_PATH";
    relay_ip = strip (or_default "10.21.4.101" (env "REMOTE_AGENT_RELAY_IP"));
    relay_certificate_validity_days = limits.validity_days;
  })
