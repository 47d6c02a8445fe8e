-- ===== src/Config/Accepted.antt =====
-- remote_agent_connector/config.py, `from_env`: the lemmas on a whole configuration.
use remote_agent_connector.Prelude.{
  ℕ, ◌≤◌, String, Bool, true, false, ◌&&◌, ◌||◌, not, some, ◌≡◌, ◌≢◌, ◌⊎◌, ◌==◌, refl, ap, sym, ◌∙◌,
  Option, arith, eq_iff, Option-cases, Bool-cases, inl, inr,
}
use remote_agent_connector.Relay.{ok, Result-cases}
use remote_agent_connector.Config.{
  Environment, Reader, Url, env_flag, required_value, validate_http_url, validate_database_url,
  is_mcp_url, is_blank,
}
use remote_agent_connector.Config.FromEnv.{
  RemoteAgentConfig, Limits, Secrets, read_limits, read_secrets, from_env,
  connector_max_request_timeout_seconds,
}
use remote_agent_connector.Config.Ranges.{read_limits-bounds, read_secrets_lem, IsSecret}

-- The parts that a configuration is made of.
from_env-parts :
    (reader : Reader) (env : Environment) (c : RemoteAgentConfig)
    → from_env reader env ≡ ok c
    → (l : Limits) × (s : Secrets) × (read_limits reader env ≡ ok l)
      × (read_secrets env ≡ ok s)
      × ((address : String) × (validate_http_url reader address
              (env_flag env "REMOTE_AGENT_ALLOW_INSECURE_HTTP")
            ≡ ok c.private_mcp_url))
      × ((named : String) × (validate_database_url named
              (env_flag env "REMOTE_AGENT_ALLOW_SQLITE_DEV")
            ≡ ok c.database_url))
      × (c.bind_port ≡ l.bind_port)
      × (c.request_timeout_seconds ≡ l.request_timeout)
      × (c.heartbeat_timeout_seconds ≡ l.heartbeat_timeout)
      × (c.relay_handshake_timeout_seconds ≡ l.handshake_timeout)
      × (c.mcp_bearer_token ≡ s.mcp_bearer_token)
      × (c.hub_delegation_secret ≡ s.hub_delegation_secret)
      × (c.operator_bearer_token ≡ s.operator_bearer_token)
unfolding from_env
from_env-parts reader env c h = elim (Result-cases (read_limits reader env)) [
  | inr (e, p) ↦ absurd (ground (arith, h, p))
  | inl (l, p) ↦ elim (Result-cases (read_secrets env)) [
    | inr (e, q) ↦ absurd (ground (arith, h, p, q))
    | inl (s, q) ↦ elim (Result-cases (required_value env "REMOTE_AGENT_DATABASE_URL")) [
      | inr (e, r) ↦ absurd (ground (arith, h, p, q, r))
      | inl (named, r) ↦
          elim (Result-cases
            (validate_database_url named (env_flag env "REMOTE_AGENT_ALLOW_SQLITE_DEV"))) [
              | inr (e, t) ↦ absurd (ground (arith, h, p, q, r, t))
              | inl (db, t) ↦
                  elim (Result-cases (required_value env "REMOTE_AGENT_PRIVATE_MCP_URL")) [
                    | inr (e, u) ↦ absurd (ground (arith, h, p, q, r, t, u))
                    | inl (address, u) ↦
                        elim (Result-cases (
                          validate_http_url reader address
                            (env_flag env "REMOTE_AGENT_ALLOW_INSECURE_HTTP"))) [
                              | inr (e, v) ↦ absurd (ground (arith, h, p, q, r, t, u, v))
                              | inl (url, v) ↦ (
                                l,
                                s,
                                p,
                                q,
                                (address, ground (arith, h, p, q, r, t, u, v)),
                                (named, ground (arith, h, p, q, r, t, u, v)),
                                ground (arith, h, p, q, r, t, u, v),
                                ground (arith, h, p, q, r, t, u, v),
                                ground (arith, h, p, q, r, t, u, v),
                                ground (arith, h, p, q, r, t, u, v),
                                ground (arith, h, p, q, r, t, u, v),
                                ground (arith, h, p, q, r, t, u, v),
                                ground (arith, h, p, q, r, t, u, v),
                              )
                            ]
                  ]
            ]
    ]
  ]
]

-- A configuration that is read has a port, a request timeout, a heartbeat timeout and a handshake
-- timeout in their ranges.
pub from_env-bounds :
    (reader : Reader) (env : Environment) (c : RemoteAgentConfig)
    → from_env reader env ≡ ok c
    → ((1 ≤ c.bind_port) × (c.bind_port ≤ 65535))
      × ((1 ≤ c.request_timeout_seconds)
          × (c.request_timeout_seconds ≤ connector_max_request_timeout_seconds))
      × ((1 ≤ c.heartbeat_timeout_seconds) × (c.heartbeat_timeout_seconds ≤ 3600))
      × ((1 ≤ c.relay_handshake_timeout_seconds) × (c.relay_handshake_timeout_seconds ≤ 60))
from_env-bounds reader env c h =
    let (l, s, p, q, u, d, port, timeout, heartbeat, handshake, m, hub, o) =
      from_env-parts reader env c h in
    rw (port, timeout, heartbeat, handshake) (read_limits-bounds reader env l p)

-- In a configuration that is read, the three secrets have at least 32 characters each, hold no
-- placeholder, and are distinct.
pub from_env-secrets :
    (reader : Reader) (env : Environment) (c : RemoteAgentConfig)
    → from_env reader env ≡ ok c
    → IsSecret c.mcp_bearer_token
      × IsSecret c.hub_delegation_secret
      × IsSecret c.operator_bearer_token
      × (c.mcp_bearer_token ≢ c.hub_delegation_secret)
      × (c.mcp_bearer_token ≢ c.operator_bearer_token)
      × (c.hub_delegation_secret ≢ c.operator_bearer_token)
from_env-secrets reader env c h =
    let (l, s, p, q, u, d, port, timeout, heartbeat, handshake, m, hub, o) =
      from_env-parts reader env c h in
    rw (m, hub, o) (read_secrets_lem env s q)

-- The first, the fourth and the fifth of nine tests.
conjuncts :
    (a b c d e f g i j : Bool)
    → (a && b && c && d && e && f && g && i && j) ≡ true
    → (a ≡ true) × (d ≡ true) × (e ≡ true)
conjuncts true true true true true f g i j h = (refl, refl, refl)
conjuncts false b c d e f g i j h = absurd (ground (arith, h))
conjuncts true false c d e f g i j h = absurd (ground (arith, h))
conjuncts true true false d e f g i j h = absurd (ground (arith, h))
conjuncts true true true false e f g i j h = absurd (ground (arith, h))
conjuncts true true true true false f g i j h = absurd (ground (arith, h))

is_mcp_url_lem :
    (u : Url) (port : Option ℕ)
    → is_mcp_url u port ≡ true
    → ((u.scheme == "http" || u.scheme == "https") ≡ true)
      × (is_blank u.username ≡ true)
      × (is_blank u.password ≡ true)
unfolding is_mcp_url
is_mcp_url_lem u port h =
    conjuncts (u.scheme == "http" || u.scheme == "https") _ _ (is_blank u.username)
      (is_blank u.password) _ _ _ _ h

https_only :
    (scheme : String) (allow : Bool)
    → (scheme == "http" || scheme == "https") ≡ true
    → not (scheme == "http" && not allow) ≡ true
    → (allow ≡ true) ⊎ (scheme ≡ "https")
https_only scheme true h g = inl refl
https_only scheme false h g = inr (ground (arith, h, g, eq_iff scheme "https"))

validate_http_url-scheme :
    (reader : Reader) (value url : String) (allow : Bool)
    → validate_http_url reader value allow ≡ ok url
    → (u : Url) × (reader.urlparse url ≡ some u)
      × ((allow ≡ true) ⊎ (u.scheme ≡ "https"))
      × (is_blank u.username ≡ true)
      × (is_blank u.password ≡ true)
unfolding validate_http_url
validate_http_url-scheme reader value url allow h = elim (Option-cases (reader.urlparse value)) [
  | inl e ↦ absurd (ground (arith, h, e))
  | inr (u, e) ↦ elim (Option-cases u.port) [
    | inl f ↦ absurd (ground (arith, h, e, f))
    | inr (port, f) ↦ elim (Bool-cases (is_mcp_url u port)) [
      | inr g ↦ absurd (ground (arith, h, e, f, g))
      | inl g ↦ elim (Bool-cases (not (u.scheme == "http" && not allow))) [
        | inr k ↦ absurd (ground (arith, h, e, f, g, k))
        | inl k ↦
            let this : value ≡ url = ground (arith, h, e, f, g, k) in
            let (scheme, user, password) = is_mcp_url_lem u port g in
            (
              u,
              ap reader.urlparse (sym this) ∙ e,
              https_only u.scheme allow scheme k,
              user,
              password,
            )
      ]
    ]
  ]
]

-- In a configuration that is read without the flag for insecure HTTP, the private address is an
-- HTTPS one; with the flag or without, it holds no credentials.
pub from_env-transport :
    (reader : Reader) (env : Environment) (c : RemoteAgentConfig)
    → from_env reader env ≡ ok c
    → (u : Url) × (reader.urlparse c.private_mcp_url ≡ some u)
      × ((env_flag env "REMOTE_AGENT_ALLOW_INSECURE_HTTP" ≡ true) ⊎ (u.scheme ≡ "https"))
      × (is_blank u.username ≡ true)
      × (is_blank u.password ≡ true)
from_env-transport reader env c h =
    let (l, s, p, q, (address, v), _, _, _, _, _, _, _, _) = from_env-parts reader env c h in
    validate_http_url-scheme reader address c.private_mcp_url _ v
