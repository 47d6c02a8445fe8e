-- ===== src/Config/Ranges.antt =====
-- remote_agent_connector/config.py, `from_env`: the lemmas on its ranges and its secrets.
use Prim.Native.String.{count}
use remote_agent_connector.Prelude.{
  ℕ, ◌≤◌, String, false, ◌≡◌, ◌≢◌, arith, eq_refl, Option-cases, inl, inr,
}
use remote_agent_connector.Prelude.Int.{ℤ, pos, negsuc}
use remote_agent_connector.Prelude.Texts.{lower}
use remote_agent_connector.Relay.{ok, Result-cases}
use remote_agent_connector.Config.{
  Environment, Reader, required_secret, required_value, has_placeholder, placeholder_markers,
  or_default,
}
use remote_agent_connector.Config.FromEnv.{
  Limits, Secrets, in_range, ranged, allowed_hosts_of, read_limits, read_secrets,
  connector_max_request_timeout_seconds,
}

in_range-bounds : (lo hi : ℕ) (z : ℤ) (n : ℕ) → in_range lo hi z ≡ ok n → (lo ≤ n) × (n ≤ hi)
unfolding in_range
in_range-bounds lo hi (pos m) n h = (ground (arith, h), ground (arith, h))
in_range-bounds lo hi (negsuc m) n h = absurd (ground (arith, h))

ranged-bounds :
    (reader : Reader) (env : Environment) (name fallback : String) (hi n : ℕ)
    → ranged reader env name fallback hi ≡ ok n
    → (1 ≤ n) × (n ≤ hi)
unfolding ranged
ranged-bounds reader env name fallback hi n h =
    elim (Option-cases (reader.int_of (or_default fallback (env name)))) [
      | inl e ↦ absurd (ground (arith, h, e))
      | inr (z, e) ↦ in_range-bounds 1 hi z n (ground (arith, h, e))
    ]

required_secret_lem :
    (env : Environment) (name s : String)
    → required_secret env name ≡ ok s
    → (32 ≤ count s) × (has_placeholder (lower s) placeholder_markers ≡ false)
unfolding required_secret
required_secret_lem env name s h = (ground (arith, h), ground (arith, h))

pub read_limits-bounds :
    (reader : Reader) (env : Environment) (l : Limits)
    → read_limits reader env ≡ ok l
    → ((1 ≤ l.bind_port) × (l.bind_port ≤ 65535))
      × ((1 ≤ l.request_timeout) × (l.request_timeout ≤ connector_max_request_timeout_seconds))
      × ((1 ≤ l.heartbeat_timeout) × (l.heartbeat_timeout ≤ 3600))
      × ((1 ≤ l.handshake_timeout) × (l.handshake_timeout ≤ 60))
unfolding read_limits
read_limits-bounds reader env l h =
    let port = ranged reader env "REMOTE_AGENT_BIND_PORT" "3030" 65535 in
    let timeout =
      ranged reader env "REMOTE_AGENT_REQUEST_TIMEOUT_SECONDS" "60"
        connector_max_request_timeout_seconds in
    let heartbeat = ranged reader env "REMOTE_AGENT_HEARTBEAT_TIMEOUT_SECONDS" "30" 3600 in
    let handshake = ranged reader env "REMOTE_AGENT_RELAY_HANDSHAKE_TIMEOUT_SECONDS" "15" 60 in
    elim (Result-cases port) [
      | inr (e, p) ↦ absurd (ground (arith, h, p))
      | inl (n, p) ↦ elim (Result-cases (required_value env "REMOTE_AGENT_HUB_AUDIENCE")) [
        | inr (e, q) ↦ absurd (ground (arith, h, p, q))
        | inl (a, q) ↦ elim (Result-cases (allowed_hosts_of env)) [
          | inr (e, r) ↦ absurd (ground (arith, h, p, q, r))
          | inl (hosts, r) ↦ elim (Result-cases timeout) [
            | inr (e, t) ↦ absurd (ground (arith, h, p, q, r, t))
            | inl (m, t) ↦ elim (Result-cases heartbeat) [
              | inr (e, u) ↦ absurd (ground (arith, h, p, q, r, t, u))
              | inl (k, u) ↦ elim (Result-cases handshake) [
                | inr (e, v) ↦ absurd (ground (arith, h, p, q, r, t, u, v))
                | inl (j, v) ↦ (
                  ground (arith, h, p, q, r, t, u, v, ranged-bounds reader env _ _ _ n p),
                  ground (arith, h, p, q, r, t, u, v, ranged-bounds reader env _ _ _ m t),
                  ground (arith, h, p, q, r, t, u, v, ranged-bounds reader env _ _ _ k u),
                  ground (arith, h, p, q, r, t, u, v, ranged-bounds reader env _ _ _ j v),
                )
              ]
            ]
          ]
        ]
      ]
    ]

-- A secret that is accepted: long enough, and not a placeholder.
abbrev pub IsSecret : String → Type 0
IsSecret s = (32 ≤ count s) × (has_placeholder (lower s) placeholder_markers ≡ false)

pub read_secrets_lem :
    (env : Environment) (s : Secrets)
    → read_secrets env ≡ ok s
    → IsSecret s.mcp_bearer_token
      × IsSecret s.hub_delegation_secret
      × IsSecret s.operator_bearer_token
      × (s.mcp_bearer_token ≢ s.hub_delegation_secret)
      × (s.mcp_bearer_token ≢ s.operator_bearer_token)
      × (s.hub_delegation_secret ≢ s.operator_bearer_token)
unfolding read_secrets
read_secrets_lem env s h =
    elim (Result-cases (required_secret env "REMOTE_AGENT_MCP_BEARER_TOKEN")) [
      | inr (e, p) ↦ absurd (ground (arith, h, p))
      | inl (a, p) ↦
          elim (Result-cases (required_secret env "REMOTE_AGENT_HUB_DELEGATION_SECRET")) [
            | inr (e, q) ↦ absurd (ground (arith, h, p, q))
            | inl (b, q) ↦
                elim (Result-cases (required_secret env "REMOTE_AGENT_OPERATOR_BEARER_TOKEN")) [
                  | inr (e, r) ↦ absurd (ground (arith, h, p, q, r))
                  | inl (c, r) ↦
                      let this : s ≡ record {
                        mcp_bearer_token = a;
                        hub_delegation_secret = b;
                        operator_bearer_token = c;
                      } =
                        ground (arith, h, p, q, r) in
                      rw this (
                        required_secret_lem env _ a p,
                        required_secret_lem env _ b q,
                        required_secret_lem env _ c r,
                        λ e. ground (arith, h, p, q, r, e, eq_refl b),
                        λ e. ground (arith, h, p, q, r, e, eq_refl c),
                        λ e. ground (arith, h, p, q, r, e, eq_refl c),
                      )
                ]
          ]
    ]
