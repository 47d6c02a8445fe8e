-- ===== src/Config.antt =====
-- remote_agent_connector/config.py: the configuration, read from the environment.
pub mod FromEnv
pub mod Ranges
pub mod Accepted
use remote_agent_connector.Prelude.{
  ℕ, zero, String, Bool, true, false, ◌&&◌, ◌||◌, not, leb, ltb, Option, none, some, List, [], ◌∷◌,
  ◌==◌, is_some, contains, if◌then◌else◌,
}
use Prim.Native.Char.{code}
use Prim.Native.String.{count}
use remote_agent_connector.Prelude.Int.{ℤ, pos, negsuc}
use remote_agent_connector.Prelude.Texts.{strip, lower, after, split}
use remote_agent_connector.Relay.{Exc, runtime_error, value_error, Result, ok, err}
use remote_agent_connector.Delegation.{◌>>=◌, ◌>>◌, guard, need}

-- `os.getenv`.
abbrev pub Environment : Type 0
Environment = String → Option String

-- What `urlparse` reads of a text; `port` is none where its access raises.
pub record Url : Type 0 where
  pub scheme : String
  pub netloc : String
  pub path : String
  pub query : String
  pub fragment : String
  pub hostname : Option String
  pub username : Option String
  pub password : Option String
  pub port : Option (Option ℕ)

-- What the configuration uses of Python's library: `int` of a text, and `urlparse`.
pub record Reader : Type 0 where
  pub int_of : String → Option ℤ
  pub urlparse : String → Option Url

abbrev pub or_default : String → Option String → String
or_default fallback none = fallback
or_default fallback (some s) = s

abbrev pub placeholder_markers : List String
placeholder_markers = "replace-with" ∷ "change-me" ∷ "changeme" ∷ "example-token" ∷ []

-- `marker in s`.
unfoldable pub includes : String → String → Bool
unfolding after
includes marker String.[] = is_some (after marker "")
includes marker (String.◌∷◌ c s) = is_some (after marker (String.◌∷◌ c s)) || includes marker s

unfoldable pub has_placeholder : String → List String → Bool
unfolding includes
has_placeholder s [] = false
has_placeholder s (marker ∷ markers) = includes marker s || has_placeholder s markers

unfoldable pub env_flag : Environment → String → Bool
unfolding strip lower contains
env_flag env name = elim (env name) [
  | none ↦ false
  | some raw ↦ contains (lower (strip raw)) ("1" ∷ "true" ∷ "yes" ∷ "on" ∷ [])
]

unfoldable pub required_secret : Environment → String → Result String
unfolding strip lower has_placeholder
required_secret env name =
    let value = strip (or_default "" (env name)) in
    if ltb (count value) 32 || has_placeholder (lower value) placeholder_markers
    then err runtime_error
    else ok value

unfoldable pub required_value : Environment → String → Result String
unfolding strip
required_value env name =
    let value = strip (or_default "" (env name)) in
    if value == "" then err runtime_error else ok value

-- `value.rstrip("/")`.
unfoldable pub rstrip_slash : String → String
rstrip_slash String.[] = ""
rstrip_slash (String.◌∷◌ c s) =
    let rest = rstrip_slash s in
    if String.◌∷◌ c "" == "/" && rest == "" then "" else String.◌∷◌ c rest

-- A text that is absent, or empty.
abbrev pub is_blank : Option String → Bool
is_blank none = true
is_blank (some s) = s == ""

abbrev pub is_port_zero : Option ℕ → Bool
is_port_zero (some zero) = true
is_port_zero port = false

unfoldable pub is_mcp_url : Url → Option ℕ → Bool
unfolding rstrip_slash
is_mcp_url u port =
    (u.scheme == "http" || u.scheme == "https")
    && not (u.netloc == "")
    && not (is_blank u.hostname)
    && is_blank u.username
    && is_blank u.password
    && u.query == ""
    && u.fragment == ""
    && rstrip_slash u.path == "/mcp"
    && not (is_port_zero port)

unfoldable pub validate_http_url : Reader → String → Bool → Result String
unfolding is_mcp_url
validate_http_url reader value allow_insecure_http = do
  u ← need (reader.urlparse value) value_error
  port ← need u.port runtime_error
  guard (is_mcp_url u port) runtime_error
  guard (not (u.scheme == "http" && not allow_insecure_http)) runtime_error
  ok value

unfoldable pub validate_database_url : String → Bool → Result String
unfolding strip lower after
validate_database_url value allow_sqlite_dev =
    let normalized = strip value in
    let lowered = lower normalized in
    if is_some (after "postgres://" lowered) || is_some (after "postgresql://" lowered)
    then ok normalized
    else if is_some (after "sqlite:///" lowered)
    then (if allow_sqlite_dev then ok normalized else err runtime_error)
    else err runtime_error
