-- ===== src/Delegation.antt =====
-- remote_agent_connector/protocol.py: the identity that the Hub delegates to the connector.
pub mod Scopes
pub mod Assertion
pub mod Headers
use remote_agent_connector.Prelude.{ℕ, String, Bool, true, false, Option, none, some}
use remote_agent_connector.Prelude.Int.{ℤ}
use remote_agent_connector.Prelude.Json.{Json}
use remote_agent_connector.Relay.{Exc, Result, ok, err}

-- What the parsers use of Python's libraries.
pub record Codec : Type 0 where
  -- `str` of a value that is not a text, and of an integer
  pub text_of : Json → String
  pub int_text : ℤ → String
  -- `int` of a text
  pub int_of : String → Option ℤ
  -- `str(uuid.UUID(…))`
  pub uuid : String → Option String
  -- `json.loads(base64.urlsafe_b64decode(…))`, with the padding
  pub decode : String → Option Json
  -- the number of bytes of `base64.urlsafe_b64decode(…)`, with the padding
  pub byte_length : String → Option ℕ
  -- whether Ed25519 verifies a signature of a payload under a public key, of the right lengths
  pub ed25519 : Json → String → Json → Bool
  -- `hmac.new(secret, payload, sha256).hexdigest()`
  pub hmac : String → String → String
  -- `canonical_json_bytes`
  pub canonical : Json → String

-- A check raises the exception that goes with it.
abbrev pub guard : Bool → Exc → Result (Unit {0})
guard false problem = err problem
guard true problem = ok tt

-- A value that must be there.
abbrev pub need {ℓ} : {A : Type ℓ} → Option A → Exc → Result A
need none problem = err problem
need (some a) problem = ok a

infixl 5 ◌>>◌ ◌>>=◌
-- The code up to the first exception.
abbrev pub ◌>>=◌ {κ ℓ} : {X : Type κ} {Y : Type ℓ} → Result X → (X → Result Y) → Result Y
err problem >>= next = err problem
ok x >>= next = next x

abbrev pub ◌>>◌ {ℓ} : {Y : Type ℓ} → Result (Unit {0}) → Result Y → Result Y
check >> rest = check >>= λ done. rest
