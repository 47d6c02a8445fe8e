-- ===== src/Server/Operator/Guard.antt =====
-- remote_agent_connector/server.py: the guard of the operator's routes, and their responses.
use remote_agent_connector.Prelude.{ℕ, String, Bool, true, false, none, some}
use remote_agent_connector.Prelude.Texts.{after}
use remote_agent_connector.Relay.{Exc, agent_error, Result, ok, err}
use remote_agent_connector.Service.{App}
use remote_agent_connector.Server.{ServerConfig, compare_digest}

-- A response with its status and a value; one with a status and a `code`; one with a status, a
-- `contract`, a `code` and a `message`; or an exception that the handler does not catch.
pub data Response {ℓ} (A : Type ℓ) : Type ℓ where
  answer : ℕ → A → Response A
  refusal : ℕ → String → Response A
  contract_refusal : ℕ → (contract code message : String) → Response A
  uncaught : Exc → Response A

unfoldable pub operator_authorized : ServerConfig → String → Result Bool
unfolding after compare_digest
operator_authorized cfg header = elim (after "Bearer " header) [
  | none ↦ ok false
  | some token ↦ compare_digest token cfg.operator_bearer_token
]

-- The guard that the handler of each of these routes starts with.
unfoldable pub as_operator {ℓ} :
    {A : Type ℓ} → ServerConfig → String → (App → Response A × App) → App → Response A × App
as_operator cfg header handler s = elim (operator_authorized cfg header) [
  | ok true ↦ handler s
  | ok false ↦ (refusal 401 "unauthorized", s)
  | err e ↦ (uncaught e, s)
]

-- What the handlers do with the service's result; `status_of` gives the status of an `AgentError`.
unfoldable pub respond {ℓ} : {A : Type ℓ} → ℕ → (String → ℕ) → Result A × App → Response A × App
respond status status_of (ok a, s) = (answer status a, s)
respond status status_of (err (agent_error code), s) = (refusal (status_of code) code, s)
respond status status_of (err e, s) = (uncaught e, s)

-- A handler that catches nothing.
unfoldable pub respond_plainly {ℓ} : {A : Type ℓ} → Result A × App → Response A × App
respond_plainly (ok a, s) = (answer 200 a, s)
respond_plainly (err e, s) = (uncaught e, s)
