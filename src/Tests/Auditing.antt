-- ===== src/Tests/Auditing.antt =====
-- An event with a secret in its details.
use remote_agent_connector.Redaction
use remote_agent_connector.Prelude.{none, some, [], ◌∷◌, ◌++◌, List, ◌≡◌, refl}
use remote_agent_connector.Prelude.Json.{Json, obj, field, end, str, arr, cons, nil}
use remote_agent_connector.Store.{empty}
use remote_agent_connector.Store.Audit.{Event}
use remote_agent_connector.Store.Ops.{Op, audit, run}
use remote_agent_connector.Redaction.{redact_audit_value}
use remote_agent_connector.Redaction.Stored.{HasCleanAudit, run-HasCleanAudit}
use remote_agent_connector.Tests.Fleet.{noon, arrivals}
use remote_agent_connector.Tests.Caller.{checks}
use remote_agent_connector.Config

abbrev details : Json
details = obj (
    field "API_Token" (str "hunter2")
      (field "steps" (arr (cons (obj (field "filePath" (str "/home") end)) nil)) end))

abbrev event : Event
event = record {
  action = "relay.files.write";
  result_code = "ok";
  agent_principal = none;
  connector_id = some "laptop";
  request_id = none;
  details = details;
}

details_redacted :
    redact_audit_value (λ s. s) details
    ≡ obj (
        field "API_Token"
          (str "[REDACTED]")
          (field "steps" (arr (cons (obj (field "filePath" (str "[REDACTED]") end)) nil)) end))
unfolding checks Config.includes Redaction.includes_any Redaction.is_sensitive redact_audit_value
details_redacted = refl

abbrev history : List Op
history = arrivals ++ audit event noon "e1" ∷ []

run-HasCleanAudit_example :
    HasCleanAudit (λ s. s) (λ s. s) (run (λ s. s) (redact_audit_value (λ s. s)) history empty)
run-HasCleanAudit_example = run-HasCleanAudit (λ s. s) (λ s. s) history
