-- ===== src/Store/Audit.antt =====
-- remote_agent_connector/store.py: the append-only audit trail.
use remote_agent_connector.Prelude.{
  ℕ, String, Bool, Option, List, [], ◌∷◌, ◌++◌, ltb, eqb, max, min, if◌then◌else◌,
}
use remote_agent_connector.Prelude.Json.{Json}
use remote_agent_connector.Prelude.Table.{order_by, take}
use remote_agent_connector.Prelude.Texts.{text_leb}
use remote_agent_connector.Store.{Store, AuditRow, Datetime, as_timestamp}

-- What a caller records; `details` is `{}` where the caller gives none.
pub record Event : Type 0 where
  pub action : String
  pub result_code : String
  pub agent_principal : Option String
  pub connector_id : Option String
  pub request_id : Option String
  pub details : Json

-- `redact` is `redact_audit_value` of redaction.py, and the id is the one that `uuid4` draws.
unfoldable pub append_audit : (Json → Json) → Event → Datetime → String → Store → Store
append_audit redact e now event_id s = record s {
  agent_audit_events =
      s.agent_audit_events
      ++ record {
        event_id = event_id;
        agent_principal = e.agent_principal;
        connector_id = e.connector_id;
        request_id = e.request_id;
        action = e.action;
        result_code = e.result_code;
        details = redact e.details;
        created_at = as_timestamp now;
      }
        ∷ [];
}

-- `ORDER BY created_at DESC, event_id DESC`.
unfoldable pub newest_first : AuditRow → AuditRow → Bool
newest_first a b =
    if eqb a.created_at b.created_at
    then text_leb b.event_id a.event_id
    else ltb b.created_at a.created_at

unfoldable pub audit_events : ℕ → Store → List AuditRow
unfolding newest_first
audit_events limit s = take (max 1 (min limit 500)) (order_by newest_first s.agent_audit_events)
