-- ===== src/Server/Operator.antt =====
-- remote_agent_connector/server.py: the operator's routes and the list of agents.
pub mod Guard
pub mod CertificateRoutes
pub mod Authorized
use remote_agent_connector.Prelude.{
  ℕ, String, Bool, true, false, Option, none, some, List, ◌==◌, is_some, if◌then◌else◌,
}
use remote_agent_connector.Prelude.Int.{ℤ, pos_part}
use remote_agent_connector.Prelude.Json.{Json, obj, Fields, field, end, to_text}
use remote_agent_connector.Prelude.Texts.{after}
use remote_agent_connector.Protocol.Profiles.{Profile}
use remote_agent_connector.Store.{Datetime, AuditRow}
use remote_agent_connector.Store.Audit.{audit_events}
use remote_agent_connector.Relay.{
  Exc, agent_error, protocol_error, assertion_error, value_error, Result, ok, err,
}
use remote_agent_connector.Errors.{ContractEntry, relay_error_contract}
use remote_agent_connector.Service.{App, Env}
use remote_agent_connector.Service.Enrollment.{issue_token}
use remote_agent_connector.Service.Devices
use remote_agent_connector.Service.Devices.{DeviceStatus, Agent}
use remote_agent_connector.Service.Cancel
use remote_agent_connector.Delegation.{Codec}
use remote_agent_connector.Server.{ServerConfig, compare_digest}
use remote_agent_connector.Server.Operator.Guard.{
  Response, answer, refusal, contract_refusal, uncaught, operator_authorized, as_operator, respond,
  respond_plainly,
}
use remote_agent_connector.Server.Operator.CertificateRoutes.{
  Certificates, relay_ca_publication, issue_relay_certificate,
}

unfoldable pub relay_error_contract_route :
    ServerConfig → String → App → Response (List ContractEntry) × App
relay_error_contract_route cfg header =
    as_operator cfg header (λ s. (answer 200 relay_error_contract, s))

-- The body of a request for an enrollment token, with the default of 600 seconds put in.
pub record TokenRequest : Type 0 where
  pub connector_id : String
  pub capability_profile : String
  pub display_label : String
  pub expires_in_seconds : ℕ

-- A body that is not of this form is none. Any exception is a refusal.
issued : Result String × App → Response String × App
issued (ok token, s) = (answer 201 token, s)
issued (err e, s) = (refusal 400 "invalid_enrollment_request", s)

unfoldable pub issue_enrollment :
    Env
    → ServerConfig
    → String
    → Option TokenRequest
    → Datetime
    → String
    → App
    → Response String × App
unfolding issued
issue_enrollment env cfg header body now drawn = as_operator cfg header (λ s. elim body [
  | none ↦ (refusal 400 "invalid_enrollment_request", s)
  | some r ↦ issued (
      issue_token env r.connector_id r.capability_profile r.display_label r.expires_in_seconds now
        drawn s)
])

unfoldable pub revoke_device :
    Env → ServerConfig → String → String → Datetime → App → Response (Unit {0}) × App
unfolding respond
revoke_device env cfg header connector_id now =
    as_operator cfg header
      (λ s. respond 200 (λ code. 404) (Devices.revoke_device env connector_id now s))

unfoldable pub rename_device :
    Env → ServerConfig → String → String → String → Datetime → App → Response (Unit {0}) × App
unfolding respond
rename_device env cfg header connector_id display_label now = as_operator cfg header (λ s.
    respond 200 (λ code. if code == "device_not_found" then 404 else 400)
      (Devices.rename_device env connector_id display_label now s))

unfoldable pub delete_device :
    Env → ServerConfig → String → String → Datetime → App → Response (Unit {0}) × App
unfolding respond
delete_device env cfg header connector_id now = as_operator cfg header (λ s.
    respond 200
      (λ code.
        if code == "device_not_found"
        then 404
        else if code == "device_not_revoked"
        then 409
        else 400)
      (Devices.delete_revoked_device env connector_id now s))

unfoldable pub list_devices :
    Env → ServerConfig → String → Datetime → App → Response (List DeviceStatus) × App
unfolding respond_plainly
list_devices env cfg header now =
    as_operator cfg header (λ s. respond_plainly (Devices.operator_devices env cfg.service now s))

unfoldable pub list_agents : ServerConfig → String → Datetime → App → Response (List Agent) × App
unfolding respond_plainly
list_agents cfg header now =
    as_operator cfg header (λ s. respond_plainly (Devices.online_agents cfg.service now s))

-- A `ValueError` of a malformed id, a `ProtocolError` for one, is a refusal here.
cancelled : Result (String × String) × App → Response (String × String) × App
unfolding respond
cancelled (err (protocol_error message), s) = (refusal 400 "invalid_cancel_request", s)
cancelled (err value_error, s) = (refusal 400 "invalid_cancel_request", s)
cancelled (err (assertion_error message), s) = (refusal 400 "invalid_cancel_request", s)
cancelled r =
    respond 200
      (λ code.
        if code == "device_offline"
        then 404
        else if code == "request_not_in_flight"
        then 404
        else 400)
      r

unfoldable pub cancel_request :
    Env
    → ServerConfig
    → String
    → String
    → String
    → Datetime
    → App
    → Response (String × String) × App
unfolding cancelled
cancel_request env cfg header connector_id request_id now =
    as_operator cfg header
      (λ s. cancelled (Cancel.cancel_request env cfg.service connector_id request_id now s))

-- The query's `limit`, "100" if it is absent. The store bounds it from below, so a negative one acts
-- as zero does.
unfoldable pub operator_audit :
    Codec → ServerConfig → String → String → App → Response (List AuditRow) × App
operator_audit codec cfg header limit = as_operator cfg header (λ s. elim (codec.int_of limit) [
  | none ↦ (refusal 400 "invalid_limit", s)
  | some n ↦ (answer 200 (audit_events (pos_part n) s.store), s)
])

-- A request to a route behind the guard, with what it reads of the clock and draws.
pub data Route : Type 0 where
  get_errors : Route
  get_relay_ca : Route
  post_certificate : Option Json → Route
  post_enrollment : Option TokenRequest → Datetime → String → Route
  post_revoke : String → Datetime → Route
  put_device : (connector_id display_label : String) → Datetime → Route
  delete_device_route : String → Datetime → Route
  get_devices : Datetime → Route
  get_agents : Datetime → Route
  post_cancel : (connector_id request_id : String) → Datetime → Route
  get_audit : String → Route

abbrev pub Payload : Route → Type 0
Payload get_errors = List ContractEntry
Payload get_relay_ca = Fields
Payload (post_certificate body) = Fields
Payload (post_enrollment body now drawn) = String
Payload (post_revoke c now) = Unit
Payload (put_device c l now) = Unit
Payload (delete_device_route c now) = Unit
Payload (get_devices now) = List DeviceStatus
Payload (get_agents now) = List Agent
Payload (post_cancel c r now) = String × String
Payload (get_audit limit) = List AuditRow

-- The routes of `create_app` behind the guard.
unfoldable pub serve :
    Codec
    → Certificates
    → Env
    → ServerConfig
    → String
    → (r : Route) → App
    → Response (Payload r) × App
serve codec certificates env cfg header get_errors = relay_error_contract_route cfg header
serve codec certificates env cfg header get_relay_ca = relay_ca_publication certificates cfg header
serve codec certificates env cfg header (post_certificate body) =
    issue_relay_certificate codec certificates cfg header body
serve codec certificates env cfg header (post_enrollment body now drawn) =
    issue_enrollment env cfg header body now drawn
serve codec certificates env cfg header (post_revoke c now) = revoke_device env cfg header c now
serve codec certificates env cfg header (put_device c l now) = rename_device env cfg header c l now
serve codec certificates env cfg header (delete_device_route c now) =
    delete_device env cfg header c now
serve codec certificates env cfg header (get_devices now) = list_devices env cfg header now
serve codec certificates env cfg header (get_agents now) = list_agents cfg header now
serve codec certificates env cfg header (post_cancel c r now) =
    cancel_request env cfg header c r now
serve codec certificates env cfg header (get_audit limit) = operator_audit codec cfg header limit
