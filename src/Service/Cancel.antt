-- ===== src/Service/Cancel.antt =====
-- remote_agent_connector/service.py: the cancellation of a command in flight by an operator.
pub mod Answered
use remote_agent_connector.Prelude.{ℕ, String, Option, none, some, if◌then◌else◌}
use remote_agent_connector.Prelude.Dict
use remote_agent_connector.Prelude.Json.{Fields, field, end, str, obj}
use remote_agent_connector.Protocol.Ids.{parse_connector_id}
use remote_agent_connector.Store.{InstanceRow, Datetime}
use remote_agent_connector.Store.Audit.{Event}
use remote_agent_connector.Relay.{resolved, is_done, update, agent_error, protocol_error}
use remote_agent_connector.Service.{
  Env, Config, App, Exec, ◌>>=◌, ◌>>◌, pure, ensure, require, gets, audit,
}
use remote_agent_connector.Service.Checks.{live_session}

-- What a command that is cancelled answers.
abbrev pub cancelled_result : Fields
cancelled_result = field "code" (str "cancelled") end

-- `if not future.done(): future.set_result(…)`.
unfoldable pub resolve_cancelled : ℕ → Exec (Unit {0})
resolve_cancelled future s =
    if is_done (s.relay.futures future) then (remote_agent_connector.Relay.ok tt, s) else (
      remote_agent_connector.Relay.ok tt,
      record s {
        relay = record s.relay {
          futures = update s.relay.futures future (resolved cancelled_result);
        };
      },
    )

unfoldable pub cancel_event : String → String → Event
cancel_event connector_id request_id = record {
  action = "relay.cancel";
  result_code = "cancelled";
  agent_principal = some "operator";
  connector_id = some connector_id;
  request_id = some request_id;
  details = obj end;
}

-- The connector and the request of the answer. The frame that is sent is not part of the state; a
-- send that raises ends the call before the future is resolved.
unfoldable pub cancel_request : Env → Config → String → String → Datetime → Exec (String × String)
unfolding cancel_event
cancel_request env cfg connector_id request_id now = do
  connector ← require (parse_connector_id connector_id) (protocol_error "connector_id is invalid")
  request ← require (env.uuid request_id) (protocol_error "request_id must be a UUID")
  (row, session) ← live_session cfg connector none now
  pending ← gets (λ s. Dict.get request (s.relay.objects session).pending)
  future ← require pending (agent_error "request_not_in_flight")
  resolve_cancelled future
  audit env (cancel_event connector request) now
  pure (connector, request)
