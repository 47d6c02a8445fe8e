-- ===== src/Service/Checks.antt =====
-- remote_agent_connector/service.py: the checks of a device command before its claim.
use remote_agent_connector.Prelude.{
  ℕ, String, Bool, true, not, Option, none, some, ◌==◌, if◌then◌else◌,
}
use remote_agent_connector.Prelude.Int.{pos, ltb_ℤ, leb_ℤ}
use remote_agent_connector.Prelude.Texts.{replace_dots}
use remote_agent_connector.Prelude.Json.{
  Json, int, str, obj, Fields, end, field, get, has_field, item, to_text, is_truthy, equals_text,
}
use remote_agent_connector.Protocol.Ids.{parse_connector_id, parse_instance_id}
use remote_agent_connector.Store.{InstanceRow, Datetime, as_timestamp}
use remote_agent_connector.Store.Instances.{exact_online_instance, latest_online_instance}
use remote_agent_connector.Relay.{agent_error, protocol_error}
use remote_agent_connector.Relay.Registry.{has_capability, get_exact}
use remote_agent_connector.Service.{
  Env, Config, Exec, ◌>>=◌, ◌>>◌, pure, ensure, require, on_store, gets, fresh_after,
}
use remote_agent_connector.Service.Identity.{DelegatedIdentity}

-- `_relay_session`; an empty instance id counts as none.
unfoldable pub relay_session :
    Config → String → Option String → Datetime → Exec (Option InstanceRow)
relay_session cfg connector_id none now =
    on_store (latest_online_instance connector_id (fresh_after cfg now))
relay_session cfg connector_id (some instance_id) now =
    if instance_id == ""
    then on_store (latest_online_instance connector_id (fresh_after cfg now))
    else do
      id ← require (parse_instance_id instance_id) (protocol_error "instance_id is invalid")
      on_store (exact_online_instance connector_id id (fresh_after cfg now))

-- The registered session of the connector's live instance.
unfoldable pub live_session : Config → String → Option String → Datetime → Exec (InstanceRow × ℕ)
live_session cfg connector_id instance_id now = do
  found ← relay_session cfg connector_id instance_id now
  row ← require found (agent_error "device_offline")
  registered ← gets (λ s. s.has_registry)
  ensure registered (agent_error "relay_unavailable")
  held ← gets (λ s. get_exact connector_id row.instance_id s.relay)
  session ← require held (agent_error "device_offline")
  pure (row, session)

unfoldable pub assertion_fits : Option Fields → String → Bool
unfolding item equals_text
assertion_fits none connector_id = true
assertion_fits (some a) connector_id = equals_text connector_id (item "connector_id" a)

-- `_unix_seconds` of the clock is its `as_timestamp`. An assertion that was parsed has an integer
-- there; the comparison of any other value with a number is not reached.
unfoldable pub expires_after : Json → ℕ → Bool
expires_after (int n) now = not (leb_ℤ n (pos now))
expires_after v now = true

unfoldable pub assertion_live : Option Fields → Datetime → Bool
unfolding item expires_after
assertion_live none now = true
assertion_live (some a) now = expires_after (item "expires_at" a) (as_timestamp now)

-- The requested budget: `timeout_s` if it is given, or else `timeout_seconds`.
unfoldable pub requested_timeout : Fields → Option Json
requested_timeout arguments =
    if has_field "timeout_s" arguments
    then get "timeout_s" arguments
    else get "timeout_seconds" arguments

unfoldable pub timeout_fits : Config → Option Json → Bool
timeout_fits cfg (some (int n)) = not (ltb_ℤ (pos cfg.request_timeout_seconds) n)
timeout_fits cfg value = true

-- The assertion's correlation id, or else the id that `uuid4` draws.
unfoldable pub request_id_of : Env → Option Fields → String → String
unfolding item to_text
request_id_of env none drawn = drawn
request_id_of env (some a) drawn =
    if is_truthy (item "request_id" a) then to_text env.text_of (item "request_id" a) else drawn

unfoldable pub request_digest : Env → String → String → Fields → InstanceRow → String
request_digest env connector_id tool arguments row = env.sha256 (
    env.dumps (
      obj (
        field "connector_id" (str connector_id) (
          field "tool" (str tool) (
            field "arguments" (obj arguments) (
              field "instance_id" (str row.instance_id)
                (field "context_epoch" (int (pos row.context_epoch)) end)))))))

-- The arguments of `device_command`, and the uuid that it may draw.
pub record Command : Type 0 where
  pub identity : DelegatedIdentity
  pub tool : String
  pub connector_id : String
  pub arguments : Fields
  pub idempotency_key : String
  pub instance_id : Option String
  pub drawn : String

-- What the checks before the claim establish.
pub record Admitted : Type 0 where
  pub connector_id : String
  pub row : InstanceRow
  pub session : ℕ
  pub request_id : String

unfoldable pub admit : Env → Config → Command → Datetime → Exec Admitted
admit env cfg c now = do
  connector_id ←
      require (parse_connector_id c.connector_id) (protocol_error "connector_id is invalid")
  ensure (assertion_fits c.identity.app_assertion connector_id)
      (agent_error "app_assertion_connector_mismatch")
  (row, session) ← live_session cfg connector_id c.instance_id now
  object ← gets (λ s. s.relay.objects session)
  ensure (has_capability object (replace_dots c.tool)) (agent_error "capability_not_granted")
  ensure (assertion_live c.identity.app_assertion now)
      (agent_error "app_assertion_expired_at_dispatch")
  ensure (timeout_fits cfg (requested_timeout c.arguments))
      (agent_error "timeout_exceeds_relay_window")
  pure (record {
    connector_id = connector_id;
    row = row;
    session = session;
    request_id = request_id_of env c.identity.app_assertion c.drawn;
  })
