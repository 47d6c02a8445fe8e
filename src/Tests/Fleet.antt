-- ===== src/Tests/Fleet.antt =====
-- Two devices, their sessions, and a service around them.
use remote_agent_connector.Service
use remote_agent_connector.Store
use remote_agent_connector.Store.Tokens
use remote_agent_connector.Store.Ops
use remote_agent_connector.Store.Devices
use remote_agent_connector.Store.Requests
use remote_agent_connector.Store.Audit
use remote_agent_connector.Store.Challenges
use remote_agent_connector.Store.Instances
use remote_agent_connector.Service.Commands
use remote_agent_connector.Service.Collision
use remote_agent_connector.Service.Checks
use remote_agent_connector.Service.Enrollment
use remote_agent_connector.Protocol.Ids
use remote_agent_connector.Protocol.Profiles
use remote_agent_connector.Prelude.Json
use remote_agent_connector.Prelude.Dict
use remote_agent_connector.Prelude.Table
use remote_agent_connector.Prelude.Texts
use remote_agent_connector.Relay.Response
use remote_agent_connector.Relay.Registry
use remote_agent_connector.Prelude.{
  ℕ, ◌≢◌, eq_iff, arith, String, true, false, none, some, List, [], ◌∷◌, ◌==◌, ◌≡◌, eqb, contains,
  if◌then◌else◌,
}
use remote_agent_connector.Prelude.Int.{pos}
use remote_agent_connector.Prelude.Json.{Fields, field, end, str}
use remote_agent_connector.Protocol.Profiles.{
  Profile, read_only, full_agent, capabilities_for_profile,
}
use remote_agent_connector.Store.{Store, empty, Datetime}
use remote_agent_connector.Store.Valid.{IsValid}
use remote_agent_connector.Store.Ops.{Op, enroll, presence, revoke, run, run-IsValid}
use remote_agent_connector.Relay.{Session, Relay, waiting}
use remote_agent_connector.Service.{Env, Config, App}
use remote_agent_connector.Service.Checks.{Command}

-- What a concrete run of a command computes through.
unfoldable pub program : Unit {0}
unfolding Service.audit Service.fresh_after Store.as_timestamp Store.after_seconds
    Tokens.issued_token Tokens.token_row Tokens.issue_enrollment_token Tokens.unconsumed
    Tokens.mark_consumed Tokens.check_token Tokens.consume_enrollment_token_detailed
    Tokens.accepted_record Tokens.consume_enrollment_token Ops.apply Ops.run Devices.get_device
    Devices.enrolled_row Devices.enroll_device Devices.by_label Devices.list_devices
    Devices.revoke_row Devices.close_row Devices.revoke_device Devices.delete_revoked_device
    Devices.set_display_label Requests.request_row Requests.answer Requests.insert_or_ignore
    Requests.claimed_row Requests.claim_request Requests.open_claim Requests.close_claim
    Requests.complete_request Audit.append_audit Audit.newest_first Audit.audit_events
    Challenges.issued_challenge Challenges.challenge_row Challenges.create_challenge
    Challenges.challenge_refused Challenges.unused Challenges.mark_used Challenges.consume_challenge
    Instances.is_subset Instances.upsert_row Instances.upsert_presence Instances.beats
    Instances.heartbeat Instances.of_generation Instances.disconnect_instance Instances.retire
    Instances.mark_stale_instances Instances.exact_online_instance Instances.latest
    Instances.latest_online_instance Instances.agents_of Instances.join_agents Instances.by_device
    Instances.online_agents Collision.collision_key Collision.acquire_collision_guard
    Collision.release_collision_guard Checks.relay_session Checks.live_session Checks.assertion_fits
    Checks.expires_after Checks.assertion_live Checks.requested_timeout Checks.timeout_fits
    Checks.request_id_of Checks.request_digest Checks.admit Commands.set_pending Commands.launch
    Commands.after_claim Commands.request_key Commands.claim_and_launch Commands.dispatch
    Commands.abandon Commands.release Commands.fail_request Commands.delivered Commands.finish
    Commands.settle Enrollment.device_event Enrollment.issue_token Enrollment.enrollment_payload
    Enrollment.relay_auth_payload Enrollment.accepted_token Enrollment.taken Enrollment.absent
    Enrollment.taken_after Enrollment.complete_enrollment Enrollment.issue_relay_challenge
    Enrollment.written_epoch Enrollment.authenticate_relay Ids.at_most Ids.client_id_pattern
    Ids.app_id_pattern Ids.instance_id_pattern Ids.connector_id_pattern Ids.parse_connector_id
    Ids.parse_instance_id Ids.parse_client_id Ids.display_label_pattern Ids.validate_display_label
    Ids.platform_pattern Ids.validate_platform Profiles.read_only_capabilities
    Profiles.read_write_capabilities Profiles.full_agent_capabilities
    Profiles.capabilities_by_profile Profiles.mutating_relay_tools Profiles.capabilities_for_profile
    Profiles.profile_name Profiles.profile_of Profiles.validate_capability_profile
    Profiles.instance_stale_seconds Json.get Json.has_field Json.put Json.merge Json.is_truthy
    Json.equals_one Json.equals_text Json.is_hashable Dict.get Dict.set Dict.pop Table.first
    Table.select Table.update_where Table.delete_where Table.count_where Table.order_by Table.take
    Texts.is_space Texts.lstrip Texts.rstrip Texts.strip Texts.lower_char Texts.lower Texts.join
    Texts.replace_dots Texts.text_leb Texts.insert_sorted Texts.sorted Response.require_keys
    Json.item Json.to_text Json.or_empty Response.request_text Response.ok_result
    Response.error_result Response.response_result Response.settle_future Response.response_target
    Response.receive_response Registry.has_capability Registry.fail_all Registry.fail_pending
    Registry.register Registry.is_current Registry.remove Registry.get_exact contains
program = tt

abbrev pub env : Env
env = record {
  sha256 = λ s. s;
  dumps = λ j. "{}";
  encoded_size = λ j. 2;
  text_of = λ j. "1";
  uuid = λ s. some s;
  verify = λ key payload signature. key == signature;
  fingerprint = λ key. key;
  redact = λ j. j;
  event_id = λ n. "event";
}

abbrev pub config : Config
config = record { request_timeout_seconds = 60; heartbeat_timeout_seconds = 45 }

-- 1000 seconds after the epoch.
abbrev pub noon : Datetime
noon = 1000000000

-- A laptop that may do everything, a kiosk that may only read, and a device that was revoked.
abbrev pub arrivals : List Op
arrivals =
    enroll "laptop" "key" "Laptop" full_agent noon "linux"
    ∷ presence "laptop" "one" "first" 0 [] noon
    ∷ enroll "kiosk" "key" "Kiosk" read_only noon "linux"
    ∷ presence "kiosk" "two" "first" 0 [] noon
    ∷ enroll "lost" "key" "Lost" full_agent noon "linux"
    ∷ presence "lost" "three" "first" 0 [] noon
    ∷ revoke "lost" noon
    ∷ []

abbrev pub fleet : Store
fleet = run (λ s. s) (λ j. j) arrivals empty

pub fleet-IsValid : IsValid fleet
fleet-IsValid = run-IsValid (λ s. s) (λ j. j) arrivals

abbrev pub session : String → String → Profile → Session
session connector_id instance_id profile = record {
  connector_id = connector_id;
  instance_id = instance_id;
  context_epoch = 0;
  connection_generation = "first";
  capabilities = capabilities_for_profile profile;
  capability_profile = profile;
  pending = [];
}

abbrev pub objects : ℕ → Session
objects n = if eqb n 0 then session "laptop" "one" full_agent else session "kiosk" "two" read_only

abbrev pub relay : Relay
relay = record {
  sessions = ("laptop", 0) ∷ ("kiosk", 1) ∷ [];
  objects = objects;
  futures = λ n. waiting;
}

abbrev pub app : App
app = record { store = fleet; relay = relay; has_registry = true; in_flight = []; next_future = 0 }

abbrev pub command : String → String → String → Command
command tool connector_id drawn = record {
  identity = record {
    client_id = "hub";
    scopes = [];
    nonce = "n";
    timestamp = pos 1000;
    app_id = "";
    app_assertion = none;
  };
  tool = tool;
  connector_id = connector_id;
  arguments = field "path" (str "/tmp/a") end;
  idempotency_key = "k1";
  instance_id = none;
  drawn = drawn;
}

pub differ : (a b : String) → (a == b) ≡ false → a ≢ b
differ a b h p = ground (arith, h, eq_iff a b, p)
