-- ===== src/Store.antt =====
-- remote_agent_connector/store.py and migrations/sqlite: the rows of the tables, the registry's
-- state and its clock. A transaction runs alone, so each method is a function on the tables.
pub mod Tokens
pub mod Challenges
pub mod Devices
pub mod Instances
pub mod Ledger
pub mod Requests
pub mod Audit
pub mod Presence
pub mod Idempotency
pub mod SingleUse
pub mod Valid
pub mod Ops
use remote_agent_connector.Prelude.{
  ℕ, ◌+◌, ◌*◌, ◌/◌, String, Bool, true, false, Option, none, some, List, [], ◌∷◌,
}
use remote_agent_connector.Prelude.Json.{Json}
use remote_agent_connector.Protocol.Profiles.{Profile}

-- A `datetime` is its microseconds. `as_timestamp` prints it to the second in UTC, and such texts
-- of one length compare as the seconds do.
abbrev pub Datetime : Type 0
Datetime = ℕ

abbrev pub Timestamp : Type 0
Timestamp = ℕ

abbrev pub microseconds : ℕ
microseconds = 1000000

unfoldable pub as_timestamp : Datetime → Timestamp
as_timestamp value = value / microseconds

-- `value + timedelta(seconds=seconds)`.
unfoldable pub after_seconds : Datetime → ℕ → Datetime
after_seconds value seconds = value + seconds * microseconds

pub data EnrollmentState : Type 0 where
  enrolled revoked : EnrollmentState

pub data ConnectionState : Type 0 where
  online offline : ConnectionState

pub data RequestStatus : Type 0 where
  pending completed failed : RequestStatus

abbrev pub is_enrolled : EnrollmentState → Bool
is_enrolled enrolled = true
is_enrolled revoked = false

abbrev pub is_online : ConnectionState → Bool
is_online online = true
is_online offline = false

abbrev pub is_pending : RequestStatus → Bool
is_pending pending = true
is_pending completed = false
is_pending failed = false

pub record TokenRow : Type 0 where
  pub token_hash : String
  pub connector_id : String
  pub capability_profile : String
  pub display_label : String
  pub expires_at : Timestamp
  pub consumed_at : Option Timestamp
  pub created_at : Timestamp

pub record ChallengeRow : Type 0 where
  pub challenge_id : String
  pub challenge_hash : String
  pub expires_at : Timestamp
  pub consumed_at : Option Timestamp
  pub created_at : Timestamp

pub record DeviceRow : Type 0 where
  pub connector_id : String
  pub public_key : String
  pub display_label : String
  pub capability_profile : Profile
  pub capabilities : List String
  pub platform : String
  pub enrollment_state : EnrollmentState
  pub enrolled_at : Timestamp
  pub revoked_at : Option Timestamp
  pub updated_at : Timestamp

pub record InstanceRow : Type 0 where
  pub instance_id : String
  pub connector_id : String
  pub connection_generation : String
  pub context_epoch : ℕ
  pub state : ConnectionState
  pub connected_at : Timestamp
  pub last_heartbeat_at : Timestamp
  pub disconnected_at : Option Timestamp

pub record RequestRow : Type 0 where
  pub connector_id : String
  pub client_id : String
  pub idempotency_key : String
  pub request_id : String
  pub tool_name : String
  pub request_digest : String
  pub status : RequestStatus
  pub result_json : Option Json
  pub created_at : Timestamp
  pub completed_at : Option Timestamp

pub record AuditRow : Type 0 where
  pub event_id : String
  pub agent_principal : Option String
  pub connector_id : Option String
  pub request_id : Option String
  pub action : String
  pub result_code : String
  pub details : Json
  pub created_at : Timestamp

pub record Store : Type 0 where
  pub enrollment_tokens : List TokenRow
  pub relay_challenges : List ChallengeRow
  pub remote_agent_devices : List DeviceRow
  pub live_instances : List InstanceRow
  pub agent_requests : List RequestRow
  pub agent_audit_events : List AuditRow

abbrev pub empty : Store
empty = record {
  enrollment_tokens = [];
  relay_challenges = [];
  remote_agent_devices = [];
  live_instances = [];
  agent_requests = [];
  agent_audit_events = [];
}
