-- ===== src/Service/Enrollment.antt =====
-- remote_agent_connector/service.py: enrollment and the authentication of a relay connection, with
-- the payloads of protocol.py that a device signs.
pub mod Proved
pub mod Signed
use Prim.Native.String.{◌++◌}
use remote_agent_connector.Prelude.{ℕ, String, Option, none, some, List, if◌then◌else◌}
use remote_agent_connector.Prelude.Int.{ℤ, pos, negsuc}
use remote_agent_connector.Prelude.Json.{Json, str, int, obj, end, field}
use remote_agent_connector.Protocol.Profiles.{Profile, profile_of, capabilities_for_profile}
use remote_agent_connector.Protocol.Ids.{parse_connector_id, parse_instance_id, validate_platform}
use remote_agent_connector.Store.{TokenRow, DeviceRow, Datetime, is_enrolled}
use remote_agent_connector.Store.Tokens.{
  TokenStatus, invalid, connector_mismatch, consumed, expired, accepted, issue_enrollment_token,
  consume_enrollment_token_detailed,
}
use remote_agent_connector.Store.Challenges.{Challenge, create_challenge, consume_challenge}
use remote_agent_connector.Store.Devices.{get_device, enroll_device}
use remote_agent_connector.Store.Instances.{upsert_presence, is_subset}
use remote_agent_connector.Store.Audit.{Event}
use remote_agent_connector.Relay.{Exc, agent_error, protocol_error, integrity_error, key_error}
use remote_agent_connector.Service.{
  Env, Exec, ◌>>=◌, ◌>>◌, pure, raise, ensure, require, on_store, gets, audit,
}

-- An event that concerns a connector.
unfoldable pub device_event : String → String → Json → Event
device_event action connector_id details = record {
  action = action;
  result_code = "ok";
  agent_principal = none;
  connector_id = some connector_id;
  request_id = none;
  details = details;
}

-- The profile is a text: nothing checks it before a device enrols with it. Every exception below
-- becomes `invalid_enrollment_request`.
unfoldable pub issue_token : Env → String → String → String → ℕ → Datetime → String → Exec String
unfolding device_event
issue_token env connector_id profile label expires_in now drawn = do
  issued ←
      on_store (issue_enrollment_token env.sha256 connector_id profile label expires_in now drawn)
  token ← require issued (agent_error "invalid_enrollment_request")
  audit env
      (device_event "operator.enrollment_token_issued" connector_id (
        obj (
          field "capability_profile" (str profile)
            (field "expires_in_seconds" (int (pos expires_in)) end))))
      now
  pure token

unfoldable pub enrollment_payload : Env → String → String → String → String → String → Option String
enrollment_payload env challenge_id challenge connector_id token public_key =
    elim (env.uuid challenge_id) [
      | none ↦ none
      | some id ↦ elim (parse_connector_id connector_id) [
        | none ↦ none
        | some connector ↦ some (
            "remote-agent-enrollment-v1\n"
            ++ (id
                ++ ("\n"
                    ++ (challenge
                        ++ ("\n" ++ (connector ++ ("\n" ++ (token ++ ("\n" ++ public_key)))))))))
      ]
    ]

unfoldable pub relay_auth_payload : Env → String → String → String → String → ℤ → Option String
relay_auth_payload env challenge_id challenge connector_id instance_id epoch =
    elim (env.uuid challenge_id) [
      | none ↦ none
      | some id ↦ elim (parse_connector_id connector_id) [
        | none ↦ none
        | some connector ↦ elim (parse_instance_id instance_id) [
          | none ↦ none
          | some instance_id' ↦ some (
              "remote-agent-relay-auth-v1\n"
              ++ (id
                  ++ ("\n"
                      ++ (challenge
                          ++ ("\n"
                              ++ (connector
                                  ++ ("\n"
                                      ++ (instance_id' ++ ("\n" ++ env.text_of (int epoch))))))))))
        ]
      ]
    ]

-- The error of a token that was not accepted.
unfoldable pub accepted_token : TokenStatus × Option TokenRow → Exec TokenRow
accepted_token (invalid, row) = raise (agent_error "enrollment_token_invalid")
accepted_token (expired, row) = raise (agent_error "enrollment_token_expired")
accepted_token (consumed, row) = raise (agent_error "enrollment_token_consumed")
accepted_token (connector_mismatch, row) = raise (agent_error "connector_id_mismatch")
accepted_token (accepted, none) = raise (agent_error "enrollment_token_invalid")
accepted_token (accepted, some row) = pure row

-- The error for a connector id that is taken.
unfoldable pub taken : DeviceRow → Exc
taken d =
    if is_enrolled d.enrollment_state
    then agent_error "device_already_enrolled"
    else agent_error "device_revoked"

unfoldable pub absent : Option DeviceRow → Exec (Unit {0})
unfolding taken
absent none = pure tt
absent (some d) = raise (taken d)

-- The check after a write that found the connector taken.
unfoldable pub taken_after : Option DeviceRow → Exc
unfolding taken
taken_after none = agent_error "device_already_enrolled"
taken_after (some d) = taken d

pub record EnrollRequest : Type 0 where
  pub challenge_id : String
  pub challenge : String
  pub connector_id : String
  pub enrollment_token : String
  pub public_key : String
  pub signature : String
  pub platform : String

pub record Enrolled : Type 0 where
  pub connector_id : String
  pub capability_profile : Profile
  pub capabilities : List String

-- The profile is looked up by the store's `enroll_device`, before it reads or writes a row.
unfoldable pub complete_enrollment : Env → EnrollRequest → Datetime → Exec Enrolled
complete_enrollment env q now = do
  connector_id ←
      require (parse_connector_id q.connector_id) (protocol_error "connector_id is invalid")
  platform ← require (validate_platform q.platform) (protocol_error "platform is invalid")
  answer ←
      on_store (consume_enrollment_token_detailed env.sha256 q.enrollment_token connector_id now)
  token ← accepted_token answer
  fresh ← on_store (consume_challenge env.sha256 q.challenge_id q.challenge now)
  ensure fresh (agent_error "invalid_challenge")
  payload ←
      require
        (enrollment_payload env q.challenge_id q.challenge connector_id q.enrollment_token
          q.public_key)
        (protocol_error "challenge_id must be a UUID")
  ensure (env.verify q.public_key payload q.signature) (agent_error "enrollment_signature_invalid")
  existing ← gets (λ s. get_device connector_id s.store)
  absent existing
  profile ← require (profile_of token.capability_profile) key_error
  enrolled ←
      on_store (enroll_device connector_id q.public_key token.display_label profile now platform)
  again ← gets (λ s. get_device connector_id s.store)
  ensure enrolled (taken_after again)
  audit env
      (device_event "device.enrolled" connector_id (
        obj (
          field "capability_profile" (str token.capability_profile)
            (field "public_key_fingerprint" (str (env.fingerprint q.public_key)) end))))
      now
  pure (record {
    connector_id = connector_id;
    capability_profile = profile;
    capabilities = capabilities_for_profile profile;
  })

-- The challenge lasts the default 120 seconds.
unfoldable pub issue_relay_challenge : Env → Challenge → Datetime → Exec Challenge
issue_relay_challenge env drawn now = do
  issued ← on_store (create_challenge env.sha256 120 now drawn)
  require issued integrity_error

-- The epoch is an integer; the code does not check its type.
pub record AuthRequest : Type 0 where
  pub challenge_id : String
  pub challenge : String
  pub connector_id : String
  pub instance_id : String
  pub context_epoch : ℤ
  pub signature : String
  pub connection_generation : String
  pub capabilities : List String

pub record Authenticated : Type 0 where
  pub connector_id : String
  pub instance_id : String
  pub context_epoch : ℕ
  pub connection_generation : String
  pub capabilities : List String

-- The epoch that the row is written with. A negative one fails the table's CHECK, if the write is
-- reached.
unfoldable pub written_epoch : DeviceRow → List String → ℤ → Exec ℕ
written_epoch d capabilities (pos n) = pure n
written_epoch d capabilities (negsuc n) = raise (
    if is_subset capabilities (capabilities_for_profile d.capability_profile)
    then integrity_error
    else agent_error "capabilities_not_granted")

unfoldable pub authenticate_relay : Env → AuthRequest → Datetime → Exec Authenticated
authenticate_relay env q now = do
  connector_id ←
      require (parse_connector_id q.connector_id) (protocol_error "connector_id is invalid")
  instance_id ← require (parse_instance_id q.instance_id) (protocol_error "instance_id is invalid")
  fresh ← on_store (consume_challenge env.sha256 q.challenge_id q.challenge now)
  ensure fresh (agent_error "invalid_challenge")
  known ← gets (λ s. get_device connector_id s.store)
  device ← require known (agent_error "relay_authentication_failed")
  ensure (is_enrolled device.enrollment_state) (agent_error "device_revoked")
  payload ←
      require
        (relay_auth_payload env q.challenge_id q.challenge connector_id instance_id q.context_epoch)
        (protocol_error "challenge_id must be a UUID")
  ensure (env.verify device.public_key payload q.signature)
      (agent_error "relay_authentication_failed")
  epoch ← written_epoch device q.capabilities q.context_epoch
  stored ←
      on_store
        (upsert_presence connector_id instance_id q.connection_generation epoch q.capabilities now)
  ensure stored (agent_error "capabilities_not_granted")
  audit env
      (device_event "device.online" connector_id (obj (field "instance_id" (str instance_id) end)))
      now
  pure (record {
    connector_id = connector_id;
    instance_id = instance_id;
    context_epoch = epoch;
    connection_generation = q.connection_generation;
    capabilities = q.capabilities;
  })
