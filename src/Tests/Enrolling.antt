-- ===== src/Tests/Enrolling.antt =====
-- A laptop enrols with its token, and its relay connection is authenticated.
use remote_agent_connector.Prelude.{String, true, none, some, [], ◌∷◌, ◌≡◌, refl}
use remote_agent_connector.Prelude.Table.{first}
use remote_agent_connector.Prelude.Int.{pos, negsuc}
use remote_agent_connector.Protocol.Ids.{parse_connector_id}
use remote_agent_connector.Protocol.Profiles.{read_write, profile_of, capabilities_for_profile}
use remote_agent_connector.Store.{TokenRow, DeviceRow, InstanceRow, empty, is_enrolled}
use remote_agent_connector.Store.Tokens.{token_row, consume_enrollment_token_detailed, consumed}
use remote_agent_connector.Store.Challenges.{consume_challenge}
use remote_agent_connector.Store.Devices.{get_device}
use remote_agent_connector.Store.Instances.{has_instance}
use remote_agent_connector.Store.Ops.{issue, challenge, run}
use remote_agent_connector.Relay.{ok, err, key_error, integrity_error}
use remote_agent_connector.Service.{App}
use remote_agent_connector.Service.Enrollment.{
  EnrollRequest, Enrolled, complete_enrollment, enrollment_payload, AuthRequest, Authenticated,
  authenticate_relay, relay_auth_payload,
}
use remote_agent_connector.Service.Enrollment.Proved.{complete_enrollment_lem}
use remote_agent_connector.Service.Enrollment.Signed.{authenticate_relay_lem}
use remote_agent_connector.Tests.Fleet.{program, env, noon, app}

abbrev prepared : App
prepared = record app {
  store =
      run (λ s. s) (λ j. j)
        (issue "desktop" "read_write" "Desktop" 600 noon "secret"
          ∷ challenge 120 noon (record { challenge_id = "c1"; challenge = "text" })
          ∷ challenge 120 noon (record { challenge_id = "c2"; challenge = "text" })
          ∷ [])
        empty;
}

abbrev request : EnrollRequest
request = record {
  challenge_id = "c1";
  challenge = "text";
  connector_id = " Desktop";
  enrollment_token = "secret";
  public_key = "key";
  signature = "key";
  platform = "linux";
}

abbrev enrolled : Enrolled
enrolled = record {
  connector_id = "desktop";
  capability_profile = read_write;
  capabilities = capabilities_for_profile read_write;
}

abbrev after : App
after = (complete_enrollment env request noon prepared).1

desktop_enrolled : complete_enrollment env request noon prepared ≡ (ok enrolled, after)
unfolding program
desktop_enrolled = refl

complete_enrollment_lem_example :
    (parse_connector_id " Desktop" ≡ some enrolled.connector_id)
    × ((token : TokenRow) × (token_row env.sha256 "secret" prepared.store ≡ some token)
        × (token.connector_id ≡ enrolled.connector_id)
        × (profile_of token.capability_profile ≡ some read_write))
    × ((consume_challenge env.sha256 "c1" "text" noon prepared.store).0 ≡ true)
    × ((payload : String) × (enrollment_payload env "c1" "text" "desktop" "secret" "key"
          ≡ some payload)
        × (env.verify "key" payload "key" ≡ true))
    × (get_device "desktop" prepared.store ≡ none)
    × ((d : DeviceRow) × (get_device "desktop" after.store ≡ some d)
        × (is_enrolled d.enrollment_state ≡ true)
        × (d.public_key ≡ request.public_key)
        × (d.capability_profile ≡ read_write))
complete_enrollment_lem_example =
    complete_enrollment_lem env request noon prepared after enrolled desktop_enrolled

abbrev auth : AuthRequest
auth = record {
  challenge_id = "c2";
  challenge = "text";
  connector_id = "desktop";
  instance_id = "one";
  context_epoch = pos 0;
  signature = "key";
  connection_generation = "g1";
  capabilities = [];
}

abbrev authenticated : Authenticated
authenticated = record {
  connector_id = "desktop";
  instance_id = "one";
  context_epoch = 0;
  connection_generation = "g1";
  capabilities = [];
}

abbrev online : App
online = (authenticate_relay env auth noon after).1

desktop_online : authenticate_relay env auth noon after ≡ (ok authenticated, online)
unfolding program
desktop_online = refl

authenticate_relay_lem_example :
    (parse_connector_id "desktop" ≡ some authenticated.connector_id)
    × ((consume_challenge env.sha256 "c2" "text" noon after.store).0 ≡ true)
    × ((d : DeviceRow) × (get_device "desktop" after.store ≡ some d)
        × (is_enrolled d.enrollment_state ≡ true)
        × ((payload : String) × (relay_auth_payload env "c2" "text" "desktop" "one" (pos 0)
              ≡ some payload)
            × (env.verify d.public_key payload "key" ≡ true)))
    × ((row : InstanceRow) × (first (has_instance "one") online.store.live_instances ≡ some row)
        × (row.connection_generation ≡ auth.connection_generation)
        × (row.connector_id ≡ authenticated.connector_id))
authenticate_relay_lem_example =
    authenticate_relay_lem env auth noon after online authenticated desktop_online

-- A token of a profile that is not in the table is used up, and the enrollment ends in a `KeyError`.
abbrev misissued : App
misissued = record app {
  store =
      run (λ s. s) (λ j. j)
        (issue "desktop" "admin" "Desktop" 600 noon "secret"
          ∷ challenge 120 noon (record { challenge_id = "c1"; challenge = "text" })
          ∷ [])
        empty;
}

admin_unknown : (complete_enrollment env request noon misissued).0 ≡ err key_error
unfolding program
admin_unknown = refl

admin_used :
    (consume_enrollment_token_detailed env.sha256 "secret" "desktop" noon
      (complete_enrollment env request noon misissued).1.store).0
    ≡ (consumed, none)
unfolding program
admin_used = refl

-- A negative epoch fails when the instance's row is written.
negative_epoch :
    (authenticate_relay env (record auth { context_epoch = negsuc 0 }) noon after).0
    ≡ err integrity_error
unfolding program
negative_epoch = refl
