-- ===== src/Tests/Caller.antt =====
-- A caller whose headers are signed, its assertion, and the keys of a device.
use remote_agent_connector.Delegation.Assertion
use remote_agent_connector.Delegation.Headers
use remote_agent_connector.Delegation.Scopes
use remote_agent_connector.Server
use remote_agent_connector.Server.Tools.Agent
use remote_agent_connector.Server.Tools.Files
use remote_agent_connector.Server.Tools.Published
use remote_agent_connector.Verifier
use remote_agent_connector.Verifier.Check
use remote_agent_connector.Verifier.Keyset
use remote_agent_connector.Verifier.Replay
use remote_agent_connector.Verifier.Replay.Window
use remote_agent_connector.Protocol.Ids
use remote_agent_connector.Prelude.Texts
use remote_agent_connector.Prelude.Json
use remote_agent_connector.Prelude.{String, true, false, none, some, [], ◌∷◌, ◌==◌, if◌then◌else◌}
use remote_agent_connector.Prelude.Dict.{Dict}
use remote_agent_connector.Prelude.Int.{pos}
use remote_agent_connector.Prelude.Json.{
  Json, Fields, field, end, str, int, arr, obj, cons, nil, null,
}
use remote_agent_connector.Service.Identity.{DelegatedIdentity}
use remote_agent_connector.Delegation.{Codec}
use remote_agent_connector.Delegation.Headers.{Headers}
use remote_agent_connector.Verifier.{TrustAnchor, Verifier}
use remote_agent_connector.Verifier.Check.{Expected}
use remote_agent_connector.Server.{ServerConfig, Target}
use remote_agent_connector.Tests.Fleet.{program, config}

-- What a concrete run of the checks computes through, besides `program`.
unfoldable pub checks : Unit {0}
unfolding program Assertion.assertion_int Assertion.scope_items Assertion.envelope
    Assertion.check_names Assertion.check_times Assertion.decodes_to Assertion.check_ids
    Assertion.parse_decoded Assertion.parse_encoded Assertion.parse_app_assertion Headers.v3_text
    Headers.v4_text Headers.signed_text Headers.canonical_delegation Headers.read_headers
    Headers.equals_texts Headers.scopes_equal Headers.matched Headers.read_assertion
    Headers.verify_delegation_headers Scopes.every Scopes.stripped Scopes.normalize_scopes
    Scopes.validate_agent_scopes Scopes.raw_scopes Server.compare_digest Server.verify_token
    Server.relay_command Server.delegated_identity Server.call_agent Server.answer_agent
    Agent.terminal_execute Agent.ssh_execute Agent.ssh_list_profiles Agent.skills_list
    Agent.skills_materialize Agent.skills_execute Agent.mcp_list_servers Agent.mcp_call
    Agent.mcp_health Agent.skills_health Files.connector_health Files.files_list Files.files_stat
    Files.files_search Files.files_read Files.files_write Files.files_delete Files.files_move
    Files.files_mkdir Files.files_upload Files.files_download Published.tool_name
    Published.annotations Published.tool_command Published.call_tool Verifier.anchor_fits
    Verifier.verify_signature Verifier.as_int Check.parsed_or_refused Check.integer
    Check.check_times Check.check_key Check.check_binding Check.check_assertion Check.seen_key
    Check.verify Keyset.check_envelope Keyset.check_lifetime Keyset.add_keys Keyset.read_keys
    Keyset.verify_keyset Keyset.check_root Keyset.pending_root Replay.unexpired Replay.evict
    Replay.reject_replay Window.submit_all Ids.key_id_pattern Ids.nonce_pattern Ids.scope_pattern
    Ids.parse_nonce Ids.is_hex_digest Texts.split Texts.insert_text Texts.sort_texts Texts.after
    Texts.is_ascii Json.without
checks = tt

abbrev pub digest : String
digest = "0123456789abcdef0123456789abcdef0123456789abcdef0123456789abcdef"

abbrev pub nonce : String
nonce = "abcdefghij0123456789"

abbrev pub assertion : Fields
assertion = field "schema_version" (str "business-mcp-remote-agent-app-assertion-v2") (
    field "issuer" (str "business-mcp-hub") (
      field "audience" (str "remote-agent-device") (
        field "key_id" (str "key-1") (
          field "client_id" (str "hub") (
            field "app_id" (str "mail") (
              field "connector_id" (str "laptop") (
                field "scopes" (arr (cons (str "agent:read") nil)) (
                  field "issued_at" (int (pos 990)) (
                    field "expires_at" (int (pos 1040)) (
                      field "nonce" (str nonce) (
                        field "request_id" (str "r1") (
                          field "assertion_id" (str "a1")
                            (field "signature" (str "sig") end)))))))))))))

abbrev pub codec : Codec
codec = record {
  text_of = λ j. "";
  int_text = λ n. "1000";
  int_of = λ s. if s == "1000" then some (pos 1000) else none;
  uuid = λ s. some s;
  decode = λ s. if s == "envelope" then some (obj assertion) else none;
  byte_length = λ s. if s == "key" then some 32 else some 64;
  ed25519 = λ key payload signature. true;
  hmac = λ secret payload. if secret == "secret" then digest else "";
  canonical = λ j. "payload";
}

abbrev pub bare_headers : Headers
bare_headers name =
    if name == "x-mcp-hub-client-id"
    then "hub"
    else if name == "x-mcp-hub-client-scopes"
    then "agent:read"
    else if name == "x-mcp-hub-client-nonce"
    then nonce
    else if name == "x-mcp-hub-client-timestamp"
    then "1000"
    else if name == "x-mcp-hub-client-signature"
    then digest
    else ""

-- The headers of an application, with its assertion.
abbrev pub headers : Headers
headers name =
    if name == "x-mcp-hub-app-id"
    then "mail"
    else if name == "x-mcp-hub-app-assertion"
    then "envelope"
    else bare_headers name

abbrev pub identity : DelegatedIdentity
identity = record {
  client_id = "hub";
  scopes = "agent:read" ∷ [];
  nonce = nonce;
  timestamp = pos 1000;
  app_id = "mail";
  app_assertion = some assertion;
}

abbrev pub server_config : ServerConfig
server_config = record {
  service = config;
  mcp_bearer_token = "mcp";
  operator_bearer_token = "operator";
  hub_delegation_secret = "secret";
  hub_audience = "connector";
  require_signed_app_assertion = false;
  public_ca_cert_path = some "/ca.pem";
  ca_private_key_path = none;
  relay_ip = "10.21.4.101";
  relay_certificate_validity_days = pos 90;
}

abbrev pub target : String → String → Target
target profile_id drawn = record {
  profile_id = profile_id;
  idempotency_key = "k1";
  instance_id = none;
  drawn = drawn;
}

abbrev pub key : Fields
key = field "key_id" (str "key-1") (
    field "public_key" (str "key") (
      field "not_before" (int (pos 0))
        (field "not_after" (int (pos 2000)) (field "status" (str "active") end))))

abbrev pub keyset : Fields
keyset = field "schema_version" (str "business-mcp-remote-agent-app-keyset-v1") (
    field "root_key_id" (str "root") (
      field "issued_at" (int (pos 900)) (
        field "expires_at" (int (pos 1900))
          (field "keys" (arr (cons (obj key) nil)) (field "signature" (str "sig") end)))))

abbrev pub trusted : Dict Fields
trusted = ("key-1", key) ∷ []

abbrev pub verifier : Verifier
verifier = record {
  anchor = record { root_key_id = "root"; root_public_key = "key" };
  connector_id = "laptop";
  clock_skew_seconds = 60;
  seen_limit = 2;
  seen = [];
}

abbrev pub expected : Expected
expected = record {
  request_id = "r1";
  client_id = "hub";
  app_id = "mail";
  scopes = "agent:read" ∷ [];
}
