-- ===== src/Tests/Serving.antt =====
-- Tool calls and requests of the operator.
use remote_agent_connector.Prelude.{String, true, false, none, some, ◌≡◌, refl}
use remote_agent_connector.Prelude.Int.{pos}
use remote_agent_connector.Prelude.Texts.{lower, strip}
use remote_agent_connector.Protocol.Ids.{parse_connector_id, parse_client_id}
use remote_agent_connector.Relay.{ok}
use remote_agent_connector.Relay.Registry.{has_capability}
use remote_agent_connector.Service.{App}
use remote_agent_connector.Service.Identity.{DelegatedIdentity}
use remote_agent_connector.Service.Commands.{sent}
use remote_agent_connector.Delegation.Headers.{canonical_delegation, verify_delegation_headers}
use remote_agent_connector.Server.Tools.Published.{
  files_read, files_write, tool_name, annotations, call_tool,
}
use remote_agent_connector.Server.Tools.Published.Granted.{call_tool-sent, call_tool-read_only}
use remote_agent_connector.Server.Operator.{put_device, serve}
use remote_agent_connector.Server.Operator.CertificateRoutes.{Certificates, certificate_error}
use remote_agent_connector.Server.Operator.Authorized.{is_answer, serve-refused}
use remote_agent_connector.Tests.Fleet.{env, noon, app, fleet-IsValid, differ}
use remote_agent_connector.Tests.Caller.{
  checks, codec, headers, bare_headers, server_config, target,
}
use remote_agent_connector.Tests.Dispatch.{call, read_call}

abbrev after : App
after =
    (call_tool codec env server_config headers 1000 (target "laptop" "r1")
      (files_write "home" "/tmp/a" "text" "text") noon app).1

tool_sent :
    call_tool codec env server_config headers 1000
      (target "laptop" "r1")
      (files_write "home" "/tmp/a" "text" "text")
      noon
      app
    ≡ (ok (sent call), after)
unfolding checks
tool_sent = refl

call_tool-sent_example :
    ((i : DelegatedIdentity) × (i.client_id ≡ "hub")
      × (parse_client_id "hub" ≡ some i.client_id)
      × (verify_delegation_headers codec headers "secret" "connector" 1000 90
            server_config.require_signed_app_assertion
          ≡ ok i)
      × ((payload : String) × (canonical_delegation codec "connector" i.client_id i.timestamp
              i.nonce i.scopes i.app_id
            ≡ ok payload)
          × (codec.hmac "secret" payload ≡ lower (strip (headers "x-mcp-hub-client-signature")))))
    × (parse_connector_id "laptop" ≡ some "laptop")
    × (has_capability (app.relay.objects 0) (tool_name (files_write "home" "/tmp/a" "text" "text"))
        ≡ true)
call_tool-sent_example =
    call_tool-sent codec env server_config headers 1000 (target "laptop" "r1")
      (files_write "home" "/tmp/a" "text" "text") noon app after call fleet-IsValid tool_sent

abbrev after_read : App
after_read =
    (call_tool codec env server_config bare_headers 1000 (target "kiosk" "r2")
      (files_read "home" "/tmp/a" (pos 0) none "text") noon app).1

read_sent :
    call_tool codec env server_config bare_headers 1000
      (target "kiosk" "r2")
      (files_read "home" "/tmp/a" (pos 0) none "text")
      noon
      app
    ≡ (ok (sent read_call), after_read)
unfolding checks
read_sent = refl

call_tool-read_only_example :
    (annotations (files_read "home" "/tmp/a" (pos 0) none "text")).read_only_hint ≡ true
call_tool-read_only_example =
    call_tool-read_only codec env server_config bare_headers 1000 (target "kiosk" "r2")
      (files_read "home" "/tmp/a" (pos 0) none "text") noon app after_read read_call fleet-IsValid
      read_sent refl

-- A connector that has no certificates.
abbrev certificates : Certificates
certificates = record {
  load_public_ca_artifact = λ path. certificate_error "relay_ca_artifact_unconfigured" "";
  sign_relay_csr = λ csr path key ip days. certificate_error "relay_ca_signer_unconfigured" "";
}

serve-refused_example :
    ((serve codec certificates env server_config "Bearer guess"
        (put_device "laptop" "Desk" noon)
        app).1
      ≡ app)
    × (is_answer
          (serve codec certificates env server_config "Bearer guess"
            (put_device "laptop" "Desk" noon)
            app).0
        ≡ false)
serve-refused_example =
    serve-refused codec certificates env server_config "Bearer guess"
      (put_device "laptop" "Desk" noon) app (differ "Bearer guess" "Bearer operator" refl)
