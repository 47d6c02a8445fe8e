-- ===== src/Server/Tools/Published/Granted.antt =====
-- remote_agent_connector/server.py: the lemmas on the tools, from the delegation headers to the
-- session that a frame goes to.
use remote_agent_connector.Prelude.{
  ℕ, String, true, not, some, ◌≡◌, refl, sym, ◌∙◌, ap, arith, contains, inl, inr,
}
use remote_agent_connector.Prelude.Texts.{replace_dots, lower, strip}
use remote_agent_connector.Protocol.Profiles
use remote_agent_connector.Protocol.Profiles.{
  mutating_relay_tools, full_agent_capabilities, capabilities_for_profile,
}
use remote_agent_connector.Protocol.Ids.{parse_connector_id, parse_client_id}
use remote_agent_connector.Store.{Datetime}
use remote_agent_connector.Store.Valid.{IsValid}
use remote_agent_connector.Relay.{
  agent_error, protocol_error, assertion_error, tool_error, type_error, runtime_error, value_error,
  key_error, integrity_error, cancelled_error, Result, ok, err, Result-cases,
}
use remote_agent_connector.Relay.Registry.{has_capability}
use remote_agent_connector.Service.{App, Env}
use remote_agent_connector.Service.Identity.{DelegatedIdentity}
use remote_agent_connector.Service.Commands.{Call, Dispatched, sent, dispatch}
use remote_agent_connector.Service.Commands.Admission.{
  dispatch-sent, dispatch-client, dispatch-read_only,
}
use remote_agent_connector.Delegation.{Codec}
use remote_agent_connector.Delegation.Headers.{
  Headers, canonical_delegation, verify_delegation_headers,
}
use remote_agent_connector.Delegation.Headers.Trusted.{
  verify_delegation_headers_lem, verified_client,
}
use remote_agent_connector.Server.{
  ServerConfig, Target, delegated_identity, call_agent, as_tool_error,
}
use remote_agent_connector.Server.Tools.Files
use remote_agent_connector.Server.Tools.Agent
use remote_agent_connector.Server.Tools.Published.{
  Tool, tool_name, annotations, tool_command, call_tool, connector_health, files_list, files_stat,
  files_search, files_read, files_write, files_delete, files_move, files_mkdir, files_upload,
  files_download, terminal_execute, ssh_execute, ssh_list_profiles, skills_list, skills_materialize,
  skills_execute, mcp_list_servers, mcp_call, mcp_health, skills_health,
}

-- A tool is annotated as read-only if and only if the verb that it relays is not one that changes
-- state.
pub annotations-mutating :
    (tool : Tool) (target : Target) (identity : DelegatedIdentity)
    → (annotations tool).read_only_hint
      ≡ not (contains (tool_command tool target identity).tool mutating_relay_tools)
unfolding annotations tool_command mutating_relay_tools contains Files.connector_health
    Files.files_list Files.files_stat Files.files_search Files.files_read Files.files_write
    Files.files_delete Files.files_move Files.files_mkdir Files.files_upload Files.files_download
    Agent.terminal_execute Agent.ssh_execute Agent.ssh_list_profiles Agent.skills_list
    Agent.skills_materialize Agent.skills_execute Agent.mcp_list_servers Agent.mcp_call
    Agent.mcp_health Agent.skills_health
annotations-mutating connector_health target identity = refl
annotations-mutating (files_list _ _ _) target identity = refl
annotations-mutating (files_stat _ _) target identity = refl
annotations-mutating (files_search _ _ _ _) target identity = refl
annotations-mutating (files_read _ _ _ _ _) target identity = refl
annotations-mutating (files_write _ _ _ _) target identity = refl
annotations-mutating (files_delete _ _) target identity = refl
annotations-mutating (files_move _ _ _) target identity = refl
annotations-mutating (files_mkdir _ _) target identity = refl
annotations-mutating (files_upload _ _ _) target identity = refl
annotations-mutating (files_download _ _) target identity = refl
annotations-mutating (terminal_execute _ _ _ _) target identity = refl
annotations-mutating (ssh_execute _ _ _ _) target identity = refl
annotations-mutating ssh_list_profiles target identity = refl
annotations-mutating skills_list target identity = refl
annotations-mutating (skills_materialize _ _) target identity = refl
annotations-mutating (skills_execute _ _) target identity = refl
annotations-mutating mcp_list_servers target identity = refl
annotations-mutating (mcp_call _ _ _) target identity = refl
annotations-mutating (mcp_health _) target identity = refl
annotations-mutating skills_health target identity = refl

-- The capability that a tool's verb needs is the tool's own name, and the full-agent profile has it.
pub tool_name-capability :
    (tool : Tool) (target : Target) (identity : DelegatedIdentity)
    → (replace_dots (tool_command tool target identity).tool ≡ tool_name tool)
      × (contains (tool_name tool) full_agent_capabilities ≡ true)
unfolding tool_name tool_command replace_dots full_agent_capabilities contains
    Files.connector_health Files.files_list Files.files_stat Files.files_search Files.files_read
    Files.files_write Files.files_delete Files.files_move Files.files_mkdir Files.files_upload
    Files.files_download Agent.terminal_execute Agent.ssh_execute Agent.ssh_list_profiles
    Agent.skills_list Agent.skills_materialize Agent.skills_execute Agent.mcp_list_servers
    Agent.mcp_call Agent.mcp_health Agent.skills_health
tool_name-capability connector_health target identity = (refl, refl)
tool_name-capability (files_list _ _ _) target identity = (refl, refl)
tool_name-capability (files_stat _ _) target identity = (refl, refl)
tool_name-capability (files_search _ _ _ _) target identity = (refl, refl)
tool_name-capability (files_read _ _ _ _ _) target identity = (refl, refl)
tool_name-capability (files_write _ _ _ _) target identity = (refl, refl)
tool_name-capability (files_delete _ _) target identity = (refl, refl)
tool_name-capability (files_move _ _ _) target identity = (refl, refl)
tool_name-capability (files_mkdir _ _) target identity = (refl, refl)
tool_name-capability (files_upload _ _ _) target identity = (refl, refl)
tool_name-capability (files_download _ _) target identity = (refl, refl)
tool_name-capability (terminal_execute _ _ _ _) target identity = (refl, refl)
tool_name-capability (ssh_execute _ _ _ _) target identity = (refl, refl)
tool_name-capability ssh_list_profiles target identity = (refl, refl)
tool_name-capability skills_list target identity = (refl, refl)
tool_name-capability (skills_materialize _ _) target identity = (refl, refl)
tool_name-capability (skills_execute _ _) target identity = (refl, refl)
tool_name-capability mcp_list_servers target identity = (refl, refl)
tool_name-capability (mcp_call _ _ _) target identity = (refl, refl)
tool_name-capability (mcp_health _) target identity = (refl, refl)
tool_name-capability skills_health target identity = (refl, refl)

tool_command-Target :
    (tool : Tool) (target : Target) (identity : DelegatedIdentity)
    → ((tool_command tool target identity).connector_id ≡ target.profile_id)
      × ((tool_command tool target identity).identity ≡ identity)
unfolding tool_command Files.connector_health Files.files_list Files.files_stat Files.files_search
    Files.files_read Files.files_write Files.files_delete Files.files_move Files.files_mkdir
    Files.files_upload Files.files_download Agent.terminal_execute Agent.ssh_execute
    Agent.ssh_list_profiles Agent.skills_list Agent.skills_materialize Agent.skills_execute
    Agent.mcp_list_servers Agent.mcp_call Agent.mcp_health Agent.skills_health
tool_command-Target connector_health target identity = (refl, refl)
tool_command-Target (files_list _ _ _) target identity = (refl, refl)
tool_command-Target (files_stat _ _) target identity = (refl, refl)
tool_command-Target (files_search _ _ _ _) target identity = (refl, refl)
tool_command-Target (files_read _ _ _ _ _) target identity = (refl, refl)
tool_command-Target (files_write _ _ _ _) target identity = (refl, refl)
tool_command-Target (files_delete _ _) target identity = (refl, refl)
tool_command-Target (files_move _ _ _) target identity = (refl, refl)
tool_command-Target (files_mkdir _ _) target identity = (refl, refl)
tool_command-Target (files_upload _ _ _) target identity = (refl, refl)
tool_command-Target (files_download _ _) target identity = (refl, refl)
tool_command-Target (terminal_execute _ _ _ _) target identity = (refl, refl)
tool_command-Target (ssh_execute _ _ _ _) target identity = (refl, refl)
tool_command-Target ssh_list_profiles target identity = (refl, refl)
tool_command-Target skills_list target identity = (refl, refl)
tool_command-Target (skills_materialize _ _) target identity = (refl, refl)
tool_command-Target (skills_execute _ _) target identity = (refl, refl)
tool_command-Target mcp_list_servers target identity = (refl, refl)
tool_command-Target (mcp_call _ _ _) target identity = (refl, refl)
tool_command-Target (mcp_health _) target identity = (refl, refl)
tool_command-Target skills_health target identity = (refl, refl)

as_tool_error-ok {ℓ} :
    {A : Type ℓ} (r : Result A × App) (a : A) (s : App)
    → as_tool_error r ≡ (ok a, s)
    → r ≡ (ok a, s)
as_tool_error-ok (ok b, t) a s h = h
as_tool_error-ok (err (agent_error code), t) a s h = absurd (ground (arith, h))
as_tool_error-ok (err (protocol_error m), t) a s h = h
as_tool_error-ok (err (assertion_error m), t) a s h = h
as_tool_error-ok (err (tool_error m), t) a s h = h
as_tool_error-ok (err type_error, t) a s h = h
as_tool_error-ok (err runtime_error, t) a s h = h
as_tool_error-ok (err value_error, t) a s h = h
as_tool_error-ok (err key_error, t) a s h = h
as_tool_error-ok (err integrity_error, t) a s h = h
as_tool_error-ok (err cancelled_error, t) a s h = h

-- A tool call that succeeds has an identity that was verified, and dispatched the tool's command.
call_tool-dispatch :
    (codec : Codec) (env : Env) (cfg : ServerConfig) (headers : Headers) (at : ℕ) (target : Target)
    (tool : Tool) (now : Datetime) (s s' : App) (d : Dispatched)
    → call_tool codec env cfg headers at target tool now s ≡ (ok d, s')
    → (i : DelegatedIdentity) × (verify_delegation_headers codec headers cfg.hub_delegation_secret
          cfg.hub_audience at 90 cfg.require_signed_app_assertion
        ≡ ok i)
      × (dispatch env cfg.service (tool_command tool target i) now s ≡ (ok d, s'))
unfolding call_tool delegated_identity call_agent
call_tool-dispatch codec env cfg headers at target tool now s s' d h =
    elim (Result-cases (
      verify_delegation_headers codec headers cfg.hub_delegation_secret cfg.hub_audience at 90
        cfg.require_signed_app_assertion)) [
          | inr (e, p) ↦ absurd (ground (arith, h, p))
          | inl (i, p) ↦ (i, p, as_tool_error-ok _ d s' (ground (arith, h, p)))
        ]

-- In a valid state, a tool call that sends a frame has an identity that the headers' checks returned:
-- its client is the one of the client header, and its fields were signed with the Hub's secret. The
-- frame is sent for that client, to the connector that the call names, over a session that has the
-- tool's own name as a capability.
pub call_tool-sent :
    (codec : Codec) (env : Env) (cfg : ServerConfig) (headers : Headers) (at : ℕ) (target : Target)
    (tool : Tool) (now : Datetime) (s s' : App) (call : Call)
    → IsValid s.store
    → call_tool codec env cfg headers at target tool now s ≡ (ok (sent call), s')
    → ((i : DelegatedIdentity) × (i.client_id ≡ call.key.client_id)
        × (parse_client_id (headers "x-mcp-hub-client-id") ≡ some i.client_id)
        × (verify_delegation_headers codec headers cfg.hub_delegation_secret cfg.hub_audience at 90
              cfg.require_signed_app_assertion
            ≡ ok i)
        × ((payload : String) × (canonical_delegation codec cfg.hub_audience i.client_id i.timestamp
                i.nonce i.scopes i.app_id
              ≡ ok payload)
            × (codec.hmac cfg.hub_delegation_secret payload
                ≡ lower (strip (headers "x-mcp-hub-client-signature")))))
      × (parse_connector_id target.profile_id ≡ some call.key.connector_id)
      × (has_capability (s.relay.objects call.session) (tool_name tool) ≡ true)
call_tool-sent codec env cfg headers at target tool now s s' call v h =
    let (i, verified, dispatched) =
      call_tool-dispatch codec env cfg headers at target tool now s s' (sent call) h in
    let (signed, _, _, _) =
      verify_delegation_headers_lem codec headers cfg.hub_delegation_secret cfg.hub_audience at 90
        cfg.require_signed_app_assertion i verified in
    let (parsed, _, _, _, granted, _, _) =
      dispatch-sent env cfg.service (tool_command tool target i) now s s' call v dispatched in
    let (profile, own) = tool_command-Target tool target i in
    let (capability, _) = tool_name-capability tool target i in
    (
      (
        i,
        ap (λ x. x.client_id) (sym own)
            ∙ sym (
                dispatch-client env cfg.service (tool_command tool target i) now s s' call
                  dispatched),
        verified_client codec headers cfg.hub_delegation_secret cfg.hub_audience at 90
            cfg.require_signed_app_assertion i verified,
        verified,
        signed,
      ),
      ap parse_connector_id (sym profile) ∙ parsed,
      ap (has_capability (s.relay.objects call.session)) (sym capability) ∙ granted,
    )

-- In a valid state, a session with the capabilities of the read-only profile is sent frames of tools
-- that are annotated as read-only, and of no others.
pub call_tool-read_only :
    (codec : Codec) (env : Env) (cfg : ServerConfig) (headers : Headers) (at : ℕ) (target : Target)
    (tool : Tool) (now : Datetime) (s s' : App) (call : Call)
    → IsValid s.store
    → call_tool codec env cfg headers at target tool now s ≡ (ok (sent call), s')
    → (s.relay.objects call.session).capabilities ≡ capabilities_for_profile Profiles.read_only
    → (annotations tool).read_only_hint ≡ true
call_tool-read_only codec env cfg headers at target tool now s s' call v h ceiling =
    let (i, _, dispatched) =
      call_tool-dispatch codec env cfg headers at target tool now s s' (sent call) h in
    annotations-mutating tool target i
    ∙ ap not (
        dispatch-read_only env cfg.service (tool_command tool target i) now s s' call v dispatched
          ceiling)
