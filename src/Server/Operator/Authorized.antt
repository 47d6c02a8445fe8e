-- ===== src/Server/Operator/Authorized.antt =====
-- remote_agent_connector/server.py, `operator_authorized` and the routes: the lemmas on the guard.
use Prim.Native.String.{◌++◌}
use text.Mathlib.TextLemmas.{nil-append, cons-append}
use remote_agent_connector.Prelude.{
  String, Bool, true, false, some, ◌==◌, ◌≡◌, ◌≢◌, sym, ap, ◌∙◌, arith, eq_iff, Option-cases,
  Bool-cases, inl, inr,
}
use remote_agent_connector.Prelude.Texts.{after}
use remote_agent_connector.Relay.{ok, Result-cases}
use remote_agent_connector.Service.{App, Env}
use remote_agent_connector.Delegation.{Codec}
use remote_agent_connector.Server.{ServerConfig, compare_digest}
use remote_agent_connector.Server.Operator.{
  relay_error_contract_route, get_relay_ca, post_certificate, issue_enrollment, revoke_device,
  rename_device, delete_device, list_devices, list_agents, cancel_request, operator_audit, Route,
  get_errors, post_enrollment, post_revoke, put_device, delete_device_route, get_devices,
  get_agents, post_cancel, get_audit, serve,
}
use remote_agent_connector.Server.Operator.Guard.{
  Response, answer, refusal, uncaught, operator_authorized, as_operator, contract_refusal,
}
use remote_agent_connector.Server.Operator.CertificateRoutes.{
  relay_ca_publication, issue_relay_certificate, Certificates,
}

after_lem : (p s t : String) → after p s ≡ some t → s ≡ p ++ t
unfolding after
after_lem String.[] s t h = ground (arith, h) ∙ sym (nil-append t)
after_lem (String.◌∷◌ c p) String.[] t h = absurd (ground (arith, h))
after_lem (String.◌∷◌ c p) (String.◌∷◌ d s) t h =
    elim (Bool-cases (String.◌∷◌ c "" == String.◌∷◌ d "")) [
      | inr e ↦ absurd (ground (arith, h, e))
      | inl e ↦
          let same : String.◌∷◌ c "" ≡ String.◌∷◌ d "" =
            ground (arith, e, eq_iff (String.◌∷◌ c "") (String.◌∷◌ d "")) in
          let rest : s ≡ p ++ t = after_lem p s t (ground (arith, h, e)) in
          cc (same, rest, cons-append c "" s, cons-append d "" s, nil-append s, cons-append c p t)
    ]

-- A header is accepted only if it is the operator's token as a bearer token.
authorized_bearer :
    (cfg : ServerConfig) (header : String)
    → operator_authorized cfg header ≡ ok true
    → header ≡ "Bearer " ++ cfg.operator_bearer_token
unfolding operator_authorized compare_digest
authorized_bearer cfg header h = elim (Option-cases (after "Bearer " header)) [
  | inl e ↦ absurd (ground (arith, h, e))
  | inr (token, e) ↦
      let same : token ≡ cfg.operator_bearer_token =
        ground (arith, h, e, eq_iff token cfg.operator_bearer_token) in
      after_lem "Bearer " header token e ∙ ap (λ x. "Bearer " ++ x) same
]

-- A response that carries what was asked for.
abbrev pub is_answer {ℓ} : {A : Type ℓ} → Response A → Bool
is_answer (answer status a) = true
is_answer (refusal status code) = false
is_answer (contract_refusal status contract code message) = false
is_answer (uncaught e) = false

as_operator-refused {ℓ} :
    {A : Type ℓ} (cfg : ServerConfig) (header : String) (handler : App → Response A × App) (s : App)
    → header ≢ "Bearer " ++ cfg.operator_bearer_token
    → ((as_operator cfg header handler s).1 ≡ s)
      × (is_answer (as_operator cfg header handler s).0 ≡ false)
unfolding as_operator
as_operator-refused cfg header handler s ne = elim (Result-cases (operator_authorized cfg header)) [
  | inr (e, p) ↦ (ground (arith, p), ground (arith, p))
  | inl (true, p) ↦ absurd (ne (authorized_bearer cfg header p))
  | inl (false, p) ↦ (ground (arith, p), ground (arith, p))
]

-- On every route behind the guard, a request whose header is not the operator's token as a bearer
-- token changes nothing and gets nothing: neither tokens, certificates, devices, agents nor audit events.
pub serve-refused :
    (codec : Codec) (certificates : Certificates) (env : Env) (cfg : ServerConfig) (header : String)
    (r : Route) (s : App)
    → header ≢ "Bearer " ++ cfg.operator_bearer_token
    → ((serve codec certificates env cfg header r s).1 ≡ s)
      × (is_answer (serve codec certificates env cfg header r s).0 ≡ false)
unfolding serve relay_error_contract_route relay_ca_publication issue_relay_certificate
    issue_enrollment revoke_device rename_device delete_device list_devices list_agents
    cancel_request operator_audit
serve-refused codec certificates env cfg header get_errors s ne =
    as_operator-refused cfg header _ s ne
serve-refused codec certificates env cfg header get_relay_ca s ne =
    as_operator-refused cfg header _ s ne
serve-refused codec certificates env cfg header (post_certificate body) s ne =
    as_operator-refused cfg header _ s ne
serve-refused codec certificates env cfg header (post_enrollment body now drawn) s ne =
    as_operator-refused cfg header _ s ne
serve-refused codec certificates env cfg header (post_revoke c now) s ne =
    as_operator-refused cfg header _ s ne
serve-refused codec certificates env cfg header (put_device c l now) s ne =
    as_operator-refused cfg header _ s ne
serve-refused codec certificates env cfg header (delete_device_route c now) s ne =
    as_operator-refused cfg header _ s ne
serve-refused codec certificates env cfg header (get_devices now) s ne =
    as_operator-refused cfg header _ s ne
serve-refused codec certificates env cfg header (get_agents now) s ne =
    as_operator-refused cfg header _ s ne
serve-refused codec certificates env cfg header (post_cancel c r now) s ne =
    as_operator-refused cfg header _ s ne
serve-refused codec certificates env cfg header (get_audit limit) s ne =
    as_operator-refused cfg header _ s ne
