-- ===== src/Service/Cancel/Answered.antt =====
-- remote_agent_connector/service.py, `cancel_request`: the lemma on its effect.
use remote_agent_connector.Prelude.{
  ℕ, String, true, none, some, ◌≡◌, ◌≢◌, arith, Option-cases, inl, inr,
}
use remote_agent_connector.Prelude.Dict
use remote_agent_connector.Protocol.Ids.{parse_connector_id}
use remote_agent_connector.Store.{InstanceRow, Datetime}
use remote_agent_connector.Relay.{ok, is_done}
use remote_agent_connector.Relay.Registry.{get_exact}
use remote_agent_connector.Service.{Env, Config, App, audit, Exec-cases}
use remote_agent_connector.Service.Checks.{live_session, relay_session}
use remote_agent_connector.Service.Commands.Admission.{live_session_lem}
use remote_agent_connector.Service.Cancel.{cancel_request, resolve_cancelled}

-- A cancellation that returns parsed its two arguments as the connector and the request, resolved the
-- connector to an instance, and found that request waiting on the session that is registered for the
-- instance. Its future is done afterwards, every other future is as before, and so is a future that
-- was done before.
pub cancel_request_lem :
    (env : Env) (cfg : Config) (c r connector request : String) (now : Datetime) (s s' : App)
    → cancel_request env cfg c r now s ≡ (ok (connector, request), s')
    → (parse_connector_id c ≡ some connector)
      × (env.uuid r ≡ some request)
      × (i : InstanceRow) × (session : ℕ) × (future : ℕ) × ((t : App) × (relay_session cfg connector
              none now s
            ≡ (ok (some i), t)))
      × (get_exact connector i.instance_id s.relay ≡ some session)
      × (Dict.get request (s.relay.objects session).pending ≡ some future)
      × (is_done (s'.relay.futures future) ≡ true)
      × ((f : ℕ) → f ≢ future → s'.relay.futures f ≡ s.relay.futures f)
      × (is_done (s.relay.futures future) ≡ true → s'.relay.futures future ≡ s.relay.futures future)
unfolding cancel_request resolve_cancelled audit
cancel_request_lem env cfg c r connector request now s s' h =
    elim (Option-cases (parse_connector_id c)) [
      | inl n ↦ absurd (ground (arith, h, n))
      | inr (id, parsed) ↦ elim (Option-cases (env.uuid r)) [
        | inl n ↦ absurd (ground (arith, h, parsed, n))
        | inr (u, named) ↦ elim (Exec-cases (live_session cfg id none now s)) [
          | inr (x, t, p) ↦ absurd (ground (arith, h, parsed, named, p))
          | inl ((row, session), t, p) ↦
              let ((t', resolved), held, quiet) =
                live_session_lem cfg id none now s t row session p in
              elim (Option-cases (Dict.get u (t.relay.objects session).pending)) [
                | inl n ↦ absurd (ground (arith, h, parsed, named, p, n))
                | inr (future, waits) ↦ (
                  ground (arith, h, parsed, named, p, waits),
                  ground (arith, h, parsed, named, p, waits),
                  row,
                  session,
                  future,
                  (t', ground (arith, h, parsed, named, p, waits, resolved)),
                  ground (arith, h, parsed, named, p, waits, held),
                  ground (arith, h, parsed, named, p, waits, quiet),
                  ground (arith, h, parsed, named, p, waits, quiet),
                  λ f ne. ground (arith, h, parsed, named, p, waits, quiet, ne),
                  λ done. ground (arith, h, parsed, named, p, waits, quiet, done),
                )
              ]
        ]
      ]
    ]
