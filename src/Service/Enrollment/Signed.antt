-- ===== src/Service/Enrollment/Signed.antt =====
-- remote_agent_connector/service.py, `authenticate_relay`: the lemma on a connection that is
-- authenticated.
use remote_agent_connector.Prelude.{
  ℕ, String, true, some, refl, ◌⊎◌, ◌≡◌, ap, sym, ◌∙◌, subst, arith, Option-cases, Bool-cases, inl,
  inr,
}
use remote_agent_connector.Prelude.Table.{first}
use remote_agent_connector.Prelude.Int.{ℤ, pos, negsuc}
use remote_agent_connector.Protocol.Ids.{parse_connector_id, parse_instance_id}
use remote_agent_connector.Store.{DeviceRow, InstanceRow, Datetime, is_enrolled}
use remote_agent_connector.Store.Challenges.{consume_challenge}
use remote_agent_connector.Store.Devices.{get_device, has_connector}
use remote_agent_connector.Store.Instances.{upsert_presence, has_instance}
use remote_agent_connector.Store.Presence.{recorded}
use remote_agent_connector.Store.Audit.{append_audit}
use remote_agent_connector.Relay.{ok}
use remote_agent_connector.Service.{Env, App, audit}
use remote_agent_connector.Service.Enrollment.{
  AuthRequest, Authenticated, authenticate_relay, relay_auth_payload, written_epoch,
}
use remote_agent_connector.Service.Enrollment.Proved.{devices-consume_challenge}

ℤ-cases : (z : ℤ) → ((n : ℕ) × (z ≡ pos n)) ⊎ ((n : ℕ) × (z ≡ negsuc n))
ℤ-cases (pos n) = inl (n, refl)
ℤ-cases (negsuc n) = inr (n, refl)

-- A relay connection that is authenticated presented a fresh challenge and signed the authentication
-- payload with the key of the device that it names, which is enrolled. Its instance is on record
-- afterwards, for that device and with this connection's generation.
pub authenticate_relay_lem :
    (env : Env) (q : AuthRequest) (now : Datetime) (s s' : App) (a : Authenticated)
    → authenticate_relay env q now s ≡ (ok a, s')
    → (parse_connector_id q.connector_id ≡ some a.connector_id)
      × ((consume_challenge env.sha256 q.challenge_id q.challenge now s.store).0 ≡ true)
      × ((d : DeviceRow) × (get_device a.connector_id s.store ≡ some d)
          × (is_enrolled d.enrollment_state ≡ true)
          × ((payload : String) × (relay_auth_payload env q.challenge_id q.challenge a.connector_id
                  a.instance_id q.context_epoch
                ≡ some payload)
              × (env.verify d.public_key payload q.signature ≡ true)))
      × ((row : InstanceRow) × (first (has_instance a.instance_id) s'.store.live_instances
            ≡ some row)
          × (row.connection_generation ≡ q.connection_generation)
          × (row.connector_id ≡ a.connector_id))
unfolding authenticate_relay written_epoch audit append_audit
authenticate_relay_lem env q now s s' a h =
    elim (Option-cases (parse_connector_id q.connector_id)) [
      | inl n ↦ absurd (ground (arith, h, n))
      | inr (c, parsed) ↦ elim (Option-cases (parse_instance_id q.instance_id)) [
        | inl n ↦ absurd (ground (arith, h, parsed, n))
        | inr (i, named) ↦
            let fresh = consume_challenge env.sha256 q.challenge_id q.challenge now s.store in
            elim (Bool-cases fresh.0) [
              | inr stale ↦ absurd (ground (arith, h, parsed, named, stale))
              | inl new ↦ elim (Option-cases (get_device c fresh.1)) [
                | inl n ↦ absurd (ground (arith, h, parsed, named, new, n))
                | inr (d, known) ↦ elim (Bool-cases (is_enrolled d.enrollment_state)) [
                  | inr revoked ↦ absurd (ground (arith, h, parsed, named, new, known, revoked))
                  | inl live ↦
                      elim (Option-cases
                        (relay_auth_payload env q.challenge_id q.challenge c i q.context_epoch)) [
                          | inl n ↦ absurd (ground (arith, h, parsed, named, new, known, live, n))
                          | inr (payload, made) ↦
                              elim (Bool-cases (env.verify d.public_key payload q.signature)) [
                                | inr forged ↦ absurd (
                                    ground
                                      (arith, h, parsed, named, new, known, live, made, forged))
                                | inl signed ↦ elim (ℤ-cases q.context_epoch) [
                                  | inr (n, below) ↦ absurd (
                                      ground (
                                        arith, h, parsed, named, new, known, live, made, signed,
                                        below,
                                      ))
                                  | inl (epoch, whole) ↦
                                      let stored =
                                        upsert_presence c i q.connection_generation epoch
                                          q.capabilities now fresh.1 in
                                      elim (Bool-cases stored.0) [
                                        | inr refused ↦ absurd (
                                            ground (
                                              arith, h, parsed, named, new, known, live, made,
                                              signed, whole, refused,
                                            ))
                                        | inl granted ↦
                                            let (row, found, own, mine) =
                                              recorded c i q.connection_generation epoch
                                                q.capabilities now fresh.1 stored.1
                                                (ground (arith, granted)) in
                                            let id : c ≡ a.connector_id = ground (
                                              arith, h, parsed, named, new, known, live, made,
                                              signed, whole, granted,
                                            ) in
                                            let id' : i ≡ a.instance_id = ground (
                                              arith, h, parsed, named, new, known, live, made,
                                              signed, whole, granted,
                                            ) in
                                            let kept : get_device c fresh.1 ≡ get_device c s.store =
                                              unfold get_device in
                                              ap (first (has_connector c)) (
                                                devices-consume_challenge env.sha256 q.challenge_id
                                                  q.challenge now s.store) in
                                            (
                                              ground (arith, parsed, id),
                                              new,
                                              (
                                                d,
                                                subst (λ x. get_device x s.store ≡ some d) id
                                                    (sym kept ∙ known),
                                                live,
                                                (payload, ground (arith, made, id, id'), signed),
                                              ),
                                              (
                                                row,
                                                ground (
                                                  arith, h, parsed, named, new, known, live, made,
                                                  signed, whole, granted, found,
                                                ),
                                                own,
                                                mine ∙ id,
                                              ),
                                            )
                                      ]
                                ]
                              ]
                        ]
                ]
              ]
            ]
      ]
    ]
