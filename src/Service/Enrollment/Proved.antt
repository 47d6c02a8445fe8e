-- ===== src/Service/Enrollment/Proved.antt =====
-- remote_agent_connector/service.py, `complete_enrollment`: the lemmas on an enrollment that returns.
use remote_agent_connector.Prelude.{
  String, true, none, some, ◌≡◌, refl, arith, eq_iff, eq_refl, Option-cases, Bool-cases, inl, inr,
}
use remote_agent_connector.Prelude.Table.{first-append}
use remote_agent_connector.Protocol.Ids.{parse_connector_id, validate_platform}
use remote_agent_connector.Protocol.Profiles.{profile_of}
use remote_agent_connector.Store.{Store, TokenRow, DeviceRow, Datetime, is_enrolled}
use remote_agent_connector.Store.Tokens.{token_row, consume_enrollment_token_detailed}
use remote_agent_connector.Store.Challenges.{consume_challenge, challenge_row}
use remote_agent_connector.Store.Devices.{get_device, enroll_device, enrolled_row, has_connector}
use remote_agent_connector.Store.Audit.{append_audit}
use remote_agent_connector.Relay.{ok}
use remote_agent_connector.Service.{Env, App, audit, Exec-cases}
use remote_agent_connector.Service.Enrollment.{
  EnrollRequest, Enrolled, complete_enrollment, enrollment_payload, accepted_token, absent,
}

devices-consume :
    (h : String → String) (raw c : String) (now : Datetime) (s : Store)
    → (consume_enrollment_token_detailed h raw c now s).1.remote_agent_devices
      ≡ s.remote_agent_devices
unfolding consume_enrollment_token_detailed
devices-consume h raw c now s = ground arith

pub devices-consume_challenge :
    (h : String → String) (id text : String) (now : Datetime) (s : Store)
    → (consume_challenge h id text now s).1.remote_agent_devices ≡ s.remote_agent_devices
unfolding consume_challenge
devices-consume_challenge h id text now s = ground arith

-- The row that an accepted token had.
accepted-token :
    (h : String → String) (raw c : String) (now : Datetime) (s : Store) (t s' : App)
    (row : TokenRow)
    → accepted_token (consume_enrollment_token_detailed h raw c now s).0 t ≡ (ok row, s')
    → (token_row h raw s ≡ some row) × (row.connector_id ≡ c) × (s' ≡ t)
unfolding accepted_token consume_enrollment_token_detailed
accepted-token h raw c now s t s' row e = elim (Option-cases (token_row h raw s)) [
  | inl p ↦ absurd (ground (arith, e, p))
  | inr (found, p) ↦ (
    ground (arith, e, p),
    ground (arith, e, p, eq_iff found.connector_id c),
    ground (arith, e, p),
  )
]

get-enroll :
    (c key label platform : String) (profile : _) (now : Datetime) (s : Store)
    → get_device c s ≡ none
    → get_device c (enroll_device c key label profile now platform s).1
      ≡ some (enrolled_row c key label profile now platform)
unfolding enroll_device get_device
get-enroll c key label platform profile now s e = ground (
  arith,
  e,
  eq_refl c,
  first-append (has_connector c) s.remote_agent_devices
      (enrolled_row c key label profile now platform),
)

challenge-consume :
    (h : String → String) (raw c id text : String) (now : Datetime) (s : Store)
    → (consume_challenge h id text now (consume_enrollment_token_detailed h raw c now s).1).0
      ≡ (consume_challenge h id text now s).0
unfolding consume_enrollment_token_detailed consume_challenge challenge_row
challenge-consume h raw c id text now s = ground arith

absent_before :
    (env : Env) (raw c id text : String) (now : Datetime) (s : Store) (c' : String)
    → c ≡ c'
    → get_device c
        (consume_challenge env.sha256 id text now
          (consume_enrollment_token_detailed env.sha256 raw c now s).1).1
      ≡ none
    → get_device c' s ≡ none
unfolding get_device
absent_before env raw c id text now s c' same e = ground (
  arith,
  e,
  same,
  devices-consume env.sha256 raw c now s,
  devices-consume_challenge env.sha256 id text now
      (consume_enrollment_token_detailed env.sha256 raw c now s).1,
)

-- A device that enrols presented a token that was issued for its connector id and a challenge that is
-- fresh, signed the enrollment payload with the key that it enrols, and was not known before. It is
-- enrolled afterwards, with that key and with the capability profile that the token names.
pub complete_enrollment_lem :
    (env : Env) (q : EnrollRequest) (now : Datetime) (s s' : App) (e : Enrolled)
    → complete_enrollment env q now s ≡ (ok e, s')
    → (parse_connector_id q.connector_id ≡ some e.connector_id)
      × ((token : TokenRow) × (token_row env.sha256 q.enrollment_token s.store ≡ some token)
          × (token.connector_id ≡ e.connector_id)
          × (profile_of token.capability_profile ≡ some e.capability_profile))
      × ((consume_challenge env.sha256 q.challenge_id q.challenge now s.store).0 ≡ true)
      × ((payload : String) × (enrollment_payload env q.challenge_id q.challenge e.connector_id
              q.enrollment_token q.public_key
            ≡ some payload)
          × (env.verify q.public_key payload q.signature ≡ true))
      × (get_device e.connector_id s.store ≡ none)
      × ((d : DeviceRow) × (get_device e.connector_id s'.store ≡ some d)
          × (is_enrolled d.enrollment_state ≡ true)
          × (d.public_key ≡ q.public_key)
          × (d.capability_profile ≡ e.capability_profile))
unfolding complete_enrollment absent audit append_audit enrolled_row get_device
complete_enrollment_lem env q now s s' e h =
    elim (Option-cases (parse_connector_id q.connector_id)) [
      | inl n ↦ absurd (ground (arith, h, n))
      | inr (c, parsed) ↦ elim (Option-cases (validate_platform q.platform)) [
        | inl n ↦ absurd (ground (arith, h, parsed, n))
        | inr (platform, fits) ↦
            let consumed =
              consume_enrollment_token_detailed env.sha256 q.enrollment_token c now s.store in
            elim (Exec-cases (accepted_token consumed.0 (record s { store = consumed.1 }))) [
              | inr (x, t, refused) ↦ absurd (ground (arith, h, parsed, fits, refused))
              | inl (token, t, taken) ↦
                  let (found, mine, state) =
                    accepted-token env.sha256 q.enrollment_token c now s.store _ t token taken in
                  let fresh =
                    consume_challenge env.sha256 q.challenge_id q.challenge now consumed.1 in
                  elim (Bool-cases fresh.0) [
                    | inr stale ↦ absurd (ground (arith, h, parsed, fits, taken, state, stale))
                    | inl new ↦
                        elim (Option-cases (
                          enrollment_payload env q.challenge_id q.challenge c q.enrollment_token
                            q.public_key)) [
                              | inl n ↦
                                  absurd (ground (arith, h, parsed, fits, taken, state, new, n))
                              | inr (payload, made) ↦
                                  elim (Bool-cases (env.verify q.public_key payload q.signature)) [
                                    | inr forged ↦ absurd (
                                        ground
                                          (arith, h, parsed, fits, taken, state, new, made, forged))
                                    | inl signed ↦ elim (Option-cases (get_device c fresh.1)) [
                                      | inr (d, known) ↦ absurd (
                                          ground (
                                            arith, h, parsed, fits, taken, state, new, made, signed,
                                            known,
                                          ))
                                      | inl unknown ↦
                                          elim (Option-cases
                                            (profile_of token.capability_profile)) [
                                              | inl n ↦ absurd (
                                                  ground (
                                                    arith, h, parsed, fits, taken, state, new, made,
                                                    signed, unknown, n,
                                                  ))
                                              | inr (profile, listed) ↦
                                                  let here =
                                                    get-enroll c q.public_key token.display_label
                                                      platform profile now fresh.1 unknown in
                                                  let id : c ≡ e.connector_id = ground (
                                                    arith, h, parsed, fits, taken, state, new, made,
                                                    signed, unknown, listed,
                                                  ) in
                                                  (
                                                    ground (
                                                      arith, h, parsed, fits, taken, state, new,
                                                      made, signed, unknown, listed,
                                                    ),
                                                    (
                                                      token,
                                                      found,
                                                      ground (
                                                        arith, h, parsed, fits, taken, state, new,
                                                        made, signed, unknown, listed, mine,
                                                      ),
                                                      ground (
                                                        arith, h, parsed, fits, taken, state, new,
                                                        made, signed, unknown, listed,
                                                      ),
                                                    ),
                                                    ground (
                                                      arith,
                                                      new,
                                                      challenge-consume env.sha256
                                                          q.enrollment_token c q.challenge_id
                                                          q.challenge now s.store,
                                                    ),
                                                    (payload, ground (arith, id, made), signed),
                                                    absent_before env q.enrollment_token c
                                                        q.challenge_id q.challenge now s.store
                                                        e.connector_id id unknown,
                                                    (
                                                      enrolled_row c q.public_key
                                                          token.display_label profile now platform,
                                                      ground (
                                                        arith, h, parsed, fits, taken, state, new,
                                                        made, signed, unknown, listed, here,
                                                      ),
                                                      refl,
                                                      refl,
                                                      ground (
                                                        arith, h, parsed, fits, taken, state, new,
                                                        made, signed, unknown, listed,
                                                      ),
                                                    ),
                                                  )
                                            ]
                                    ]
                                  ]
                            ]
                  ]
            ]
      ]
    ]
