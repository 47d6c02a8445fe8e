-- ===== src/Relay/Futures.antt =====
-- remote_agent_connector/relay.py: the lemmas on the registry, the responses and the futures.
use remote_agent_connector.Prelude.{
  ℕ, String, true, false, some, [], ◌∷◌, ◌≡◌, ◌≢◌, refl, ap, ◌∙◌, ◌⊎◌, arith, eq_refl,
  if◌then◌else◌, Option-cases, Bool-cases, inl, inr,
}
use remote_agent_connector.Prelude.Dict.{Dict, get, get-set}
use remote_agent_connector.Prelude.Table.{All}
use remote_agent_connector.Prelude.Json.{Json, Fields}
use remote_agent_connector.Relay.{
  Future, resolved, failed, is_done, Relay, update, Exc, Result, ok, err,
}
use remote_agent_connector.Relay.Registry.{fail_all, register, is_current, remove, get_exact}
use remote_agent_connector.Relay.Response.{
  receive_response, response_target, settle_future, request_text, response_result,
}

-- A done future is never changed.
abbrev Kept : (ℕ → Future) → (ℕ → Future) → Type 0
Kept before after = (f : ℕ) → is_done (before f) ≡ true → after f ≡ before f

fail_all-Kept : (pending : Dict ℕ) (futures : ℕ → Future) → Kept futures (fail_all pending futures)
unfolding fail_all
fail_all-Kept [] futures f h = refl
fail_all-Kept ((k, g) ∷ rest) futures f h = elim (Bool-cases (is_done (futures g))) [
  | inl t ↦ ground (arith, t, h, fail_all-Kept rest futures f h)
  | inr t ↦ ground (arith, t, h, fail_all-Kept rest (update futures g (failed "device_offline")) f)
]

-- Every future of the dictionary is done afterwards.
fail_all_done :
    (pending : Dict ℕ) (futures : ℕ → Future)
    → All (λ (e : String × ℕ). is_done (fail_all pending futures e.1) ≡ true) pending
unfolding fail_all
fail_all_done [] futures = tt
fail_all_done ((k, g) ∷ rest) futures =
    let next : ℕ → Future =
      if is_done (futures g) then futures else update futures g (failed "device_offline") in
    (
      elim (Bool-cases (is_done (futures g))) [
        | inl t ↦ ground (arith, t, fail_all-Kept rest futures g)
        | inr t ↦
            ground (arith, t, fail_all-Kept rest (update futures g (failed "device_offline")) g)
      ],
      fail_all_done rest next,
    )

-- After a session is registered, commands to its connector and instance are routed to it.
pub get_exact-register :
    (session : ℕ) (r : Relay)
    → get_exact
        (r.objects session).connector_id
        (r.objects session).instance_id
        (register session r)
      ≡ some session
unfolding get_exact register
get_exact-register session r =
    elim (Option-cases (get (r.objects session).connector_id r.sessions)) [
      | inl e ↦ ground (
        arith,
        e,
        eq_refl (r.objects session).connector_id,
        eq_refl (r.objects session).instance_id,
        get-set (r.objects session).connector_id (r.objects session).connector_id session
            r.sessions,
      )
      | inr (old, e) ↦ ground (
        arith,
        e,
        eq_refl (r.objects session).connector_id,
        eq_refl (r.objects session).instance_id,
        get-set (r.objects session).connector_id (r.objects session).connector_id session
            r.sessions,
      )
    ]

-- When a session is replaced, every command that waits on the old one is done at once.
pub register_fails_pending :
    (session old : ℕ) (r : Relay)
    → get (r.objects session).connector_id r.sessions ≡ some old
    → All
        (λ (e : String × ℕ). is_done ((register session r).futures e.1) ≡ true)
        (r.objects old).pending
unfolding register
register_fails_pending session old r found =
    rw (found, register) (fail_all_done (r.objects old).pending r.futures)

sessions-register :
    (session : ℕ) (r : Relay)
    → get (r.objects session).connector_id (register session r).sessions ≡ some session
unfolding register
sessions-register session r = ground (
  arith,
  eq_refl (r.objects session).connector_id,
  get-set (r.objects session).connector_id (r.objects session).connector_id session r.sessions,
)

connector-register :
    (session x : ℕ) (r : Relay)
    → ((register session r).objects x).connector_id ≡ (r.objects x).connector_id
unfolding register
connector-register session x r = ground arith

-- The teardown of a session that was replaced removes nothing: its successor stays registered.
pub remove-register :
    (old session : ℕ) (r : Relay)
    → (r.objects old).connector_id ≡ (r.objects session).connector_id
    → old ≢ session
    → ((remove old (register session r)).0 ≡ false)
      × (get (r.objects session).connector_id (remove old (register session r)).1.sessions
          ≡ some session)
unfolding remove
remove-register old session r same ne =
    let found = sessions-register session r in
    let mine = connector-register session old r ∙ same in
    let other : is_current old (register session r) ≡ false =
      unfold is_current in
      ground (arith, ne, ap (λ c. get c (register session r).sessions) mine, found) in
    (rw other, rw other found)

target_waits :
    (text_of : Json → String) (session : ℕ) (message : Fields) (r : Relay) (f : ℕ)
    → response_target text_of session message r ≡ ok f
    → (get (request_text text_of message) (r.objects session).pending ≡ some f)
      × (is_done (r.futures f) ≡ false)
unfolding response_target
target_waits text_of session message r f h =
    elim (Option-cases (get (request_text text_of message) (r.objects session).pending)) [
      | inl e ↦ absurd (ground arith)
      | inr (g, e) ↦ (ground arith, ground arith)
    ]

settle_future-Kept :
    (text_of : Json → String) (f g : ℕ) (message : Fields) (r : Relay)
    → f ≢ g
    → (settle_future text_of g message r).1.futures f ≡ r.futures f
unfolding settle_future
settle_future-Kept text_of f g message r ne = ground (arith, ne)

target-cases : (x : Result ℕ) → ((e : Exc) × (x ≡ err e)) ⊎ ((g : ℕ) × (x ≡ ok g))
target-cases (ok g) = inr (g, refl)
target-cases (err e) = inl (e, refl)

response_Kept :
    (text_of : Json → String) (session : ℕ) (message : Fields) (r : Relay) (f : ℕ)
    → is_done (r.futures f) ≡ true
    → (receive_response text_of session message r).1.futures f ≡ r.futures f
unfolding receive_response
response_Kept text_of session message r f h =
    elim (target-cases (response_target text_of session message r)) [
      | inl (e, refused) ↦ rw (refused, receive_response)
      | inr (g, t) ↦
          rw (t, receive_response)
            (settle_future-Kept text_of f g message r (λ p. cc (
              (target_waits text_of session message r g t).1,
              ap (λ x. is_done (r.futures x)) p,
              h,
            )))
    ]

-- Neither registering nor removing a session nor receiving a response changes a future that is done.
pub futures_Kept :
    (text_of : Json → String) (session : ℕ) (message : Fields) (r : Relay) (f : ℕ)
    → is_done (r.futures f) ≡ true
    → ((register session r).futures f ≡ r.futures f)
      × ((remove session r).1.futures f ≡ r.futures f)
      × ((receive_response text_of session message r).1.futures f ≡ r.futures f)
unfolding register remove
futures_Kept text_of session message r f h = (
  elim (Option-cases (get (r.objects session).connector_id r.sessions)) [
    | inl e ↦ ground (arith, e)
    | inr (old, e) ↦ ground (arith, e, fail_all-Kept (r.objects old).pending r.futures f h)
  ],
  ground (arith, fail_all-Kept (r.objects session).pending r.futures f h),
  response_Kept text_of session message r f h,
)

settled :
    (text_of : Json → String) (g : ℕ) (message : Fields) (r r' : Relay)
    → settle_future text_of g message r ≡ (ok tt, r')
    → r' ≡ record r { futures = update r.futures g (resolved (response_result text_of message)) }
unfolding settle_future
settled text_of g message r r' h = ground arith

-- A response is accepted only for a command that waits on this session under the id that it names.
-- It answers that command, and changes nothing else: no other future, no session.
pub receive_response_lem :
    (text_of : Json → String) (session : ℕ) (message : Fields) (r r' : Relay)
    → receive_response text_of session message r ≡ (ok tt, r')
    → (f : ℕ) × (get (request_text text_of message) (r.objects session).pending ≡ some f)
      × (is_done (r.futures f) ≡ false)
      × (r'
          ≡ record r { futures = update r.futures f (resolved (response_result text_of message)) })
unfolding receive_response
receive_response_lem text_of session message r r' h =
    elim (target-cases (response_target text_of session message r)) [
      | inl (e, refused) ↦ absurd (ground arith)
      | inr (g, t) ↦
          let (found, waits) = target_waits text_of session message r g t in
          (g, found, waits, settled text_of g message r r' (ground (arith, t)))
    ]
