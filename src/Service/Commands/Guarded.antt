-- ===== src/Service/Commands/Guarded.antt =====
-- remote_agent_connector/service.py, `_in_flight`: the entries of the collision guard and the
-- commands that hold them.
use remote_agent_connector.Prelude.{
  String, true, false, Option, none, some, List, [], ◌∷◌, ◌++◌, ◌≡◌, refl, subst, ap, sym, ◌∙◌,
  arith, eq_iff, eq_refl, Option-cases, inl, inr,
}
use mathlib.Core.List.{append_assoc, append-nil}
use remote_agent_connector.Prelude.Table.{All, All-append, first, delete_where}
use remote_agent_connector.Protocol.Ids.{parse_connector_id}
use remote_agent_connector.Store.{Store, Datetime}
use remote_agent_connector.Store.Requests.{
  RequestKey, Claim, new, conflict, pending_call, replay, claim_request,
}
use remote_agent_connector.Relay.{runtime_error, ok}
use remote_agent_connector.Service.{
  Env, Config, App, GuardKey, Guard, continue, require, continue-eq-ok,
}
use remote_agent_connector.Service.Commands.{
  Call, sent, dispatch, claim_and_launch, launch, after_claim, request_key,
}
use remote_agent_connector.Service.Collision.{acquire_collision_guard, same_key, collision_key}
use remote_agent_connector.Service.Checks.{
  Command, admit, live_session, relay_session, Admitted, request_digest,
}

-- The guard entries of the commands in flight.
abbrev pub guard_of : Option GuardKey → String → List Guard
guard_of none request_id = []
guard_of (some k) request_id = record { key = k; request_id = request_id } ∷ []

abbrev pub guards : List Call → List Guard
guards [] = []
guards (c ∷ rest) = guard_of c.collision_key c.request_id ++ guards rest

-- No two entries have one key.
abbrev pub Exclusive : List Guard → Type 0
Exclusive [] = Unit
Exclusive (g ∷ rest) = All (λ h. same_key g.key h ≡ false) rest × Exclusive rest

same_key_sym : (a b : Guard) → same_key a.key b ≡ false → same_key b.key a ≡ false
same_key_sym a b h = ground (
  arith,
  h,
  eq_iff a.key.connector_id b.key.connector_id,
  eq_iff b.key.connector_id a.key.connector_id,
  eq_iff a.key.tool b.key.tool,
  eq_iff b.key.tool a.key.tool,
  eq_iff a.key.digest b.key.digest,
  eq_iff b.key.digest a.key.digest,
)

same_key_refl : (g : Guard) → same_key g.key g ≡ true
same_key_refl g =
    ground (arith, eq_refl g.key.connector_id, eq_refl g.key.tool, eq_refl g.key.digest)

pub Exclusive-append :
    (gs : List Guard) (g : Guard)
    → Exclusive gs
    → first (same_key g.key) gs ≡ none
    → Exclusive (gs ++ g ∷ [])
unfolding first
Exclusive-append [] g e h = (tt, tt)
Exclusive-append (x ∷ gs) g e h = (
  All-append (λ y. same_key x.key y ≡ false) gs g e.0 (same_key_sym g x (ground arith)),
  Exclusive-append gs g e.1 (ground arith),
)

delete_none :
    (k : GuardKey) (gs : List Guard)
    → All (λ h. same_key k h ≡ false) gs
    → delete_where (same_key k) gs ≡ gs
unfolding delete_where
delete_none k [] h = refl
delete_none k (x ∷ gs) h = rw (h.0, delete_none k gs h.1)

middle :
    (gs hs : List Guard) (x g : Guard)
    → All (λ h. same_key x.key h ≡ false) (gs ++ g ∷ hs)
    → (same_key x.key g ≡ false) × All (λ h. same_key x.key h ≡ false) (gs ++ hs)
middle [] hs x g h = (h.0, h.1)
middle (a ∷ gs) hs x g h = let (p, q) = middle gs hs x g h.1 in (p, (h.0, q))

-- An entry in the middle is the only one that its key deletes.
pub delete_middle :
    (gs hs : List Guard) (g : Guard)
    → Exclusive (gs ++ g ∷ hs)
    → (delete_where (same_key g.key) (gs ++ g ∷ hs) ≡ gs ++ hs) × Exclusive (gs ++ hs)
unfolding delete_where
delete_middle [] hs g e = (rw (same_key_refl g, delete_none g.key hs e.0), e.1)
delete_middle (x ∷ gs) hs g e =
    let (apart, others) = middle gs hs x g e.0 in
    let (rest, ex) = delete_middle gs hs g e.1 in (rw (same_key_sym x g apart, rest), (others, ex))

pub guards-append : (xs ys : List Call) → guards (xs ++ ys) ≡ guards xs ++ guards ys
guards-append [] ys = refl
guards-append (c ∷ xs) ys = rw (guards-append xs ys, append_assoc)

in_flight-relay_session :
    (cfg : Config) (c : String) (i : Option String) (now : Datetime) (s : App)
    → (relay_session cfg c i now s).1.in_flight ≡ s.in_flight
unfolding relay_session
in_flight-relay_session cfg c none now s = refl
in_flight-relay_session cfg c (some i) now s = ground arith

in_flight-live_session :
    (cfg : Config) (c : String) (i : Option String) (now : Datetime) (s : App)
    → (live_session cfg c i now s).1.in_flight ≡ s.in_flight
unfolding live_session
in_flight-live_session cfg c i now s = ground (arith, in_flight-relay_session cfg c i now s)

pub in_flight-admit :
    (env : Env) (cfg : Config) (c : Command) (now : Datetime) (s : App)
    → (admit env cfg c now s).1.in_flight ≡ s.in_flight
unfolding admit
in_flight-admit env cfg c now s = elim (Option-cases (parse_connector_id c.connector_id)) [
  | inl e ↦ ground (arith, e)
  | inr (connector_id, e) ↦
      ground (arith, e, in_flight-live_session cfg connector_id c.instance_id now s)
]

in_flight-launch :
    (env : Env) (c : Command) (key : RequestKey) (a : Admitted) (s s' : App) (call : Call)
    → launch env c key a s ≡ (ok (sent call), s')
    → (s'.in_flight ≡ s.in_flight ++ guard_of call.collision_key call.request_id)
      × ((k : GuardKey) → call.collision_key ≡ some k → first (same_key k) s.in_flight ≡ none)
unfolding launch acquire_collision_guard
in_flight-launch env c key a s s' call h =
    elim (Option-cases (collision_key env a.connector_id c.tool c.arguments)) [
      | inl e ↦ (ground (arith, e, append-nil s.in_flight), λ k p. ground (arith, e, p))
      | inr (g, e) ↦ elim (Option-cases (first (same_key g) s.in_flight)) [
        | inl free ↦ (ground (arith, e, free), λ k p. ground (arith, e, free, p))
        | inr (x, held) ↦ absurd (ground (arith, e, held))
      ]
    ]

-- A command is sent only on a new claim.
pub claim_and_launch-sent :
    (env : Env) (c : Command) (a : Admitted) (now : Datetime) (s s' : App) (call : Call)
    → claim_and_launch env c a now s ≡ (ok (sent call), s')
    → let claimed : Option Claim × Store =
        claim_request
          (request_key c a)
          a.request_id
          c.tool
          (request_digest env a.connector_id c.tool c.arguments a.row)
          now
          s.store in
      (claimed.0 ≡ some new)
      × (launch env c (request_key c a) a (record s { store = claimed.1 }) ≡ (ok (sent call), s'))
unfolding claim_and_launch after_claim
claim_and_launch-sent env c a now s s' call h =
    let claimed : Option Claim × Store =
      claim_request (request_key c a) a.request_id c.tool
        (request_digest env a.connector_id c.tool c.arguments a.row) now s.store in
    go claimed h
  where
    go :
        (claimed : Option Claim × Store)
        → continue
            (require claimed.0 runtime_error (record s { store = claimed.1 }))
            (after_claim env c (request_key c a) a)
          ≡ (ok (sent call), s')
        → (claimed.0 ≡ some new)
          × (launch env c (request_key c a) a (record s { store = claimed.1 })
              ≡ (ok (sent call), s'))
    go (some new, t) h = (refl, h)
    go (some conflict, t) h = absurd (ground arith)
    go (some pending_call, t) h = absurd (ground arith)
    go (some (replay v), t) h = absurd (ground arith)
    go (none, t) h = absurd (ground arith)

-- What a command that is sent adds to the guard, and that its key was free.
pub in_flight-sent :
    (env : Env) (cfg : Config) (c : Command) (now : Datetime) (s s' : App) (call : Call)
    → dispatch env cfg c now s ≡ (ok (sent call), s')
    → (s'.in_flight ≡ s.in_flight ++ guard_of call.collision_key call.request_id)
      × ((k : GuardKey) → call.collision_key ≡ some k → first (same_key k) s.in_flight ≡ none)
unfolding dispatch
in_flight-sent env cfg c now s s' call h =
    let (a, t, admitted, claimed) =
      continue-eq-ok (admit env cfg c now s) (λ a. claim_and_launch env c a now) h in
    let quiet : t.in_flight ≡ s.in_flight =
      ap (λ x. x.1.in_flight) (sym admitted) ∙ in_flight-admit env cfg c now s in
    let (_, launched) = claim_and_launch-sent env c a now t s' call claimed in
    subst
      (λ held.
        (s'.in_flight ≡ held ++ guard_of call.collision_key call.request_id)
        × ((k : GuardKey) → call.collision_key ≡ some k → first (same_key k) held ≡ none))
      quiet (in_flight-launch env c (request_key c a) a _ s' call launched)
