-- ===== src/Service/Commands/Interleaving.antt =====
-- remote_agent_connector/service.py, `device_command`: the interleavings of device commands with each
-- other and with the rest of the connector, as a step relation.
use mathlib.Core.List.{append-nil}
use remote_agent_connector.Prelude.{
  String, Option, none, some, List, [], ◌∷◌, ◌++◌, ◌≡◌, refl, subst, ap, sym, ◌∙◌, arith,
  Bool-cases, inl, inr,
}
use remote_agent_connector.Prelude.Table.{first}
use remote_agent_connector.Store.{Store, Datetime}
use remote_agent_connector.Store.Requests.{
  RequestKey, Claim, new, conflict, pending_call, replay, claim_request,
}
use remote_agent_connector.Relay.{runtime_error, Result, ok, err}
use remote_agent_connector.Service.{
  Env, Config, App, GuardKey, Guard, continue, require, audit, Exec-cases,
}
use remote_agent_connector.Service.Commands.{
  Call, Dispatched, sent, replayed, Wake, answered, timed_out, broken, task_cancelled, dispatch,
  settle, claim_and_launch, launch, after_claim, release, finish, abandon, fail_request,
  request_key,
}
use remote_agent_connector.Service.Collision.{
  acquire_collision_guard, release_collision_guard, same_key, collision_key,
}
use remote_agent_connector.Service.Checks.{Command, admit, Admitted, request_digest}
use remote_agent_connector.Service.Commands.Guarded.{
  guard_of, guards, guards-append, Exclusive, Exclusive-append, delete_middle, in_flight-admit,
  in_flight-sent,
}

abbrev NotSent : Result Dispatched → Type 0
NotSent (ok (sent c)) = ⊥
NotSent (ok (replayed v)) = Unit
NotSent (err e) = Unit

launch_unsent :
    (env : Env) (c : Command) (key : RequestKey) (a : Admitted) (s : App)
    → NotSent (launch env c key a s).0
    → (launch env c key a s).1.in_flight ≡ s.in_flight
unfolding launch
launch_unsent env c key a s h =
    elim (Bool-cases
      (acquire_collision_guard (collision_key env a.connector_id c.tool c.arguments) a.request_id
        s.in_flight).0) [ inl free ↦ absurd (rw free at h) | inr busy ↦ rw busy ]

-- The claim's answer decides, and only a sent command adds to the guard.
claimed_unsent :
    (env : Env) (c : Command) (a : Admitted) (s : App) (claimed : Option Claim × Store)
    → let x : Result Dispatched × App =
        continue
          (require claimed.0 runtime_error (record s { store = claimed.1 }))
          (after_claim env c (request_key c a) a) in
      NotSent x.0 → x.1.in_flight ≡ s.in_flight
unfolding after_claim
claimed_unsent env c a s (some new, t) h =
    launch_unsent env c (request_key c a) a (record s { store = t }) h
claimed_unsent env c a s (some conflict, t) h = refl
claimed_unsent env c a s (some pending_call, t) h = refl
claimed_unsent env c a s (some (replay v), t) h = refl
claimed_unsent env c a s (none, t) h = refl

in_flight-unsent :
    (env : Env) (cfg : Config) (c : Command) (now : Datetime) (s : App)
    → NotSent (dispatch env cfg c now s).0
    → (dispatch env cfg c now s).1.in_flight ≡ s.in_flight
unfolding dispatch claim_and_launch
in_flight-unsent env cfg c now s h = elim (Exec-cases (admit env cfg c now s)) [
  | inr (e, t, refused) ↦
      rw (refused, dispatch)
        (ap (λ x. x.1.in_flight) (sym refused) ∙ in_flight-admit env cfg c now s)
  | inl (a, t, admitted) ↦
      rw (admitted, dispatch)
        (claimed_unsent env c a t
            (claim_request (request_key c a) a.request_id c.tool
              (request_digest env a.connector_id c.tool c.arguments a.row) now t.store)
            (rw (admitted, dispatch) at h)
          ∙ ap (λ x. x.1.in_flight) (sym admitted)
          ∙ in_flight-admit env cfg c now s)
]

-- Every way to end releases the command's guard.
in_flight-settle :
    (env : Env) (call : Call) (w : Wake) (now : Datetime) (s : App)
    → (settle env call w now s).1.in_flight ≡ release_collision_guard call.collision_key s.in_flight
unfolding settle finish release fail_request abandon audit
in_flight-settle env call (answered v) now s = ground arith
in_flight-settle env call timed_out now s = ground arith
in_flight-settle env call broken now s = refl
in_flight-settle env call task_cancelled now s = ground arith

-- The connector and the commands whose tasks wait.
pub record System : Type 0 where
  pub app : App
  pub live : List Call

-- A command is sent or refused, a waiting command ends, or another task runs: the relay, an operator,
-- a cancellation. Other tasks leave the guard alone, since only commands touch it.
pub data Step (env : Env) (cfg : Config) : System → System → Type 0 where
  send :
      (c : Command) (now : Datetime) (s : System) (app : App) (call : Call)
      → dispatch env cfg c now s.app ≡ (ok (sent call), app)
      → Step env cfg s (record { app = app; live = s.live ++ call ∷ [] })
  refuse :
      (c : Command) (now : Datetime) (s : System)
      → NotSent (dispatch env cfg c now s.app).0
      → Step env cfg s (record { app = (dispatch env cfg c now s.app).1; live = s.live })
  finish_call :
      (before after : List Call) (call : Call) (w : Wake) (now : Datetime) (s : System)
      → s.live ≡ before ++ call ∷ after
      → Step env cfg s (record { app = (settle env call w now s.app).1; live = before ++ after })
  other :
      (s : System) (app : App)
      → app.in_flight ≡ s.app.in_flight
      → Step env cfg s (record { app = app; live = s.live })

pub data Reach (env : Env) (cfg : Config) (s : System) : System → Type 0 where
  here : Reach env cfg s s
  next : {t u : System} → Reach env cfg s t → Step env cfg t u → Reach env cfg s u

pub record IsGuarded (s : System) : Type 0 where
  pub exact : s.app.in_flight ≡ guards s.live
  pub exclusive : Exclusive s.app.in_flight

guard-append :
    (k : Option GuardKey) (r : String) (held : List Guard)
    → ((g : GuardKey) → k ≡ some g → first (same_key g) held ≡ none)
    → Exclusive held
    → Exclusive (held ++ guard_of k r)
guard-append none r held free e = rw append-nil e
guard-append (some g) r held free e = Exclusive-append held _ e (free g refl)

send-IsGuarded :
    (env : Env) (cfg : Config) (c : Command) (now : Datetime) (s : System) (app : App) (call : Call)
    → dispatch env cfg c now s.app ≡ (ok (sent call), app)
    → IsGuarded s
    → IsGuarded (record { app = app; live = s.live ++ call ∷ [] })
send-IsGuarded env cfg c now s app call h g =
    let (held, free) = in_flight-sent env cfg c now s.app app call h in
    record {
      exact =
          held
          ∙ ap (λ gs. gs ++ guard_of call.collision_key call.request_id) g.exact
          ∙ sym (simp (guards-append, append-nil));
      exclusive =
          subst Exclusive (sym held)
            (guard-append call.collision_key call.request_id s.app.in_flight free g.exclusive);
    }

released :
    (k : Option GuardKey) (r : String) (gs hs : List Guard)
    → Exclusive (gs ++ (guard_of k r ++ hs))
    → (release_collision_guard k (gs ++ (guard_of k r ++ hs)) ≡ gs ++ hs) × Exclusive (gs ++ hs)
unfolding release_collision_guard
released none r gs hs e = (refl, e)
released (some g) r gs hs e = delete_middle gs hs _ e

finish-IsGuarded :
    (env : Env) (before after : List Call) (call : Call) (w : Wake) (now : Datetime) (s : System)
    → s.live ≡ before ++ call ∷ after
    → IsGuarded s
    → IsGuarded (record { app = (settle env call w now s.app).1; live = before ++ after })
finish-IsGuarded env before after call w now s h g =
    let split : s.app.in_flight
        ≡ guards before ++ (guard_of call.collision_key call.request_id ++ guards after) =
      g.exact ∙ ap guards h ∙ guards-append before (call ∷ after) in
    let (rest, ex) =
      released call.collision_key call.request_id (guards before) (guards after)
        (subst Exclusive split g.exclusive) in
    let after_it =
      in_flight-settle env call w now s.app
      ∙ ap (release_collision_guard call.collision_key) split
      ∙ rest in
    record {
      exact = after_it ∙ sym (guards-append before after);
      exclusive = subst Exclusive (sym after_it) ex;
    }

Step-IsGuarded :
    {env : Env} {cfg : Config} {s t : System} → Step env cfg s t → IsGuarded s → IsGuarded t
Step-IsGuarded {env} {cfg} (send c now s app call h) g = send-IsGuarded env cfg c now s app call h g
Step-IsGuarded {env} {cfg} (refuse c now s h) g =
    let quiet = in_flight-unsent env cfg c now s.app h in
    record { exact = quiet ∙ g.exact; exclusive = subst Exclusive (sym quiet) g.exclusive }
Step-IsGuarded {env} (finish_call before after call w now s h) g =
    finish-IsGuarded env before after call w now s h g
Step-IsGuarded (other s app h) g = record {
  exact = h ∙ g.exact;
  exclusive = subst Exclusive (sym h) g.exclusive;
}

-- In every state that interleaved commands reach from a guarded one, as an idle connector is, the
-- guard holds exactly the entries of the mutating commands that wait, and no two of those have the
-- same device, tool and arguments.
pub Reach-IsGuarded :
    {env : Env} {cfg : Config} {s t : System} → Reach env cfg s t → IsGuarded s → IsGuarded t
Reach-IsGuarded here g = g
Reach-IsGuarded (next r st) g = Step-IsGuarded st (Reach-IsGuarded r g)
