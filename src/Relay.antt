-- ===== src/Relay.antt =====
-- remote_agent_connector/relay.py: sessions, the registry of sessions and the futures that commands
-- wait on. Sessions and futures are shared objects: each has a number, its identity.
pub mod Registry
pub mod Response
pub mod Futures
use remote_agent_connector.Prelude.{
  ℕ, String, Bool, true, false, Option, none, some, List, [], ◌∷◌, eqb, if◌then◌else◌, ◌≡◌, refl,
  ◌⊎◌, inl, inr,
}
use remote_agent_connector.Prelude.Dict.{Dict}
use remote_agent_connector.Prelude.Json.{Fields}
use remote_agent_connector.Protocol.Profiles.{Profile}

-- An `asyncio.Future`: its result is a dictionary, its exception an `AgentError`.
pub data Future : Type 0 where
  waiting : Future
  resolved : Fields → Future
  failed : String → Future
  -- cancelled, by a wait that ended
  abandoned : Future

abbrev pub is_done : Future → Bool
is_done waiting = false
is_done abandoned = true
is_done (resolved v) = true
is_done (failed code) = true

pub record Session : Type 0 where
  pub connector_id : String
  pub instance_id : String
  pub context_epoch : ℕ
  pub connection_generation : String
  pub capabilities : List String
  pub capability_profile : Profile
  pub pending : Dict ℕ

pub record Relay : Type 0 where
  -- `_sessions` of the registry
  pub sessions : Dict ℕ
  pub objects : ℕ → Session
  pub futures : ℕ → Future

abbrev pub update {ℓ} : {A : Type ℓ} → (ℕ → A) → ℕ → A → ℕ → A
update f i v j = if eqb i j then v else f j

-- The exceptions that the relay and the service raise.
pub data Exc : Type 0 where
  agent_error : String → Exc
  protocol_error : String → Exc
  -- `AppAssertionError`
  assertion_error : String → Exc
  type_error : Exc
  -- `ToolError`
  tool_error : String → Exc
  runtime_error : Exc
  value_error : Exc
  key_error : Exc
  integrity_error : Exc
  cancelled_error : Exc

pub data Result {ℓ} (A : Type ℓ) : Type ℓ where
  ok : A → Result A
  err : Exc → Result A

pub Result-cases {ℓ} :
    {A : Type ℓ} (x : Result A) → ((a : A) × (x ≡ ok a)) ⊎ ((e : Exc) × (x ≡ err e))
Result-cases (ok a) = inl (a, refl)
Result-cases (err e) = inr (e, refl)
