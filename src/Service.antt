-- ===== src/Service.antt =====
-- remote_agent_connector/service.py: the service's state, what it takes from outside, and the
-- actions that its methods are made of.
pub mod Enrollment
pub mod Devices
pub mod Collision
pub mod Checks
pub mod Commands
pub mod Identity
pub mod Cancel
pub mod Connection
use remote_agent_connector.Prelude.{
  ℕ, ◌-◌, ◌*◌, ◌≡◌, refl, ◌⊎◌, inl, inr, arith, String, Bool, true, false, Option, none, some, List,
  [], ◌∷◌, length,
}
use remote_agent_connector.Prelude.Json.{Json}
use remote_agent_connector.Protocol.Profiles.{instance_stale_seconds}
use remote_agent_connector.Store.{Store, Datetime, microseconds}
use remote_agent_connector.Store.Audit.{Event, append_audit}
use remote_agent_connector.Relay.{Relay, Exc, agent_error, protocol_error, Result, ok, err}

-- What is not in this repository, or is drawn at random.
pub record Env : Type 0 where
  -- `hashlib.sha256(…).hexdigest()` of a text
  pub sha256 : String → String
  -- `json.dumps` with sorted keys, and the bytes of `json.dumps` in the value's own order
  pub dumps : Json → String
  pub encoded_size : Json → ℕ
  -- `str` of a value that is not a text
  pub text_of : Json → String
  -- `str(uuid.UUID(…))`, if it is one
  pub uuid : String → Option String
  -- `verify_ed25519` of a public key, a payload and a signature
  pub verify : String → String → String → Bool
  -- `public_key_fingerprint`
  pub fingerprint : String → String
  -- `redact_audit_value`
  pub redact : Json → Json
  -- the id of the next audit event
  pub event_id : ℕ → String

pub record Config : Type 0 where
  pub request_timeout_seconds : ℕ
  pub heartbeat_timeout_seconds : ℕ

-- The key of a mutating command in flight.
pub record GuardKey : Type 0 where
  pub connector_id : String
  pub tool : String
  pub digest : String

-- An entry of `_in_flight`.
pub record Guard : Type 0 where
  pub key : GuardKey
  pub request_id : String

pub record App : Type 0 where
  pub store : Store
  pub relay : Relay
  pub has_registry : Bool
  pub in_flight : List Guard
  -- the identity of the next future
  pub next_future : ℕ

-- A method changes the state also where it raises.
abbrev pub Exec {ℓ} : Type ℓ → Type ℓ
Exec A = App → Result A × App

abbrev pub continue {ℓ} : {A B : Type ℓ} → Result A × App → (A → Exec B) → Result B × App
continue (ok a, s) f = f a s
continue (err e, s) f = (err e, s)

infixl 5 ◌>>=◌ ◌>>◌
abbrev pub ◌>>=◌ {ℓ} : {A B : Type ℓ} → Exec A → (A → Exec B) → Exec B
◌>>=◌ m f s = continue (m s) f

abbrev pub ◌>>◌ : {B : Type 0} → Exec (Unit {0}) → Exec B → Exec B
m >> k = m >>= λ _. k

abbrev pub pure {ℓ} : {A : Type ℓ} → A → Exec A
pure a s = (ok a, s)

abbrev pub raise {ℓ} : {A : Type ℓ} → Exc → Exec A
raise e s = (err e, s)

abbrev pub ensure : Bool → Exc → Exec (Unit {0})
ensure true e s = (ok tt, s)
ensure false e s = (err e, s)

abbrev pub require {ℓ} : {A : Type ℓ} → Option A → Exc → Exec A
require none e s = (err e, s)
require (some a) e s = (ok a, s)

-- A call of a method of the store.
abbrev pub on_store {ℓ} : {A : Type ℓ} → (Store → A × Store) → Exec A
on_store f s = let (a, t) = f s.store in (ok a, record s { store = t })

abbrev pub gets {ℓ} : {A : Type ℓ} → (App → A) → Exec A
gets f s = (ok (f s), s)

-- `self.store.append_audit(…)`.
unfoldable pub audit : Env → Event → Datetime → Exec (Unit {0})
audit env e now s = (
  ok tt,
  record s {
    store =
        append_audit env.redact e now (env.event_id (length s.store.agent_audit_events)) s.store;
  },
)

-- `_fresh_after`.
unfoldable pub fresh_after : Config → Datetime → Datetime
unfolding instance_stale_seconds
fresh_after cfg now = now - instance_stale_seconds cfg.heartbeat_timeout_seconds * microseconds

-- Every run of an action returns or raises.
pub Exec-cases {ℓ} :
    {A : Type ℓ} (x : Result A × App)
    → ((a : A) × (t : App) × (x ≡ (ok a, t))) ⊎ ((e : Exc) × (t : App) × (x ≡ (err e, t)))
Exec-cases (ok a, t) = inl (a, t, refl)
Exec-cases (err e, t) = inr (e, t, refl)

-- Inversion of a bind that returned.
pub continue-eq-ok {ℓ} :
    {A B : Type ℓ} (x : Result A × App) (f : A → Exec B) {b : B} {s : App}
    → continue x f ≡ (ok b, s)
    → (a : A) × (t : App) × (x ≡ (ok a, t)) × (f a t ≡ (ok b, s))
continue-eq-ok (ok a, t) f h = (a, t, refl, h)
continue-eq-ok (err e, t) f h = absurd (ground arith)
