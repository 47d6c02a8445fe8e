-- ===== src/Store/Ledger.antt =====
-- remote_agent_connector/store.py, `claim_request` and `complete_request`: what the idempotency
-- ledger promises, without rows and their order.
pub mod Refine
use remote_agent_connector.Prelude.{
  String, Bool, ◌&&◌, not, Option, none, some, List, [], ◌∷◌, ◌==◌, coalesce, if◌then◌else◌,
}
use mathlib.Core.Option
use remote_agent_connector.Prelude.Json.{Json, obj, end}
use remote_agent_connector.Store.{Store, RequestRow, completed, failed, is_pending, Datetime}
use remote_agent_connector.Store.Requests.{
  RequestKey, Claim, new, conflict, pending_call, replay, request_row, claim_request,
  complete_request,
}

-- The call that owns a key, the digest of its request, and its outcome once there is one.
pub record Entry : Type 0 where
  pub owner : String
  pub digest : String
  pub outcome : Option Json

abbrev pub Ledger : Type 0
Ledger = RequestKey → Option Entry

unfoldable pub same : RequestKey → RequestKey → Bool
same k k' =
    (k.connector_id == k'.connector_id)
    && (k.client_id == k'.client_id)
    && (k.idempotency_key == k'.idempotency_key)

unfoldable pub verdict : Entry → String → String → Claim
verdict e owner digest =
    if e.owner == owner
    then new
    else if not (e.digest == digest)
    then conflict
    else elim e.outcome [ none ↦ pending_call | some v ↦ replay v ]

unfoldable pub claim_entry : RequestKey → String → String → Ledger → Claim × Ledger
unfolding same verdict
claim_entry k owner digest l = elim (l k) [
  | some e ↦ (verdict e owner digest, l)
  | none ↦ (
    new,
    λ k'.
        if same k k'
        then some (record { owner = owner; digest = digest; outcome = none })
        else l k',
  )
]

unfoldable pub settled : Json → Entry → Entry
settled v e = record e { outcome = some (coalesce e.outcome v) }

-- Only the first outcome of an entry counts.
unfoldable pub settle_entry : RequestKey → Json → Ledger → Ledger
unfolding same settled
settle_entry k v l k' = if same k' k then Option.map (settled v) (l k') else l k'

-- The entry that a row stands for.
unfoldable pub entry : RequestRow → Entry
entry r = record {
  owner = r.request_id;
  digest = r.request_digest;
  outcome = if is_pending r.status then none else some (coalesce r.result_json (obj end));
}

unfoldable pub view : Store → Ledger
unfolding entry
view s k = Option.map entry (request_row k s)

-- A call of the ledger. The service completes a key as completed or as failed.
pub data Call : Type 0 where
  claim : RequestKey → (request_id tool_name digest : String) → Datetime → Call
  complete : RequestKey → (is_success : Bool) → Json → Datetime → Call

-- The answers of the claims of a history, and the store after it.
unfoldable pub run_store : List Call → Store → List (Option Claim) × Store
run_store [] s = ([], s)
run_store (claim k r tool digest now ∷ calls) s =
    let (c, s') = claim_request k r tool digest now s in
    let (cs, s'') = run_store calls s' in (c ∷ cs, s'')
run_store (complete k is_success v now ∷ calls) s =
    run_store calls (complete_request k (if is_success then completed else failed) v now s)

unfoldable pub run_ledger : List Call → Ledger → List (Option Claim) × Ledger
unfolding claim_entry settle_entry
run_ledger [] l = ([], l)
run_ledger (claim k r tool digest now ∷ calls) l =
    let (c, l') = claim_entry k r digest l in
    let (cs, l'') = run_ledger calls l' in (some c ∷ cs, l'')
run_ledger (complete k is_success v now ∷ calls) l = run_ledger calls (settle_entry k v l)
