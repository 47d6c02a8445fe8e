-- ===== src/Store/Ledger/Refine.antt =====
-- remote_agent_connector/store.py, `claim_request` and `complete_request`: the lemmas that relate
-- the rows to the ledger.
use remote_agent_connector.Prelude.{
  String, Bool, true, false, some, List, [], ◌∷◌, ◌≡◌, refl, subst, arith, eq_iff, eq_refl,
  if◌then◌else◌, Option-cases, Bool-cases, inl, inr,
}
use remote_agent_connector.Prelude.Json.{Json}
use remote_agent_connector.Prelude.Table.{first_sound, first-append}
use remote_agent_connector.Store.{Store, RequestRow, completed, failed, Datetime}
use remote_agent_connector.Store.Requests.{
  RequestKey, has_key, request_row, claim_request, claimed_row, complete_request, open_claim,
  close_claim,
}
use remote_agent_connector.Store.Idempotency.{request_row-claim, after_complete, claim-fresh}
use remote_agent_connector.Store.Ledger.{
  Ledger, Call, claim, complete, same, claim_entry, settle_entry, settled, entry, view, run_store,
  run_ledger,
}

-- The ledger says of each key what the store's row says.
abbrev pub Shows : Store → Ledger → Type 0
Shows s l = (k : RequestKey) → view s k ≡ l k

same-eq : (k k' : RequestKey) → same k k' ≡ true → k ≡ k'
unfolding same
same-eq k k' h =
    let c : k.connector_id ≡ k'.connector_id =
      ground (arith, h, eq_iff k.connector_id k'.connector_id) in
    let n : k.client_id ≡ k'.client_id = ground (arith, h, eq_iff k.client_id k'.client_id) in
    let i : k.idempotency_key ≡ k'.idempotency_key =
      ground (arith, h, eq_iff k.idempotency_key k'.idempotency_key) in
    λ j. record { connector_id = c j; client_id = n j; idempotency_key = i j }

has_key-same : (k k' : RequestKey) (r : RequestRow) → has_key k' r ≡ true → has_key k r ≡ same k' k
unfolding same
has_key-same k k' r h = ground (
  arith,
  h,
  eq_iff r.connector_id k'.connector_id,
  eq_iff r.client_id k'.client_id,
  eq_iff r.idempotency_key k'.idempotency_key,
)

claim-answer :
    (k : RequestKey) (r tool digest : String) (now : Datetime) (s : Store) (l : Ledger)
    → Shows s l
    → (claim_request k r tool digest now s).0 ≡ some (claim_entry k r digest l).0
unfolding claim_request claim_entry view
claim-answer k r tool digest now s l h = elim (Option-cases (request_row k s)) [
  | inl e ↦ ground (arith, e, h k, claim-fresh k r tool digest now s e)
  | inr (row, e) ↦ ground (arith, e, h k)
]

-- A claim leaves the row of any other key.
claim_other :
    (k k' : RequestKey) (r tool digest : String) (now : Datetime) (s : Store)
    → same k k' ≡ false
    → request_row k' (claim_request k r tool digest now s).1 ≡ request_row k' s
unfolding claim_request request_row claimed_row same
claim_other k k' r tool digest now s ne =
    ground (arith, ne, first-append (has_key k') s.agent_requests (claimed_row k r tool digest now))

claimed-Shows :
    (k : RequestKey) (r tool digest : String) (now : Datetime) (s : Store) (l : Ledger)
    → Shows s l
    → view (claim_request k r tool digest now s).1 k ≡ (claim_entry k r digest l).1 k
unfolding claim_entry view entry claimed_row same
claimed-Shows k r tool digest now s l h = elim (Option-cases (request_row k s)) [
  | inl e ↦ ground (
    arith,
    e,
    h k,
    request_row-claim k r tool digest now s,
    eq_refl k.connector_id,
    eq_refl k.client_id,
    eq_refl k.idempotency_key,
  )
  | inr (row, e) ↦ ground (arith, e, h k, request_row-claim k r tool digest now s)
]

claim-Shows :
    (k : RequestKey) (r tool digest : String) (now : Datetime) (s : Store) (l : Ledger)
    → Shows s l
    → Shows (claim_request k r tool digest now s).1 (claim_entry k r digest l).1
unfolding claim_entry view
claim-Shows k r tool digest now s l h k' = elim (Bool-cases (same k k')) [
  | inl e ↦
      subst (λ x. view (claim_request k r tool digest now s).1 x ≡ (claim_entry k r digest l).1 x)
        (same-eq k k' e) (claimed-Shows k r tool digest now s l h)
  | inr e ↦ elim (Option-cases (request_row k s)) [
    | inl f ↦ ground (arith, e, f, h k, h k', claim_other k k' r tool digest now s e)
    | inr (row, f) ↦ ground (arith, e, f, h k, h k', claim_other k k' r tool digest now s e)
  ]
]

request_row-has_key :
    (k : RequestKey) (s : Store) (row : RequestRow)
    → request_row k s ≡ some row
    → has_key k row ≡ true
unfolding request_row
request_row-has_key k s row e = first_sound (has_key k) s.agent_requests row e

entry_complete :
    (k k' : RequestKey) (is_success : Bool) (v : Json) (now : Datetime) (r : RequestRow)
    → has_key k r ≡ same k' k
    → entry (
        if open_claim k r
        then close_claim (if is_success then completed else failed) v now r
        else r)
      ≡ (if same k' k then settled v (entry r) else entry r)
unfolding entry open_claim close_claim settled
entry_complete k k' true v now r h = ground (arith, h)
entry_complete k k' false v now r h = ground (arith, h)

complete-Shows :
    (k : RequestKey) (is_success : Bool) (v : Json) (now : Datetime) (s : Store) (l : Ledger)
    → Shows s l
    → Shows
        (complete_request k (if is_success then completed else failed) v now s)
        (settle_entry k v l)
unfolding settle_entry view
complete-Shows k is_success v now s l h k' = elim (Option-cases (request_row k' s)) [
  | inl e ↦
      ground
        (arith, e, h k', after_complete k k' (if is_success then completed else failed) v now s)
  | inr (row, e) ↦ ground (
    arith,
    e,
    h k',
    after_complete k k' (if is_success then completed else failed) v now s,
    entry_complete k k' is_success v now row
        (has_key-same k k' row (request_row-has_key k' s row e)),
  )
]

-- In any history of claims and completions, from any store, the claims are answered as the ledger
-- answers them, and the store goes on showing what the ledger holds. The ledger keeps of a key only
-- its owner, its digest and its first outcome.
pub run_store_lem :
    (calls : List Call) (s : Store) (l : Ledger)
    → Shows s l
    → ((run_store calls s).0 ≡ (run_ledger calls l).0)
      × Shows (run_store calls s).1 (run_ledger calls l).1
unfolding run_store run_ledger
run_store_lem [] s l h = (refl, h)
run_store_lem (claim k r tool digest now ∷ calls) s l h =
    let (same_answers, shows) =
      run_store_lem calls (claim_request k r tool digest now s).1 (claim_entry k r digest l).1
        (claim-Shows k r tool digest now s l h) in
    (ground (arith, claim-answer k r tool digest now s l h, same_answers), shows)
run_store_lem (complete k is_success v now ∷ calls) s l h =
    run_store_lem calls (complete_request k (if is_success then completed else failed) v now s)
      (settle_entry k v l) (complete-Shows k is_success v now s l h)
