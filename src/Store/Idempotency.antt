-- ===== src/Store/Idempotency.antt =====
-- remote_agent_connector/store.py, `claim_request` and `complete_request`: the lemmas on the
-- idempotency ledger.
use remote_agent_connector.Prelude.{
  String, true, false, none, some, ◌==◌, ◌≡◌, ◌≢◌, refl, sym, arith, eq_iff, eq_refl, coalesce,
  if◌then◌else◌, Option-cases, inl, inr,
}
use remote_agent_connector.Prelude.Json.{Json, obj, end}
use mathlib.Core.Option
use remote_agent_connector.Prelude.Table.{first, first_sound, first-append, first-update_where}
use remote_agent_connector.Store.{Store, RequestRow, RequestStatus, is_pending, Datetime}
use remote_agent_connector.Store.Requests.{
  RequestKey, has_key, request_row, new, conflict, pending_call, replay, claim_request, claimed_row,
  complete_request, open_claim, close_claim,
}

has_key-claimed_row :
    (k : RequestKey) (r tool digest : String) (now : Datetime)
    → has_key k (claimed_row k r tool digest now) ≡ true
unfolding claimed_row
has_key-claimed_row k r tool digest now =
    ground (arith, eq_refl k.connector_id, eq_refl k.client_id, eq_refl k.idempotency_key)

-- The row of a key after a claim: the one that was there, or the claim's.
pub request_row-claim :
    (k : RequestKey) (r tool digest : String) (now : Datetime) (s : Store)
    → request_row k (claim_request k r tool digest now s).1
      ≡ elim (request_row k s) [ none ↦ some (claimed_row k r tool digest now) | some x ↦ some x ]
unfolding claim_request request_row
request_row-claim k r tool digest now s = ground (
  arith,
  has_key-claimed_row k r tool digest now,
  first-append (has_key k) s.agent_requests (claimed_row k r tool digest now),
)

-- The first claim of a key is new and leaves it pending.
pub claim-fresh :
    (k : RequestKey) (r tool digest : String) (now : Datetime) (s : Store)
    → request_row k s ≡ none
    → ((claim_request k r tool digest now s).0 ≡ some new)
      × (request_row k (claim_request k r tool digest now s).1
          ≡ some (claimed_row k r tool digest now))
unfolding claim_request
claim-fresh k r tool digest now s absent = (
  ground (arith, absent, request_row-claim k r tool digest now s, eq_refl r),
  ground (arith, absent, request_row-claim k r tool digest now s),
)

-- After a claim that is new, the key's row is the claiming call's.
pub claim_new :
    (k : RequestKey) (r tool digest : String) (now : Datetime) (s : Store)
    → (claim_request k r tool digest now s).0 ≡ some new
    → (row : RequestRow) × (request_row k (claim_request k r tool digest now s).1 ≡ some row)
      × (row.request_id ≡ r)
unfolding claim_request
claim_new k r tool digest now s h =
    elim (Option-cases (request_row k (claim_request k r tool digest now s).1)) [
      | inl e ↦ absurd (ground (arith, h, e))
      | inr (row, e) ↦ (row, e, ground (arith, h, e, eq_iff row.request_id r))
    ]

-- A claim of a key that is taken, by a call with another request id, changes nothing.
pub claim_taken :
    (k : RequestKey) (r tool digest : String) (now : Datetime) (s : Store) (row : RequestRow)
    → request_row k s ≡ some row
    → row.request_id ≢ r
    → claim_request k r tool digest now s ≡ (
      some (
          if row.request_digest == digest
          then (if is_pending row.status
              then pending_call
              else replay (coalesce row.result_json (obj end)))
          else conflict),
      s,
    )
unfolding claim_request
claim_taken k r tool digest now s row found ne = ground (arith, found, eq_iff row.request_id r, ne)

-- While a claim is pending, a call with the same key and another request id is refused: as pending
-- for the same request, as a conflict for any other. It changes nothing.
pub claim-claim :
    (k : RequestKey) (r r' tool tool' digest digest' : String) (now now' : Datetime) (s : Store)
    → request_row k s ≡ none
    → r ≢ r'
    → claim_request k r' tool' digest' now' (claim_request k r tool digest now s).1 ≡ (
      some (if digest == digest' then pending_call else conflict),
      (claim_request k r tool digest now s).1,
    )
claim-claim k r r' tool tool' digest digest' now now' s absent ne =
    let taken =
      claim_taken k r' tool' digest' now' (claim_request k r tool digest now s).1
        (claimed_row k r tool digest now) (claim-fresh k r tool digest now s absent).1 in
    unfold claimed_row in taken ne

-- The row of any key after a completion of a key.
pub after_complete :
    (k k' : RequestKey) (status : RequestStatus) (v : Json) (now : Datetime) (s : Store)
    → request_row k' (complete_request k status v now s)
      ≡ Option.map
          (λ r. if open_claim k r then close_claim status v now r else r)
          (request_row k' s)
unfolding complete_request request_row
after_complete k k' status v now s =
    first-update_where (has_key k') (open_claim k) (close_claim status v now) s.agent_requests
      (λ r. refl)

-- The row of a key after its completion.
pub request_row_complete :
    (k : RequestKey) (status : RequestStatus) (v : Json) (now : Datetime) (s : Store)
    (row : RequestRow)
    → request_row k s ≡ some row
    → request_row k (complete_request k status v now s)
      ≡ some (if is_pending row.status then close_claim status v now row else row)
unfolding request_row open_claim
request_row_complete k status v now s row found = ground (
  arith,
  found,
  first_sound (has_key k) s.agent_requests row found,
  after_complete k k status v now s,
)

-- Once a claim was completed, a call with the same key, the same request and another request id is
-- answered with the recorded result; with another request, with a conflict. It changes nothing.
pub claim_complete :
    (k : RequestKey) (r r' tool tool' digest digest' : String) (status : RequestStatus) (v : Json)
    (now done now' : Datetime) (s : Store)
    → request_row k s ≡ none
    → is_pending status ≡ false
    → r ≢ r'
    → claim_request k r' tool' digest' now'
        (complete_request k status v done (claim_request k r tool digest now s).1)
      ≡ (
        some (if digest == digest' then replay v else conflict),
        complete_request k status v done (claim_request k r tool digest now s).1,
      )
unfolding close_claim claimed_row
claim_complete k r r' tool tool' digest digest' status v now done now' s absent final ne =
    let s1 = (claim_request k r tool digest now s).1 in
    let row = claimed_row k r tool digest now in
    let closed =
      request_row_complete k status v done s1 row (claim-fresh k r tool digest now s absent).1 in
    ground (
      arith,
      final,
      claim_taken k r' tool' digest' now' (complete_request k status v done s1)
          (close_claim status v done row) closed ne,
    )

-- After a completion of a key with a status that is not pending, a second completion of the key
-- leaves its row as it is.
pub complete_complete :
    (k : RequestKey) (status status' : RequestStatus) (v v' : Json) (now now' : Datetime)
    (s : Store)
    → is_pending status ≡ false
    → request_row k (complete_request k status' v' now' (complete_request k status v now s))
      ≡ request_row k (complete_request k status v now s)
complete_complete k status status' v v' now now' s final = elim (Option-cases (request_row k s)) [
  | inl e ↦ ground (
    arith,
    e,
    after_complete k k status v now s,
    after_complete k k status' v' now' (complete_request k status v now s),
  )
  | inr (row, e) ↦
      let closed = request_row_complete k status v now s row e in
      rw closed (
        rw (request_row_complete k status' v' now' (complete_request k status v now s) _ closed)
          (unfold close_claim in ground (arith, final)))
]

-- The key of another client is not this key.
other_client :
    (k k' : RequestKey) (row : RequestRow)
    → k.client_id ≢ k'.client_id
    → has_key k row ≡ true
    → has_key k' row ≡ false
other_client k k' row ne h =
    ground (arith, h, eq_iff row.client_id k.client_id, eq_iff row.client_id k'.client_id)

-- What one client claims or completes never changes the row that another client's key reads.
pub clients_isolated :
    (k k' : RequestKey) (r tool digest : String) (status : RequestStatus) (v : Json)
    (now : Datetime) (s : Store)
    → k.client_id ≢ k'.client_id
    → (request_row k' (claim_request k r tool digest now s).1 ≡ request_row k' s)
      × (request_row k' (complete_request k status v now s) ≡ request_row k' s)
unfolding claim_request request_row open_claim
clients_isolated k k' r tool digest status v now s ne = (
  ground (
    arith,
    first-append (has_key k') s.agent_requests (claimed_row k r tool digest now),
    other_client k k' (claimed_row k r tool digest now) ne
        (has_key-claimed_row k r tool digest now),
  ),
  elim (Option-cases (first (has_key k') s.agent_requests)) [
    | inl e ↦ ground (arith, e, after_complete k k' status v now s)
    | inr (row, e) ↦ ground (
      arith,
      e,
      after_complete k k' status v now s,
      other_client k' k row (λ p. ne (sym p)) (first_sound (has_key k') s.agent_requests row e),
    )
  ],
)
