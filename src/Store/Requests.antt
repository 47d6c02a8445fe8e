-- ===== src/Store/Requests.antt =====
-- remote_agent_connector/store.py: the idempotency ledger of device commands.
use remote_agent_connector.Prelude.{
  String, Bool, ◌&&◌, Option, none, some, [], ◌∷◌, ◌++◌, ◌==◌, not, coalesce, is_some,
  if◌then◌else◌,
}
use remote_agent_connector.Prelude.Json.{Json, obj, end}
use remote_agent_connector.Prelude.Table.{first, update_where}
use remote_agent_connector.Store.{
  Store, RequestRow, RequestStatus, pending, is_pending, Datetime, as_timestamp,
}

-- The primary key of a request: the device, the caller and the caller's key.
pub record RequestKey : Type 0 where
  pub connector_id : String
  pub client_id : String
  pub idempotency_key : String

abbrev pub has_key : RequestKey → RequestRow → Bool
has_key k r =
    (r.connector_id == k.connector_id)
    && (r.client_id == k.client_id)
    && (r.idempotency_key == k.idempotency_key)

unfoldable pub request_row : RequestKey → Store → Option RequestRow
request_row k s = first (has_key k) s.agent_requests

pub data Claim : Type 0 where
  new conflict pending_call : Claim
  replay : Json → Claim

-- What the code answers from the row that it reads back.
unfoldable pub answer : Option RequestRow → String → String → Option Claim
answer none request_id digest = none
answer (some row) request_id digest =
    if row.request_id == request_id
    then some new
    else if not (row.request_digest == digest)
    then some conflict
    else if is_pending row.status
    then some pending_call
    else some (replay (coalesce row.result_json (obj end)))

-- `INSERT OR IGNORE`.
unfoldable pub insert_or_ignore : RequestKey → RequestRow → Store → Store
unfolding request_row
insert_or_ignore k row s =
    if is_some (request_row k s)
    then s
    else record s { agent_requests = s.agent_requests ++ row ∷ [] }

-- The row that a claim inserts.
unfoldable pub claimed_row : RequestKey → String → String → String → Datetime → RequestRow
claimed_row k request_id tool_name digest now = record {
  connector_id = k.connector_id;
  client_id = k.client_id;
  idempotency_key = k.idempotency_key;
  request_id = request_id;
  tool_name = tool_name;
  request_digest = digest;
  status = pending;
  result_json = none;
  created_at = as_timestamp now;
  completed_at = none;
}

-- `none` is the `RuntimeError` of a claim that was not persisted.
unfoldable pub claim_request :
    RequestKey → String → String → String → Datetime → Store → Option Claim × Store
unfolding answer insert_or_ignore request_row claimed_row
claim_request k request_id tool_name digest now s =
    let s' : Store = insert_or_ignore k (claimed_row k request_id tool_name digest now) s in
    (answer (request_row k s') request_id digest, s')

-- `WHERE connector_id = ? AND client_id = ? AND idempotency_key = ? AND status = 'pending'`.
unfoldable pub open_claim : RequestKey → RequestRow → Bool
open_claim k r = has_key k r && is_pending r.status

unfoldable pub close_claim : RequestStatus → Json → Datetime → RequestRow → RequestRow
close_claim status result now r = record r {
  status = status;
  result_json = some result;
  completed_at = some (as_timestamp now);
}

unfoldable pub complete_request : RequestKey → RequestStatus → Json → Datetime → Store → Store
unfolding open_claim close_claim
complete_request k status result now s = record s {
  agent_requests = update_where (open_claim k) (close_claim status result now) s.agent_requests;
}
