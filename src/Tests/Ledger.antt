-- ===== src/Tests/Ledger.antt =====
-- A history of the store, and claims of one key.
use remote_agent_connector.Prelude.{true, false, none, some, List, [], ◌∷◌, ◌≡◌, refl}
use remote_agent_connector.Prelude.Json.{obj, end, null}
use remote_agent_connector.Store.{Store, empty}
use remote_agent_connector.Store.Valid.{IsValid}
use remote_agent_connector.Store.Ops.{run, run-IsValid}
use remote_agent_connector.Store.Requests.{
  RequestKey, request_row, claim_request, pending_call, replay, new, conflict,
}
use remote_agent_connector.Store.Ledger.{Call, claim, complete, view, run_store, run_ledger}
use remote_agent_connector.Store.Ledger.Refine.{Shows, run_store_lem}
use remote_agent_connector.Tests.Fleet.{program, noon, arrivals}

run-IsValid_example : IsValid (run (λ s. s) (λ j. j) arrivals empty)
run-IsValid_example = run-IsValid (λ s. s) (λ j. j) arrivals

abbrev key : RequestKey
key = record { connector_id = "laptop"; client_id = "hub"; idempotency_key = "k1" }

abbrev other : RequestKey
other = record { connector_id = "laptop"; client_id = "cli"; idempotency_key = "k1" }

abbrev claimed : Store
claimed = (claim_request key "r1" "files.write" "digest" noon empty).1

unclaimed : request_row key empty ≡ none
unfolding program
unclaimed = refl

abbrev calls : List Call
calls =
    claim key "r1" "files.write" "digest" noon
    ∷ claim key "r2" "files.write" "digest" noon
    ∷ complete key true (obj end) noon
    ∷ claim key "r3" "files.write" "digest" noon
    ∷ complete key false null noon
    ∷ claim other "r4" "files.write" "other" noon
    ∷ claim key "r5" "files.write" "other" noon
    ∷ []

run_store_lem_example :
    ((run_store calls empty).0 ≡ (run_ledger calls (λ k. none)).0)
    × Shows (run_store calls empty).1 (run_ledger calls (λ k. none)).1
unfolding view program
run_store_lem_example = run_store_lem calls empty (λ k. none) (λ k. refl)

-- The answers: claimed, pending, replayed, claimed by another client, in conflict.
answers :
    (run_ledger calls (λ k. none)).0
    ≡ some new ∷ some pending_call ∷ some (replay (obj end)) ∷ some new ∷ some conflict ∷ []
unfolding run_ledger
answers = refl
