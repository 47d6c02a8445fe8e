-- ===== src/Tests/Secrets.antt =====
-- A token and a challenge, used once and twice.
use remote_agent_connector.Prelude.{String, true, false, none, some, ◌≡◌, refl, arith}
use remote_agent_connector.Store.{Store, empty, TokenRow, as_timestamp, after_seconds}
use remote_agent_connector.Store.Tokens.{
  accepted, consumed, issued_token, issue_enrollment_token, consume_enrollment_token_detailed,
}
use remote_agent_connector.Store.Challenges.{Challenge, create_challenge, consume_challenge}
use remote_agent_connector.Store.SingleUse.{consume_twice, consume-issue, consume_challenge_twice}
use remote_agent_connector.Tests.Fleet.{program, noon}

abbrev hash : String → String
hash s = s

abbrev issued : Store
issued = (issue_enrollment_token hash "laptop" "read_only" "Laptop" 600 noon "secret" empty).1

abbrev token : TokenRow
token = issued_token hash "laptop" "read_only" "Laptop" 600 noon "secret"

abbrev used : Store
used = (consume_enrollment_token_detailed hash "secret" "laptop" noon issued).1

token_accepted :
    consume_enrollment_token_detailed hash "secret" "laptop" noon issued
    ≡ ((accepted, some token), used)
unfolding program
token_accepted = refl

token_issued :
    issue_enrollment_token hash "laptop" "read_only" "Laptop" 600 noon "secret" empty
    ≡ (some "secret", issued)
unfolding program
token_issued = refl

consume_twice_example :
    consume_enrollment_token_detailed hash "secret" "laptop" noon used ≡ ((consumed, none), used)
consume_twice_example =
    consume_twice hash "secret" "laptop" "laptop" noon noon issued used token token_accepted

consume-issue_example :
    (row : TokenRow) × ((consume_enrollment_token_detailed hash "secret" "laptop" noon issued).0
      ≡ (accepted, some row))
    × (row.capability_profile ≡ "read_only")
    × (row.display_label ≡ "Laptop")
consume-issue_example =
    consume-issue hash "laptop" "Laptop" "secret" "read_only" 600 noon noon empty issued tt
      token_issued (unfold as_timestamp after_seconds in ground arith)

abbrev challenge : Challenge
challenge = record { challenge_id = "c1"; challenge = "text" }

abbrev challenged : Store
challenged = (create_challenge hash 120 noon challenge empty).1

challenge_created : create_challenge hash 120 noon challenge empty ≡ (some challenge, challenged)
unfolding program
challenge_created = refl

abbrev answered : Store
answered = (consume_challenge hash "c1" "text" noon challenged).1

challenge_accepted : consume_challenge hash "c1" "text" noon challenged ≡ (true, answered)
unfolding program
challenge_accepted = refl

consume_challenge_twice_example :
    consume_challenge hash "c1" "text" noon answered ≡ (false, answered)
consume_challenge_twice_example =
    consume_challenge_twice hash "c1" "text" "text" noon noon challenged answered challenge_accepted
