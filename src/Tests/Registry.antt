-- ===== src/Tests/Registry.antt =====
-- A response, a diagnostic and the profiles.
use remote_agent_connector.Prelude.{
  ℕ, String, true, false, some, [], ◌∷◌, ◌≡◌, refl, arith, contains,
}
use remote_agent_connector.Prelude.Dict.{get}
use remote_agent_connector.Prelude.Int.{pos}
use remote_agent_connector.Prelude.Json.{Json, Fields, field, end, str, int, obj}
use remote_agent_connector.Protocol.Profiles.{full_agent, mutating_relay_tools}
use remote_agent_connector.Errors.{
  RelayErrorCode, value, relay_diagnostics, relay_diagnostic, raw, Stage,
}
use remote_agent_connector.Errors.Closed.{diagnostic-value}
use remote_agent_connector.Relay.{Relay, resolved, is_done, update, ok}
use remote_agent_connector.Relay.Registry.{register, remove}
use remote_agent_connector.Relay.Response.{receive_response, request_text, response_result}
use remote_agent_connector.Relay.Futures.{futures_Kept, receive_response_lem}
use remote_agent_connector.Tests.Fleet.{program, relay, session}

-- Session 0 waits for `r1` with future 0; session 2 is the laptop's next connection.
abbrev busy : Relay
busy = record relay {
  objects =
      update (update relay.objects 0 (record (relay.objects 0) { pending = ("r1", 0) ∷ [] })) 2
        (session "laptop" "one" full_agent);
}

abbrev text_of : Json → String
text_of v = "1"

abbrev response : Fields
response = field "v" (int (pos 1)) (
    field "type" (str "response") (
      field "request_id" (str "r1") (
        field "tool" (str "files.write") (
          field "connector_id" (str "laptop")
            (field "status" (str "ok") (field "result" (obj end) end))))))

abbrev answered : Relay
answered = (receive_response text_of 0 response busy).1

response_accepted : receive_response text_of 0 response busy ≡ (ok tt, answered)
unfolding program
response_accepted = refl

receive_response_lem_example :
    (f : ℕ) × (get (request_text text_of response) (busy.objects 0).pending ≡ some f)
    × (is_done (busy.futures f) ≡ false)
    × (answered ≡ record busy {
      futures = update busy.futures f (resolved (response_result text_of response));
    })
receive_response_lem_example =
    receive_response_lem text_of 0 response busy answered response_accepted

future_answered : is_done (answered.futures 0) ≡ true
unfolding program
future_answered = refl

futures_Kept_example :
    ((register 2 answered).futures 0 ≡ answered.futures 0)
    × ((remove 2 answered).1.futures 0 ≡ answered.futures 0)
    × ((receive_response text_of 2 response answered).1.futures 0 ≡ answered.futures 0)
futures_Kept_example = futures_Kept text_of 2 response answered 0 future_answered

diagnostic-value_example :
    ((relay_diagnostic (raw "device_revoked") (some Stage.session)).code ≡ "device_revoked")
    × ((relay_diagnostic (raw "device_revoked") (some Stage.session)).message
        ≡ "This device has been revoked.")
    × ((relay_diagnostic (raw "device_revoked") (some Stage.session)).retryable ≡ false)
unfolding value relay_diagnostics
diagnostic-value_example =
    diagnostic-value RelayErrorCode.device_revoked (some Stage.session) (ground arith)

write_mutates : contains "files.write" mutating_relay_tools ≡ true
unfolding program
write_mutates = refl
