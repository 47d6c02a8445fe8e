-- ===== src/Relay/Response.antt =====
-- remote_agent_connector/relay.py: the check of a frame's keys, and the response of a device.
-- `text_of` is Python's `str` on a value that is not a text.
use remote_agent_connector.Prelude.{
  ℕ, String, Bool, true, ◌&&◌, ◌||◌, not, none, some, List, [], ◌∷◌, contains, if◌then◌else◌,
}
use remote_agent_connector.Prelude.Dict
use remote_agent_connector.Prelude.Json.{
  or_empty, item, Json, str, obj, Fields, end, field, has_field, merge, equals_one, equals_text,
  is_hashable,
}
use remote_agent_connector.Relay.{
  resolved, is_done, Relay, update, protocol_error, type_error, Result, ok, err,
}

has_all : List String → Fields → Bool
has_all [] value = true
has_all (k ∷ rest) value = has_field k value && has_all rest value

only_from : List String → Fields → Bool
only_from allowed end = true
only_from allowed (field k v rest) = contains k allowed && only_from allowed rest

-- `_require_keys`, with the allowed keys (the required and the optional ones) as one list; `false`
-- is the `ProtocolError`.
unfoldable pub require_keys : Fields → List String → List String → Bool
unfolding has_all only_from
require_keys value required allowed = has_all required value && only_from allowed value

abbrev pub response_keys : List String
response_keys = "v" ∷ "type" ∷ "request_id" ∷ "tool" ∷ "connector_id" ∷ "status" ∷ "result" ∷ []

module _ (text_of : Json → String) where
  -- `str(message.get("request_id") or "")`.
  unfoldable pub request_text : Fields → String
  unfolding or_empty item
  request_text message = or_empty text_of (item "request_id" message)

  -- The dictionary that the caller of the command gets.
  unfoldable pub ok_result : Json → Fields
  ok_result (obj payload) = merge (field "code" (str "ok") end) payload
  ok_result payload = field "code" (str "ok") (field "result" payload end)

  unfoldable pub error_result : Json → Fields
  error_result payload = field "code" (str "device_error") (field "error" payload end)

  unfoldable pub response_result : Fields → Fields
  unfolding ok_result error_result item equals_text
  response_result message =
      if equals_text "ok" (item "status" message)
      then ok_result (item "result" message)
      else error_result (item "result" message)

  -- The checks on the status, and the result.
  unfoldable pub settle_future : ℕ → Fields → Relay → Result (Unit {0}) × Relay
  settle_future future message r =
      if not (is_hashable (item "status" message))
      then (err type_error, r)
      else if not
          (equals_text "ok" (item "status" message) || equals_text "error" (item "status" message))
      then (err (protocol_error "relay response status is invalid"), r)
      else (
        ok tt,
        record r { futures = update r.futures future (resolved (response_result message)) },
      )

  -- The future that a response is for.
  unfoldable pub response_target : ℕ → Fields → Relay → Result ℕ
  response_target session message r =
      if not (require_keys message response_keys response_keys)
      then err (protocol_error "relay message contains unsupported fields")
      else if not (equals_one (item "v" message))
          || not (equals_text (r.objects session).connector_id (item "connector_id" message))
      then err (protocol_error "relay response is unsupported")
      else elim (Dict.get (request_text message) (r.objects session).pending) [
        | none ↦ err (protocol_error "relay response has no matching request")
        | some future ↦
            if is_done (r.futures future)
            then err (protocol_error "relay response has no matching request")
            else ok future
      ]

  unfoldable pub receive_response : ℕ → Fields → Relay → Result (Unit {0}) × Relay
  receive_response session message r = elim (response_target session message r) [
    | err e ↦ (err e, r)
    | ok future ↦ settle_future future message r
  ]
