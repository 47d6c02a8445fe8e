-- ===== src/Delegation/Scopes.antt =====
-- remote_agent_connector/protocol.py: `normalize_scopes` and `validate_agent_scopes`.
use remote_agent_connector.Prelude.{
  String, Bool, true, ◌&&◌, List, [], ◌∷◌, ◌==◌, contains, if◌then◌else◌,
}
use remote_agent_connector.Prelude.Json.{
  Json, str, arr, obj, Items, nil, cons, Fields, end, field, is_truthy, or_empty,
}
use remote_agent_connector.Prelude.Texts.{strip, sorted, split}
use remote_agent_connector.Protocol.Ids.{scope_pattern}
use remote_agent_connector.Relay.{protocol_error, type_error, Result, ok, err}
use remote_agent_connector.Delegation.{◌>>=◌, ◌>>◌, guard}

abbrev pub agent_scopes : List String
agent_scopes =
    "agent:read" ∷ "agent:write" ∷ "agent:terminal" ∷ "agent:ssh" ∷ "agent:skills" ∷ "agent:mcp"
    ∷ "agent:control" ∷ []

unfoldable pub every : (String → Bool) → List String → Bool
every test [] = true
every test (x ∷ rest) = test x && every test rest

-- `str(scope or "").strip()`, without the empty ones.
unfoldable pub stripped : List String → List String
stripped [] = []
stripped (x ∷ rest) = let r = stripped rest in if strip x == "" then r else strip x ∷ r

unfoldable pub normalize_scopes : List String → Result (List String)
unfolding stripped every
normalize_scopes raw =
    let scopes = sorted (stripped raw) in
    elim scopes [
      | [] ↦ err (protocol_error "delegated scopes are invalid")
      | x ∷ rest ↦
          if every scope_pattern (x ∷ rest)
          then ok (x ∷ rest)
          else err (protocol_error "delegated scopes are invalid")
    ]

unfoldable pub validate_agent_scopes : List String → Result (List String)
unfolding every
validate_agent_scopes raw = do
  scopes ← normalize_scopes raw
  guard (every (λ s. contains s agent_scopes) scopes)
      (protocol_error "delegated agent scopes are invalid")
  ok scopes

keys : Fields → List String
keys end = []
keys (field k v rest) = k ∷ keys rest

-- The scopes that a value lists: a text by its commas, a list or a dictionary by its items. What is
-- false counts as no scope, and what cannot be iterated raises `TypeError`.
module _ (text_of : Json → String) where
  texts : Items → List String
  texts nil = []
  texts (cons v rest) = or_empty text_of v ∷ texts rest

  unfoldable pub raw_scopes : Json → Result (List String)
  unfolding texts keys
  raw_scopes (str s) = ok (split b',' s)
  raw_scopes (arr items) = ok (texts items)
  raw_scopes (obj fields) = ok (keys fields)
  raw_scopes v = if is_truthy v then err type_error else ok []
