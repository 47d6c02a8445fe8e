-- ===== src/Redaction.antt =====
-- remote_agent_connector/redaction.py: what an audit event keeps of its details.
pub mod Clean
pub mod Stored
use Prim.Native.Char.{Char, code}
use Prim.Native.String
use remote_agent_connector.Prelude.{
  String, Bool, true, false, ◌||◌, eqb, List, [], ◌∷◌, if◌then◌else◌,
}
use remote_agent_connector.Prelude.Json.{
  Json, null, boolean, int, real, str, arr, obj, Items, nil, cons, Fields, end, field,
}
use remote_agent_connector.Prelude.Texts.{lower}
use remote_agent_connector.Config.{includes}

-- What `(?i)` compares, where the pattern is in lower case: besides what `str.lower` maps, three
-- characters match the letters i and s.
fold_char : Char → Char
fold_char c =
    if eqb (code c) 0x130 || eqb (code c) 0x131 then "i" else if eqb (code c) 0x17f then "s" else c

fold : String → String
unfolding fold_char
fold String.[] = ""
fold (String.◌∷◌ c s) = String.◌∷◌ (fold_char c) (fold s)

abbrev pub sensitive_words : List String
sensitive_words =
    "token" ∷ "secret" ∷ "cookie" ∷ "jwt" ∷ "password" ∷ "credential" ∷ "proxy" ∷ "path" ∷ "file"
    ∷ "cdp" ∷ "sql" ∷ "shell" ∷ []

unfoldable pub includes_any : List String → String → Bool
unfolding includes
includes_any [] s = false
includes_any (word ∷ words) s = includes word s || includes_any words s

-- `re.search` of the words in a key.
unfoldable pub is_sensitive : String → Bool
unfolding includes_any fold lower
is_sensitive key = includes_any sensitive_words (lower (fold key))

abbrev pub redacted : Json
redacted = str "[REDACTED]"

-- `substitute` is what the four `re.sub` calls make of a text.
module _ (substitute : String → String) where
  unfoldable mutual
    pub redact_audit_value : Json → Json
    redact_audit_value null = null
    redact_audit_value (boolean b) = boolean b
    redact_audit_value (int n) = int n
    redact_audit_value (real r) = real r
    redact_audit_value (str s) = str (substitute s)
    redact_audit_value (arr items) = arr (redact_items items)
    redact_audit_value (obj fields) = obj (redact_fields fields)

    pub redact_items : Items → Items
    redact_items nil = nil
    redact_items (cons v rest) = cons (redact_audit_value v) (redact_items rest)

    pub redact_fields : Fields → Fields
    redact_fields end = end
    redact_fields (field key v rest) =
        let hidden = redact_fields rest in
        let item = redact_audit_value v in
        field key (if is_sensitive key then redacted else item) hidden
