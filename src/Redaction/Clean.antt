-- ===== src/Redaction/Clean.antt =====
-- remote_agent_connector/redaction.py: the lemmas on a value that was redacted.
use remote_agent_connector.Prelude.{String, ◌≡◌, refl, if◌then◌else◌, Bool-cases, inl, inr}
use remote_agent_connector.Prelude.Json.{
  Json, null, boolean, int, real, str, arr, obj, Items, nil, cons, Fields, end, field,
}
use remote_agent_connector.Redaction.{
  is_sensitive, redacted, redact_audit_value, redact_items, redact_fields,
}

-- In the value and all that it holds, at any depth, a field with a sensitive key is redacted, and any
-- other text is one that the substitution makes.
module _ (substitute : String → String) where
  unfoldable mutual
    pub IsClean : Json → Type 0
    IsClean null = Unit
    IsClean (boolean b) = Unit
    IsClean (int n) = Unit
    IsClean (real r) = Unit
    IsClean (str s) = (raw : String) × (s ≡ substitute raw)
    IsClean (arr items) = AreClean items
    IsClean (obj fields) = FieldsAreClean fields

    pub AreClean : Items → Type 0
    AreClean nil = Unit
    AreClean (cons v rest) = IsClean v × AreClean rest

    pub FieldsAreClean : Fields → Type 0
    FieldsAreClean end = Unit
    FieldsAreClean (field key v rest) =
        (if is_sensitive key then v ≡ redacted else IsClean v) × FieldsAreClean rest

  mutual
    unfolding redact_audit_value IsClean

    -- What is stored of a value holds nothing under a sensitive key, at any depth, and no text that the
    -- substitution has not made.
    pub redact_audit_value-IsClean : (v : Json) → IsClean (redact_audit_value substitute v)
    redact_audit_value-IsClean null = tt
    redact_audit_value-IsClean (boolean b) = tt
    redact_audit_value-IsClean (int n) = tt
    redact_audit_value-IsClean (real r) = tt
    redact_audit_value-IsClean (str s) = (s, refl)
    redact_audit_value-IsClean (arr items) = redact_items-AreClean items
    redact_audit_value-IsClean (obj fields) = redact_fields-AreClean fields

    redact_items-AreClean : (items : Items) → AreClean (redact_items substitute items)
    redact_items-AreClean nil = tt
    redact_items-AreClean (cons v rest) = (redact_audit_value-IsClean v, redact_items-AreClean rest)

    redact_fields-AreClean : (fields : Fields) → FieldsAreClean (redact_fields substitute fields)
    redact_fields-AreClean end = tt
    redact_fields-AreClean (field key v rest) = elim (Bool-cases (is_sensitive key)) [
      | inl e ↦ (rw e refl, redact_fields-AreClean rest)
      | inr e ↦ (rw e (redact_audit_value-IsClean v), redact_fields-AreClean rest)
    ]
