-- ===== src/Observability/Logger/Laws.antt =====
-- Redaction, and what a record that a logger keeps can carry.
use ascended_core.Base.{true, ◌≡◌, refl, Bool-cases, inl, inr, false≢true}
use ascended_core.Base.Codes.{Text}
use ascended_core.Core.Value.{
  Value, undefined, null, boolean, number, string, array, object, instance_of, Items, nil, cons,
  Fields, end, field,
}
use ascended_core.Observability.Logger.{
  is_masked, redacted, redact_value, redact_items, redact_entries,
}

-- the value at a key that is masked is the mark, at every depth
mutual
  pub IsRedacted : (Text → Text) → Value → Type 0
  IsRedacted lower (array items) = AreRedacted lower items
  IsRedacted lower (object fields) = IsMasked lower fields
  IsRedacted lower (instance_of fields) = IsMasked lower fields
  IsRedacted lower undefined = Unit
  IsRedacted lower null = Unit
  IsRedacted lower (boolean b) = Unit
  IsRedacted lower (number n) = Unit
  IsRedacted lower (string s) = Unit

  pub AreRedacted : (Text → Text) → Items → Type 0
  AreRedacted lower nil = Unit
  AreRedacted lower (cons v vs) = IsRedacted lower v × AreRedacted lower vs

  pub IsMasked : (Text → Text) → Fields → Type 0
  IsMasked lower end = Unit
  IsMasked lower (field key v fs) =
      (is_masked lower key ≡ true → v ≡ redacted) × (IsRedacted lower v × IsMasked lower fs)

mutual
  unfolding redact_value IsRedacted

  redact_value-IsRedacted :
      (lower : Text → Text) (v : Value) → IsRedacted lower (redact_value lower v)
  redact_value-IsRedacted lower (array items) = redact_items-AreRedacted lower items
  redact_value-IsRedacted lower (object fields) = redact_entries-IsMasked lower fields
  redact_value-IsRedacted lower (instance_of fields) = redact_entries-IsMasked lower fields
  redact_value-IsRedacted lower undefined = tt
  redact_value-IsRedacted lower null = tt
  redact_value-IsRedacted lower (boolean b) = tt
  redact_value-IsRedacted lower (number n) = tt
  redact_value-IsRedacted lower (string s) = tt

  redact_items-AreRedacted :
      (lower : Text → Text) (vs : Items) → AreRedacted lower (redact_items lower vs)
  redact_items-AreRedacted lower nil = tt
  redact_items-AreRedacted lower (cons v vs) =
      (redact_value-IsRedacted lower v, redact_items-AreRedacted lower vs)

  -- Every field below a bag that is redacted, at any depth of objects and arrays, whose key is not
  -- empty and contains a forbidden word has the mark for its value.
  pub redact_entries-IsMasked :
      (lower : Text → Text) (fs : Fields) → IsMasked lower (redact_entries lower fs)
  redact_entries-IsMasked lower end = tt
  redact_entries-IsMasked lower (field key v fs) = elim (Bool-cases (is_masked lower key)) [
    | inl masked ↦ rw masked (λ same. refl, (tt, redact_entries-IsMasked lower fs))
    | inr plain ↦ rw plain (
      λ same. absurd (false≢true same),
      (redact_value-IsRedacted lower v, redact_entries-IsMasked lower fs),
    )
  ]
