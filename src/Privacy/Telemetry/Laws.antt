-- ===== src/Privacy/Telemetry/Laws.antt =====
-- What `sanitizeTelemetry` removes, and what it leaves as it was.
use ascended_core.Base.{
  String, ap, subst, eq_iff, ◌↔◌, ◌≡◌, inl, inr, refl, true, false, arith, str_eq, if◌then◌else◌,
  Option, some, none, Bool-cases, List, [], ◌∷◌, includes, sym, ◌∙◌,
}
use ascended_core.Core.Value.{
  Value, undefined, null, boolean, number, string, array, object, instance_of, Items, nil, cons,
  Fields, end, field, property,
}
use ascended_core.Privacy.Telemetry.{
  is_forbidden, sanitize_telemetry, sanitize_items, sanitize_fields,
}

-- The key stands in the value, at any depth below arrays and plain objects. What stands inside a class
-- instance does not count.
mutual
  pub data CarriesPlainly (key : String) : Value → Type 0 where
    in_array : {vs : Items} → CarriesItem key vs → CarriesPlainly key (array vs)
    in_object : {fs : Fields} → CarriesField key fs → CarriesPlainly key (object fs)

  pub data CarriesItem (key : String) : Items → Type 0 where
    at_head : {v : Value} {vs : Items} → CarriesPlainly key v → CarriesItem key (cons v vs)
    at_tail : {v : Value} {vs : Items} → CarriesItem key vs → CarriesItem key (cons v vs)

  pub data CarriesField (key : String) : Fields → Type 0 where
    as_key : {j : String} {v : Value} {fs : Fields} → j ≡ key → CarriesField key (field j v fs)
    below :
        {j : String} {v : Value} {fs : Fields}
        → CarriesPlainly key v
        → CarriesField key (field j v fs)
    later :
        {j : String} {v : Value} {fs : Fields}
        → CarriesField key fs
        → CarriesField key (field j v fs)

abbrev IsClean : Value → Type 0
IsClean v = (key : String) → is_forbidden key ≡ true → ¬ CarriesPlainly key v

abbrev IsCleanItems : Items → Type 0
IsCleanItems vs = (key : String) → is_forbidden key ≡ true → ¬ CarriesItem key vs

abbrev IsCleanFields : Fields → Type 0
IsCleanFields fs = (key : String) → is_forbidden key ≡ true → ¬ CarriesField key fs

-- one entry that stays, in front of clean entries
field-clean :
    (j : String) (v : Value) (fs : Fields)
    → is_forbidden j ≡ false
    → IsClean v
    → IsCleanFields fs
    → IsCleanFields (field j v fs)
field-clean j v fs allowed cv cfs key bad (as_key e) = cc (allowed, bad, ap is_forbidden e)
field-clean j v fs allowed cv cfs key bad (below c) = cv key bad c
field-clean j v fs allowed cv cfs key bad (later c) = cfs key bad c

array-IsClean : (vs : Items) → IsCleanItems vs → IsClean (array vs)
array-IsClean vs h key bad (in_array c) = h key bad c

object-IsClean : (fs : Fields) → IsCleanFields fs → IsClean (object fs)
object-IsClean fs h key bad (in_object c) = h key bad c

cons-clean : (v : Value) (vs : Items) → IsClean v → IsCleanItems vs → IsCleanItems (cons v vs)
cons-clean v vs cv cvs key bad (at_head c) = cv key bad c
cons-clean v vs cv cvs key bad (at_tail c) = cvs key bad c

leaf-IsClean : (v : Value) → ((key : String) → ¬ CarriesPlainly key v) → IsClean v
leaf-IsClean v h key bad c = h key c

mutual
  unfolding sanitize_telemetry

  sanitize-IsClean : (v : Value) → IsClean (sanitize_telemetry v)
  sanitize-IsClean (array vs) = array-IsClean (sanitize_items vs) (sanitize_items-clean vs)
  sanitize-IsClean (object fs) = object-IsClean (sanitize_fields fs) (sanitize_fields-clean fs)
  sanitize-IsClean undefined = λ key bad c. elim c [ ]
  sanitize-IsClean null = λ key bad c. elim c [ ]
  sanitize-IsClean (boolean b) = λ key bad c. elim c [ ]
  sanitize-IsClean (number n) = λ key bad c. elim c [ ]
  sanitize-IsClean (string s) = λ key bad c. elim c [ ]
  sanitize-IsClean (instance_of fs) = λ key bad c. elim c [ ]

  sanitize_items-clean : (vs : Items) → IsCleanItems (sanitize_items vs)
  sanitize_items-clean nil = λ key bad c. elim c [ ]
  sanitize_items-clean (cons v vs) =
      cons-clean (sanitize_telemetry v) (sanitize_items vs) (sanitize-IsClean v)
        (sanitize_items-clean vs)

  sanitize_fields-clean : (fs : Fields) → IsCleanFields (sanitize_fields fs)
  sanitize_fields-clean end = λ key bad c. elim c [ ]
  sanitize_fields-clean (field j v fs) = elim (Bool-cases (is_forbidden j)) [
    | inl drop ↦ rw drop (sanitize_fields-clean fs)
    | inr keep ↦ rw keep (
        field-clean j (sanitize_telemetry v) (sanitize_fields fs) keep (sanitize-IsClean v)
          (sanitize_fields-clean fs))
  ]

mutual
  unfolding sanitize_telemetry

  sanitize_of_clean : (v : Value) → IsClean v → sanitize_telemetry v ≡ v
  sanitize_of_clean (array vs) h =
      ap array (sanitize_items_of_clean vs (λ key bad c. h key bad (in_array c)))
  sanitize_of_clean (object fs) h =
      ap object (sanitize_fields_of_clean fs (λ key bad c. h key bad (in_object c)))
  sanitize_of_clean undefined h = refl
  sanitize_of_clean null h = refl
  sanitize_of_clean (boolean b) h = refl
  sanitize_of_clean (number n) h = refl
  sanitize_of_clean (string s) h = refl
  sanitize_of_clean (instance_of fs) h = refl

  sanitize_items_of_clean : (vs : Items) → IsCleanItems vs → sanitize_items vs ≡ vs
  sanitize_items_of_clean nil h = refl
  sanitize_items_of_clean (cons v vs) h = cc (
    sanitize_of_clean v (λ key bad c. h key bad (at_head c)),
    sanitize_items_of_clean vs (λ key bad c. h key bad (at_tail c)),
  )

  sanitize_fields_of_clean : (fs : Fields) → IsCleanFields fs → sanitize_fields fs ≡ fs
  sanitize_fields_of_clean end h = refl
  sanitize_fields_of_clean (field j v fs) h = elim (Bool-cases (is_forbidden j)) [
    | inl drop ↦ absurd (h j drop (as_key refl))
    | inr keep ↦ rw keep (
        cc (
          sanitize_of_clean v (λ key bad c. h key bad (below c)),
          sanitize_fields_of_clean fs (λ key bad c. h key bad (later c)),
        ))
  ]

abbrev pub content_keys : List String
content_keys =
    "prompt" ∷ "content" ∷ "body" ∷ "text" ∷ "message" ∷ "input" ∷ "output" ∷ "completion" ∷ "image"
    ∷ "imageData" ∷ "modelData" ∷ []

-- No key that could hold content stands below arrays and plain objects; class instances may have some.
abbrev pub IsPlainlyClean : Value → Type 0
IsPlainlyClean v = (key : String) → includes key content_keys ≡ true → ¬ CarriesPlainly key v

forbidden-listed : (key : String) → is_forbidden key ≡ includes key content_keys
unfolding is_forbidden
forbidden-listed key = refl

clean-IsPlainlyClean : (v : Value) → IsClean v → IsPlainlyClean v
clean-IsPlainlyClean v h key listed = h key (forbidden-listed key ∙ listed)

plainly-IsClean : (v : Value) → IsPlainlyClean v → IsClean v
plainly-IsClean v h key bad = h key (sym (forbidden-listed key) ∙ bad)

-- The result carries none of the listed keys at any depth of arrays and plain objects, and a value is
-- unchanged exactly when it carries none there. What stands inside a class instance is left out of
-- both: the sanitiser keeps it as it is.
pub sanitize_telemetry_exact :
    (v : Value)
    → IsPlainlyClean (sanitize_telemetry v) × ((sanitize_telemetry v ≡ v) ↔ IsPlainlyClean v)
sanitize_telemetry_exact v =
    let clean = clean-IsPlainlyClean (sanitize_telemetry v) (sanitize-IsClean v) in
    (clean, (λ e. subst IsPlainlyClean e clean, λ h. sanitize_of_clean v (plainly-IsClean v h)))

abbrev pub map_value : (Value → Value) → Option Value → Option Value
map_value f none = none
map_value f (some v) = some (f v)

-- Every other key of an object keeps its place in the object, with its value sanitised.
pub property-sanitize_fields :
    (key : String) (fs : Fields)
    → property key (sanitize_fields fs)
      ≡ (if is_forbidden key then none else map_value sanitize_telemetry (property key fs))
unfolding sanitize_telemetry property
property-sanitize_fields key end = ground arith
property-sanitize_fields key (field j v fs) = elim (Bool-cases (str_eq j key)) [
  | inl same ↦ ground (
    arith,
    eq_iff j key,
    ap is_forbidden ((eq_iff j key).0 same),
    property-sanitize_fields key fs,
  )
  | inr differ ↦ ground (arith, property-sanitize_fields key fs)
]
