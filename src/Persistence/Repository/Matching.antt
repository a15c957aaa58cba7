-- ===== src/Persistence/Repository/Matching.antt =====
-- What a filter of `findMany` accepts (in-memory.ts, `matchesFilter`).
use ascended_core.Base.{
  ◌≡◌, ◌⊎◌, ◌↔◌, refl, ap, ◌∙◌, true, false, Option, none, some, arith, ==_iff, eq_iff, eq_refl,
}
use ascended_core.Core.Value.{
  Value, undefined, null, boolean, number, string, array, object, instance_of, Fields, end, field,
  value_at,
}
use ascended_core.Persistence.Repository.{
  strict_equal, is_undefined, matches_fields, matches_filter,
}

-- `===` on what is stored: primitive values that are equal, and no two objects
abbrev pub IsPrimitive : Value → Type 0
IsPrimitive (array vs) = ⊥
IsPrimitive (object fs) = ⊥
IsPrimitive (instance_of fs) = ⊥
IsPrimitive _ = Unit

strict_equal-true : (x y : Value) → strict_equal x y ≡ true → IsPrimitive y × (x ≡ y)
unfolding strict_equal
strict_equal-true (number m) (number n) h = (tt, ap number ((==_iff m n).0 h))
strict_equal-true (string s) (string t) h = (tt, ap string ((eq_iff s t).0 h))
strict_equal-true x y h = ground (arith, h)

strict_equal_self : (x : Value) → IsPrimitive x → strict_equal x x ≡ true
unfolding strict_equal
strict_equal_self undefined p = refl
strict_equal_self null p = refl
strict_equal_self (boolean true) p = refl
strict_equal_self (boolean false) p = refl
strict_equal_self (number n) p = (==_iff n n).1 refl
strict_equal_self (string s) p = eq_refl s
strict_equal_self (array vs) p = absurd p
strict_equal_self (object fs) p = absurd p
strict_equal_self (instance_of fs) p = absurd p

strict_equal_lem : (x y : Value) → (strict_equal x y ≡ true) ↔ (IsPrimitive y × (x ≡ y))
strict_equal_lem x y =
    (strict_equal-true x y, λ (p, same). ap (λ v. strict_equal v y) same ∙ strict_equal_self y p)

-- Every field that a filter asks for, and that is not undefined, is in the value and primitive.
abbrev pub HasFields : Fields → Fields → Type 0
HasFields value end = Unit
HasFields value (field key expected rest) =
    ((expected ≡ undefined) ⊎ (IsPrimitive expected × (value_at key value ≡ expected)))
    × HasFields value rest

abbrev pub Satisfies : Option Fields → Fields → Type 0
Satisfies none value = Unit
Satisfies (some wanted) value = HasFields value wanted

is_undefined-true : (v : Value) → (is_undefined v ≡ true) ↔ (v ≡ undefined)
unfolding is_undefined
is_undefined-true v = ground arith

matches_fields_lem :
    (value wanted : Fields) → (matches_fields value wanted ≡ true) ↔ HasFields value wanted
unfolding matches_fields
matches_fields_lem value end = ((λ h. tt), (λ h. refl))
matches_fields_lem value (field key expected rest) = ground (
  arith,
  is_undefined-true expected,
  matches_fields_lem value rest,
  strict_equal_lem (value_at key value) expected,
)

pub matches_filter_lem :
    (wanted : Option Fields) (value : Fields)
    → (matches_filter wanted value ≡ true) ↔ Satisfies wanted value
unfolding matches_filter
matches_filter_lem none value = ((λ h. tt), (λ h. refl))
matches_filter_lem (some wanted) value = matches_fields_lem value wanted
