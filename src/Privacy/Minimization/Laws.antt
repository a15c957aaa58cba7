-- ===== src/Privacy/Minimization/Laws.antt =====
-- Which fields redaction and picking leave.
use ascended_core.Base.{
  String, ◌≡◌, refl, Option, none, some, List, arith, includes, eq_iff, [], ◌∷◌, if◌then◌else◌, ap,
}
use ascended_core.Core.Value.{Value, string, Fields, end, field, property}
use ascended_core.Privacy.Minimization.{redact_keys, pick_fields}

abbrev pub keys_of : Fields → List String
keys_of end = []
keys_of (field key v fs) = key ∷ keys_of fs

-- A picked object has exactly the allow-listed fields of the object.
property-pick_fields :
    (key : String) (fs : Fields) (allowlist : List String)
    → property key (pick_fields fs allowlist)
      ≡ (if includes key allowlist then property key fs else none)
unfolding property pick_fields
property-pick_fields key end allowlist = ground arith
property-pick_fields key (field j v fs) allowlist = ground (
  arith,
  eq_iff j key,
  λ (e : j ≡ key). ap (λ s. includes s allowlist) e,
  property-pick_fields key fs allowlist,
)

abbrev pub masked : String → Option Value → Option Value
masked marker none = none
masked marker (some v) = some (string marker)

-- A redacted object has the keys of the object in their order; the value of a listed key is the
-- marker, and every other value is as it was.
pub redact_keys_lem :
    (fs : Fields) (keys : List String) (marker : String)
    → (keys_of (redact_keys fs keys marker) ≡ keys_of fs)
      × ((key : String)
          → property key (redact_keys fs keys marker)
            ≡ (if includes key keys then masked marker (property key fs) else property key fs))
unfolding property redact_keys
redact_keys_lem end keys marker = (refl, λ key. ground arith)
redact_keys_lem (field j v fs) keys marker = (
  ap (λ ks. j ∷ ks) (redact_keys_lem fs keys marker).0,
  λ key. ground (
    arith,
    eq_iff j key,
    λ (e : j ≡ key). ap (λ s. includes s keys) e,
    (redact_keys_lem fs keys marker).1 key,
  ),
)

-- What is redacted stays out of the reach of a later pick: picking and redacting commute.
pick-redact :
    (fs : Fields) (allowlist keys : List String) (marker : String)
    → pick_fields (redact_keys fs keys marker) allowlist
      ≡ redact_keys (pick_fields fs allowlist) keys marker
unfolding pick_fields redact_keys
pick-redact end allowlist keys marker = refl
pick-redact (field j v fs) allowlist keys marker =
    ground (arith, pick-redact fs allowlist keys marker)
