-- ===== src/Core/Value.antt =====
-- Values of JavaScript, as `unknown` and `Metadata` (packages/core/src/metadata.ts) carry them.
-- Numbers are naturals. An `instance` is an object whose prototype is not `Object.prototype`.
use ascended_core.Base.{String, ℕ, Bool, Option, none, some, str_eq, if◌then◌else◌}

mutual
  pub data Value : Type 0 where
    undefined : Value
    null : Value
    boolean : Bool → Value
    number : ℕ → Value
    string : String → Value
    array : Items → Value
    object : Fields → Value
    instance_of : Fields → Value

  pub data Items : Type 0 where
    nil : Items
    cons : Value → Items → Items

  pub data Fields : Type 0 where
    end : Fields
    field : String → Value → Fields → Fields

abbrev pub Metadata : Type 0
Metadata = Fields

-- `obj[key]`, an own property
unfoldable pub property : String → Fields → Option Value
property k end = none
property k (field j v fs) = if str_eq j k then some v else property k fs

-- `obj[key]`, with `undefined` for a key that is absent
unfoldable pub value_at : String → Fields → Value
unfolding property
value_at k fs = elim (property k fs) [ none ↦ undefined | some v ↦ v ]

-- a field that the types declare to be a string
unfoldable pub text_at : String → Fields → String
unfolding value_at
text_at k fs = elim (value_at k fs) [ string s ↦ s | _ ↦ "" ]

-- `obj[key] = v`: a key that is there keeps its place
unfoldable pub put_field : String → Value → Fields → Fields
put_field k v end = field k v end
put_field k v (field j w fs) = if str_eq j k then field j v fs else field j w (put_field k v fs)

-- `{ ...a, ...b }`
pub spread : Fields → Fields → Fields
unfolding put_field
spread a end = a
spread a (field k v fs) = spread (put_field k v a) fs
