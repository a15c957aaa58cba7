-- ===== src/Privacy/Telemetry.antt =====
-- packages/privacy/src/telemetry.ts
pub mod Laws
use ascended_core.Base.{String, Bool, List, [], ◌∷◌, includes, if◌then◌else◌}
use ascended_core.Core.Value.{
  Value, undefined, null, boolean, number, string, array, object, instance_of, Items, nil, cons,
  Fields, end, field,
}

abbrev forbidden_telemetry_keys : List String
forbidden_telemetry_keys =
    "prompt" ∷ "content" ∷ "body" ∷ "text" ∷ "message" ∷ "input" ∷ "output" ∷ "completion" ∷ "image"
    ∷ "imageData" ∷ "modelData" ∷ []

-- `forbidden.has(key)`
unfoldable pub is_forbidden : String → Bool
is_forbidden key = includes key forbidden_telemetry_keys

-- `walk` on any value, on the items of an array and on the entries of a plain object
unfoldable mutual
  pub sanitize_telemetry : Value → Value
  sanitize_telemetry (array items) = array (sanitize_items items)
  sanitize_telemetry (object fields) = object (sanitize_fields fields)
  sanitize_telemetry undefined = undefined
  sanitize_telemetry null = null
  sanitize_telemetry (boolean b) = boolean b
  sanitize_telemetry (number n) = number n
  sanitize_telemetry (string s) = string s
  sanitize_telemetry (instance_of fields) = instance_of fields

  pub sanitize_items : Items → Items
  sanitize_items nil = nil
  sanitize_items (cons v vs) = cons (sanitize_telemetry v) (sanitize_items vs)

  pub sanitize_fields : Fields → Fields
  sanitize_fields end = end
  sanitize_fields (field key v fs) =
      if is_forbidden key
      then sanitize_fields fs
      else field key (sanitize_telemetry v) (sanitize_fields fs)
