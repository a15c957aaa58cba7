-- ===== src/Observability/Logger.antt =====
-- packages/observability/src/logger.ts: the fields of a record are redacted before it is kept.
-- `toLowerCase` is an argument.
pub mod Laws
use ascended_core.Base.{
  String, Bool, true, false, ◌&&◌, ◌||◌, not, Option, none, some, List, [], ◌∷◌, ◌++◌, str_eq, any,
  if◌then◌else◌, ◌==◌,
}
use ascended_core.Base.Codes.{Text, codes}
use ascended_core.Core.Value.{
  Value, undefined, null, boolean, number, string, array, object, instance_of, Items, nil, cons,
  Fields, end, field,
}

pub data LogLevel : Type 0 where
  debug : LogLevel
  info : LogLevel
  warn : LogLevel
  error : LogLevel

pub record LogRecord : Type 0 where
  level : LogLevel
  msg : String
  fields : Option Fields
  timestamp : String

abbrev pub log_forbidden_keys : List String
log_forbidden_keys =
    "authorization" ∷ "content" ∷ "body" ∷ "prompt" ∷ "token" ∷ "email" ∷ "password" ∷ "secret" ∷ []

abbrev pub redacted : Value
redacted = string "[redacted]"

abbrev starts_with : Text → Text → Bool
starts_with [] t = true
starts_with (c ∷ s) [] = false
starts_with (c ∷ s) (d ∷ t) = (c == d) && starts_with s t

-- `t.includes(s)`
abbrev pub text_includes : Text → Text → Bool
text_includes s [] = starts_with s []
text_includes s (d ∷ t) = starts_with s (d ∷ t) || text_includes s t

unfoldable pub is_forbidden_key : (Text → Text) → String → Bool
is_forbidden_key lower key =
    any (λ forbidden. text_includes (codes forbidden) (lower (codes key))) log_forbidden_keys

-- the test in front of a value that stands at a key; an item of an array stands at the key ""
unfoldable pub is_masked : (Text → Text) → String → Bool
unfolding is_forbidden_key
is_masked lower key = not (str_eq key "") && is_forbidden_key lower key

-- `redactValue` at a key that is not masked
unfoldable mutual
  pub redact_value : (Text → Text) → Value → Value
  redact_value lower (array items) = array (redact_items lower items)
  redact_value lower (object fields) = object (redact_entries lower fields)
  redact_value lower (instance_of fields) = object (redact_entries lower fields)
  redact_value lower undefined = undefined
  redact_value lower null = null
  redact_value lower (boolean b) = boolean b
  redact_value lower (number n) = number n
  redact_value lower (string s) = string s

  pub redact_items : (Text → Text) → Items → Items
  redact_items lower nil = nil
  redact_items lower (cons v vs) = cons (redact_value lower v) (redact_items lower vs)

  pub redact_entries : (Text → Text) → Fields → Fields
  redact_entries lower end = end
  redact_entries lower (field key v fs) =
      field key (if is_masked lower key then redacted else redact_value lower v)
        (redact_entries lower fs)

unfoldable pub redact_fields : (Text → Text) → Option Fields → Option Fields
unfolding redact_entries
redact_fields lower none = none
redact_fields lower (some fs) = some (redact_entries lower fs)

unfoldable pub build : (Text → Text) → String → LogLevel → String → Option Fields → LogRecord
unfolding redact_fields
build lower now level msg fields = record {
  level = level;
  msg = msg;
  fields = redact_fields lower fields;
  timestamp = now;
}

-- a call of a level's method of `InMemoryLogger`: its state is the records, in order
unfoldable pub log :
    (Text → Text) → String → LogLevel → String → Option Fields → List LogRecord → List LogRecord
unfolding build
log lower now level msg fields logs = logs ++ build lower now level msg fields ∷ []

pub clear_logs : List LogRecord → List LogRecord
clear_logs logs = []
