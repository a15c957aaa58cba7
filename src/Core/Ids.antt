-- ===== src/Core/Ids.antt =====
-- packages/core/src/ids.ts. Texts are lists of code points, so that the patterns can be run. The
-- twelve random bytes in base64url are an argument of `create_id`.
pub mod Laws
use ascended_core.Base.{
  ℕ, zero, suc, Bool, true, false, ◌&&◌, ◌||◌, Option, none, some, List, [], ◌∷◌, ◌++◌, length, leb,
  ◌==◌, if◌then◌else◌,
}

-- [a-z], [a-z0-9], [A-Za-z0-9_-]
is_lower : ℕ → Bool
is_lower c = leb b'a' c && leb c b'z'

pub is_prefix_char : ℕ → Bool
unfolding is_lower
is_prefix_char c = is_lower c || leb b'0' c && leb c b'9'

unfoldable pub is_id_char : ℕ → Bool
unfolding is_prefix_char
is_id_char c = is_prefix_char c || leb b'A' c && leb c b'Z' || c == b'_' || c == b'-'

pub all_chars : (ℕ → Bool) → List ℕ → Bool
all_chars p [] = true
all_chars p (c ∷ s) = p c && all_chars p s

-- /^[a-z][a-z0-9]*$/
pub is_prefix : List ℕ → Bool
unfolding is_prefix_char all_chars
is_prefix [] = false
is_prefix (c ∷ s) = is_lower c && all_chars is_prefix_char s

-- the text before and behind the first underscore
pub split_underscore : List ℕ → Option (List ℕ × List ℕ)
split_underscore [] = none
split_underscore (c ∷ s) =
    let rest = split_underscore s in
    if c == b'_'
    then some ([], s)
    else elim rest [ none ↦ none | some (front, back) ↦ some (c ∷ front, back) ]

-- ID_PATTERN: a prefix has no underscore, so the first one ends it
pub is_entity_id : List ℕ → Bool
unfolding split_underscore is_prefix is_id_char
is_entity_id value = elim (split_underscore value) [
  | none ↦ false
  | some (front, back) ↦
      is_prefix front && leb 8 (length back) && leb (length back) 64 && all_chars is_id_char back
]

-- `none`: the prefix is refused with an `Error`
unfoldable pub create_id : List ℕ → List ℕ → Option (List ℕ)
unfolding is_prefix
create_id prefix random = if is_prefix prefix then some (prefix ++ b'_' ∷ random) else none

pub id_prefix : List ℕ → List ℕ
unfolding split_underscore
id_prefix id = elim (split_underscore id) [ none ↦ id | some (front, back) ↦ front ]
