-- ===== src/Core/Ids/Laws.antt =====
-- Identifiers that `createId` makes are accepted by `isEntityId`, and give back their prefix.
use ascended_core.Base.{ℕ, ◌≡◌, ◌≤◌, refl, true, some, List, [], ◌∷◌, ◌++◌, length, arith}
use ascended_core.Core.Ids.{
  is_prefix_char, is_id_char, all_chars, is_prefix, split_underscore, is_entity_id, create_id,
  id_prefix,
}

split-append :
    (s t : List ℕ)
    → all_chars is_prefix_char s ≡ true
    → split_underscore (s ++ b'_' ∷ t) ≡ some (s, t)
unfolding all_chars is_prefix_char split_underscore
split-append [] t h = refl
split-append (c ∷ s) t h = ground (arith, split-append s t)

split-append_of_prefix :
    (s t : List ℕ) → is_prefix s ≡ true → split_underscore (s ++ b'_' ∷ t) ≡ some (s, t)
unfolding is_prefix is_prefix_char all_chars split_underscore
split-append_of_prefix [] t h = ground arith
split-append_of_prefix (c ∷ s) t h = ground (arith, split-append s t)

-- An id made from 8 to 64 characters of base64url passes the guard, and its prefix is the one that
-- it was made with.
pub create_id-is_entity_id :
    (prefix random id : List ℕ)
    → 8 ≤ length random
    → length random ≤ 64
    → all_chars is_id_char random ≡ true
    → create_id prefix random ≡ some id
    → (is_entity_id id ≡ true) × (id_prefix id ≡ prefix)
unfolding create_id is_entity_id id_prefix
create_id-is_entity_id prefix random id lo hi chars made =
    ground (arith, split-append_of_prefix prefix random)
