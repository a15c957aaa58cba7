-- ===== src/Tests/Core.antt =====
-- Identifiers at a concrete input.
use ascended_core.Base.{ℕ, ◌≡◌, refl, true, List, [], ◌∷◌, arith}
use ascended_core.Core.Ids.{is_entity_id, id_prefix, create_id, is_id_char}
use ascended_core.Core.Ids.Laws.{create_id-is_entity_id}

abbrev usr : List ℕ
usr = b'u' ∷ b's' ∷ b'r' ∷ []

abbrev random_text : List ℕ
random_text = b'A' ∷ b'_' ∷ b'3' ∷ b'-' ∷ b'z' ∷ b'q' ∷ b'0' ∷ b'Q' ∷ []

abbrev usr_id : List ℕ
usr_id = b'u' ∷ b's' ∷ b'r' ∷ b'_' ∷ b'A' ∷ b'_' ∷ b'3' ∷ b'-' ∷ b'z' ∷ b'q' ∷ b'0' ∷ b'Q' ∷ []

create_id-is_entity_id_example : (is_entity_id usr_id ≡ true) × (id_prefix usr_id ≡ usr)
unfolding create_id is_id_char
create_id-is_entity_id_example =
    create_id-is_entity_id usr random_text usr_id (omega arith) (omega arith) refl refl
