-- ===== src/Persistence/Repository/Operations.antt =====
-- What `create`, `update`, `delete` and `restore` do to a repository.
use ascended_core.Base.{
  ℕ, ◌+◌, ◌≤◌, ◌≡◌, refl, ◌∙◌, String, str_append, none, some, arith, str_eq, eq_iff, if◌then◌else◌,
  Option-cases, inl, inr,
}
use ascended_core.Base.Dict
use ascended_core.Base.Dict.{Dict, dict_laws, get-set, get-delete}
use ascended_core.Core.Value.{Fields}
use ascended_core.Core.Errors.{core_error, conflict, not_found}
use ascended_core.Core.Result.{ok, err}
use ascended_core.Persistence.Repository.{
  Repository, Stored, id_of, find_by_id, create, update, delete, patched, snapshot, restore,
}
use ascended_core.Persistence.Repository.Invariant.{
  IsDrawn, IsValid, All-set, All-delete, Distinct-set, Distinct-set_later, Distinct-delete,
  All-widen, get-IsDrawn, id_of-patched,
}

-- the entity that `create` stores
abbrev pub stored_now : Fields → ℕ → Repository → Stored
stored_now entity now r = record { value = entity; created_at = now; seq = r.seq_counter }

pub create_new :
    (entity : Fields) (now : ℕ) (r : Repository)
    → Dict.get (id_of entity) r.items ≡ none
    → create entity now r ≡ (
      ok entity,
      record {
        items = Dict.set (id_of entity) (stored_now entity now r) r.items;
        seq_counter = r.seq_counter + 1;
      },
    )
unfolding create Dict.has
create_new entity now r g = rw (g, create, Dict.has) refl

pub create_taken :
    (entity : Fields) (now : ℕ) (r : Repository) (s : Stored)
    → Dict.get (id_of entity) r.items ≡ some s
    → create entity now r
      ≡ (err (core_error conflict (str_append "entity already exists: " (id_of entity))), r)
unfolding create Dict.has
create_taken entity now r s g = rw (g, create, Dict.has) refl

pub update_missing :
    (id : String) (patch : Fields) (r : Repository)
    → Dict.get id r.items ≡ none
    → update id patch r ≡ (err (core_error not_found (str_append "entity not found: " id)), r)
unfolding update
update_missing id patch r g = rw (g, update) refl

pub update_found :
    (id : String) (patch : Fields) (r : Repository) (s : Stored)
    → Dict.get id r.items ≡ some s
    → update id patch r ≡ (
      ok (patched s.value patch),
      record r { items = Dict.set id (record s { value = patched s.value patch }) r.items },
    )
unfolding update
update_found id patch r s g = rw (g, update) refl

-- What `findById` finds after a `create`, for any id: a refused entity changes nothing, an accepted
-- one is found under its id, and every other id finds what it found before.
pub create-find_by_id :
    (entity : Fields) (now : ℕ) (id : String) (r : Repository)
    → find_by_id id (create entity now r).1 ≡ (
        if Dict.has (id_of entity) r.items
        then find_by_id id r
        else if str_eq (id_of entity) id
        then some entity
        else find_by_id id r)
unfolding Dict.has find_by_id
create-find_by_id entity now id r = elim (Option-cases (Dict.get (id_of entity) r.items)) [
  | inl g ↦
      rw
        (
          create_new entity now r g,
          g,
          Dict.has,
          get-set (id_of entity) id (stored_now entity now r) r.items,
          find_by_id,
        )
        (ground arith)
  | inr (s, g) ↦ rw (create_taken entity now r s g, g, Dict.has) refl
]

-- What `findById` finds after an `update`: under the id the patched entity, if there was one, and
-- under every other id what it found before.
pub update-find_by_id :
    (id other : String) (patch : Fields) (r : Repository)
    → find_by_id other (update id patch r).1 ≡ (
        if str_eq id other
        then elim (find_by_id id r) [ none ↦ none | some value ↦ some (patched value patch) ]
        else find_by_id other r)
unfolding find_by_id
update-find_by_id id other patch r = elim (Option-cases (Dict.get id r.items)) [
  | inl g ↦ rw (update_missing id patch r g, g) (ground (arith, eq_iff id other, g))
  | inr (s, g) ↦
      rw
        (
          update_found id patch r s g,
          g,
          get-set id other (record s { value = patched s.value patch }) r.items,
          find_by_id,
        )
        (ground (arith, eq_iff id other, g))
]

-- What `findById` finds after a `delete`: nothing under the id, and what it found before elsewhere.
pub delete-find_by_id :
    (id other : String) (r : Repository)
    → find_by_id other (delete id r) ≡ (if str_eq id other then none else find_by_id other r)
unfolding delete find_by_id
delete-find_by_id id other r = rw (delete, get-delete id other r.items, find_by_id) (ground arith)

pub create-IsValid :
    (entity : Fields) (now : ℕ) (r : Repository) → IsValid r → IsValid (create entity now r).1
create-IsValid entity now r (d, h) = elim (Option-cases (Dict.get (id_of entity) r.items)) [
  | inl g ↦ rw (create_new entity now r g) (
    All-set (IsDrawn (r.seq_counter + 1)) (id_of entity) (stored_now entity now r) r.items
        (All-widen r.seq_counter (r.seq_counter + 1) r.items (omega arith) d) (refl, omega arith),
    Distinct-set_later r.seq_counter (id_of entity) (stored_now entity now r) r.items g refl d h,
  )
  | inr (s, g) ↦ rw (create_taken entity now r s g) (d, h)
]

pub update-IsValid :
    (id : String) (patch : Fields) (r : Repository) → IsValid r → IsValid (update id patch r).1
update-IsValid id patch r (d, h) = elim (Option-cases (Dict.get id r.items)) [
  | inl g ↦ rw (update_missing id patch r g) (d, h)
  | inr (s, g) ↦
      let (keyed, drawn) = get-IsDrawn r.seq_counter id s r.items g d in
      rw (update_found id patch r s g) (
        All-set (IsDrawn r.seq_counter) id (record s { value = patched s.value patch }) r.items d
            (id_of-patched s.value patch ∙ keyed, drawn),
        Distinct-set id s (patched s.value patch) r.items g h,
      )
]

pub delete-IsValid : (id : String) (r : Repository) → IsValid r → IsValid (delete id r)
unfolding delete
delete-IsValid id r (d, h) =
    (All-delete (IsDrawn r.seq_counter) id r.items d, Distinct-delete id r.items h)

pub restore-IsValid :
    (before after : Repository)
    → IsValid before
    → before.seq_counter ≤ after.seq_counter
    → IsValid (restore (snapshot before) after)
unfolding restore snapshot
restore-IsValid before after (d, h) le =
    (All-widen before.seq_counter after.seq_counter before.items le d, h)

-- A state that calls of the repository lead to: `create`, `update` and `delete` with any arguments,
-- and `restore` of a snapshot that was taken in an earlier state.
pub data Reaches : Repository → Repository → Type 0 where
  here : {r : Repository} → Reaches r r
  created :
      {r q : Repository} (entity : Fields) (now : ℕ)
      → Reaches r q
      → Reaches r (create entity now q).1
  updated :
      {r q : Repository} (id : String) (patch : Fields)
      → Reaches r q
      → Reaches r (update id patch q).1
  deleted : {r q : Repository} (id : String) → Reaches r q → Reaches r (delete id q)
  restored : {r q p : Repository} → Reaches r q → Reaches q p → Reaches r (restore (snapshot q) p)
