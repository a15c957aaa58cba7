-- ===== src/Persistence/Repository/Reachable.antt =====
-- The states that the calls of a repository lead to.
use ascended_core.Base.{ℕ, ◌≤◌, String, arith, Option-cases, inl, inr}
use ascended_core.Base.Dict
use ascended_core.Core.Value.{Fields}
use ascended_core.Persistence.Repository.{Repository, create, update, delete, restore, id_of}
use ascended_core.Persistence.Repository.Invariant.{IsValid}
use ascended_core.Persistence.Repository.Operations.{
  Reaches, here, created, updated, deleted, restored, create_new, create_taken, update_missing,
  update_found, create-IsValid, update-IsValid, delete-IsValid, restore-IsValid,
}

create-counter :
    (entity : Fields) (now : ℕ) (r : Repository)
    → r.seq_counter ≤ (create entity now r).1.seq_counter
create-counter entity now r = elim (Option-cases (Dict.get (id_of entity) r.items)) [
  | inl g ↦ rw (create_new entity now r g) (omega arith)
  | inr (s, g) ↦ rw (create_taken entity now r s g) (omega arith)
]

update-counter :
    (id : String) (patch : Fields) (r : Repository)
    → r.seq_counter ≤ (update id patch r).1.seq_counter
update-counter id patch r = elim (Option-cases (Dict.get id r.items)) [
  | inl g ↦ rw (update_missing id patch r g) (omega arith)
  | inr (s, g) ↦ rw (update_found id patch r s g) (omega arith)
]

-- The counter is never set back, by a rollback neither.
reaches-counter : (r q : Repository) → Reaches r q → r.seq_counter ≤ q.seq_counter
unfolding delete restore
reaches-counter r _ here = omega arith
reaches-counter r _ (created {q = q} entity now p) =
    omega (arith, reaches-counter r q p, create-counter entity now q)
reaches-counter r _ (updated {q = q} id patch p) =
    omega (arith, reaches-counter r q p, update-counter id patch q)
reaches-counter r _ (deleted {q = q} id p) = reaches-counter r q p
reaches-counter r _ (restored {q = q} {p = p} h k) =
    omega (arith, reaches-counter r q h, reaches-counter q p k)

-- Every state that calls lead to from a valid one is valid: each entity stands under its own id, its
-- sequence number is below the counter, and no two entities have one cursor.
pub reaches-IsValid : (r q : Repository) → IsValid r → Reaches r q → IsValid q
reaches-IsValid r _ v here = v
reaches-IsValid r _ v (created {q = q} entity now p) =
    create-IsValid entity now q (reaches-IsValid r q v p)
reaches-IsValid r _ v (updated {q = q} id patch p) =
    update-IsValid id patch q (reaches-IsValid r q v p)
reaches-IsValid r _ v (deleted {q = q} id p) = delete-IsValid id q (reaches-IsValid r q v p)
reaches-IsValid r _ v (restored {q = q} {p = p} h k) =
    restore-IsValid q p (reaches-IsValid r q v h) (reaches-counter q p k)
