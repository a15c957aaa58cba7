-- ===== src/Persistence/Repository/UnitOfWork.antt =====
-- packages/persistence/src/in-memory.ts, `InMemoryUnitOfWork`. The repositories are objects that the
-- callback may change through any reference: they stand in a store, and the unit of work holds
-- their references. The callback gets the store and the rest of the world.
use ascended_core.Base.{
  ℕ, ◌≡◌, refl, Bool, true, false, List, [], ◌∷◌, map, any, arith, ◌==◌, ==_iff, if◌then◌else◌,
  Bool-cases, inl, inr,
}
use ascended_core.Base.Dict.{Dict}
use ascended_core.Core.Result.{Result, ok, err}
use ascended_core.Core.Errors.{Thrown}
use ascended_core.Persistence.Repository.{Repository, Stored, snapshot, restore}
use ascended_core.Persistence.Repository.Invariant.{IsValid}
use ascended_core.Persistence.Repository.Operations.{Reaches, here, restored}
use ascended_core.Persistence.Repository.Reachable.{reaches-IsValid}

abbrev pub Store : Type 0
Store = ℕ → Repository

abbrev pub Callback {ℓ κ} : Type ℓ → Type κ → Type (ℓ ⊔ κ)
Callback W T = Store → W → Result T Thrown × Store × W

abbrev pub write_store : ℕ → Repository → Store → Store
write_store at r store i = if i == at then r else store i

-- `this.repositories.map((repo) => repo.snapshot())`
abbrev take_snapshots : Store → List ℕ → List (ℕ × Dict Stored)
take_snapshots store repositories = map (λ at. (at, snapshot (store at))) repositories

-- `repo.restore(snapshot)` for each repository, in the order of the list
restore_all : List (ℕ × Dict Stored) → Store → Store
restore_all [] store = store
restore_all ((at, entries) ∷ rest) store =
    restore_all rest (write_store at (restore entries (store at)) store)

-- what the `try` and the `catch` make of the callback's outcome
settle {ℓ κ} :
    {W : Type ℓ} {T : Type κ}
    → List ℕ
    → Store
    → Result T Thrown × Store × W
    → Result T Thrown × Store × W
unfolding restore_all
settle repositories store (ok x, store', w) = (ok x, store', w)
settle repositories store (err e, store', w) =
    (err e, restore_all (take_snapshots store repositories) store', w)

pub run_in_transaction {ℓ κ} : {W : Type ℓ} {T : Type κ} → List ℕ → Callback W T → Callback W T
unfolding settle
run_in_transaction repositories fn store w = settle repositories store (fn store w)

restore_all_lem :
    (before store : Store) (repositories : List ℕ) (i : ℕ)
    → restore_all (take_snapshots before repositories) store i ≡ (
        if any (λ at. at == i) repositories
        then record (store i) { items = (before i).items }
        else store i)
unfolding restore_all restore snapshot
restore_all_lem before store [] i = refl
restore_all_lem before store (at ∷ rest) i =
    rw
      (restore_all_lem before (write_store at (restore (snapshot (before at)) (store at)) store)
        rest i)
      (elim (Bool-cases (i == at)) [
        | inl e ↦
            let same : i ≡ at = (==_iff i at).0 e in
            let test : (at == at) ≡ true = (==_iff at at).1 refl in
            rw (same, test)
              (elim (Bool-cases (any (λ j. j == at) rest)) [
                | inl t ↦ rw t refl
                | inr t ↦ rw t refl
              ])
        | inr e ↦
            let test : (at == i) ≡ false = ground (arith, ==_iff i at, ==_iff at i) in
            rw (e, test) refl
      ])

-- a repository behind a transaction, by the callback's outcome: its entries of before, if it is held
-- and the callback threw, with the counter that the callback left
abbrev pub after_transaction {κ} :
    {T : Type κ} → Bool → Repository → Result T Thrown → Repository → Repository
after_transaction held before (ok x) after = after
after_transaction held before (err e) after =
    if held then record after { items = before.items } else after

settle_lem :
    {W T : Type 0} (repositories : List ℕ) (store : Store) (o : Result T Thrown × Store × W) (i : ℕ)
    → (settle repositories store o).0 ≡ o.0
      × ((settle repositories store o).2 ≡ o.2)
      × ((settle repositories store o).1 i
          ≡ after_transaction (any (λ at. at == i) repositories) (store i) o.0 (o.1 i))
unfolding settle
settle_lem repositories store (ok x, store', w) i = (refl, refl, refl)
settle_lem repositories store (err e, store', w) i =
    (refl, refl, restore_all_lem store store' repositories i)

-- A transaction that succeeds keeps what its callback did, and one that throws passes the error on
-- and gives every repository it holds its entries of before, however often and through whatever
-- reference the callback changed it; the sequence counter and every other repository stay as the
-- callback left them.
pub run_in_transaction_lem :
    {W T : Type 0} (repositories : List ℕ) (fn : Callback W T) (store : Store) (w : W) (i : ℕ)
    → ((run_in_transaction repositories fn store w).0 ≡ (fn store w).0)
      × ((run_in_transaction repositories fn store w).2 ≡ (fn store w).2)
      × ((run_in_transaction repositories fn store w).1 i
          ≡ after_transaction
              (any (λ at. at == i) repositories)
              (store i)
              (fn store w).0
              ((fn store w).1 i))
unfolding run_in_transaction
run_in_transaction_lem repositories fn store w i = settle_lem repositories store (fn store w) i

after_transaction-Reaches :
    {T : Type 0} (held : Bool) (before after : Repository) (r : Result T Thrown)
    → Reaches before after
    → Reaches before (after_transaction held before r after)
unfolding restore snapshot
after_transaction-Reaches held before after (ok x) h = h
after_transaction-Reaches true before after (err e) h = restored here h
after_transaction-Reaches false before after (err e) h = h

-- A transaction whose callback calls a repository any number of times leaves it valid, whether it
-- commits or rolls back.
pub run_in_transaction-IsValid :
    {W T : Type 0} (repositories : List ℕ) (fn : Callback W T) (store : Store) (w : W) (i : ℕ)
    → IsValid (store i)
    → Reaches (store i) ((fn store w).1 i)
    → IsValid ((run_in_transaction repositories fn store w).1 i)
run_in_transaction-IsValid repositories fn store w i valid calls =
    rw ((run_in_transaction_lem repositories fn store w i).2) (
      reaches-IsValid (store i) _ valid (
        after_transaction-Reaches (any (λ at. at == i) repositories) (store i) ((fn store w).1 i)
          (fn store w).0 calls))
