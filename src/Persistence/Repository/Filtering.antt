-- ===== src/Persistence/Repository/Filtering.antt =====
-- The entities that a listing orders: those that match, each once, by creation and sequence.
use mathlib.Core.List.Perm
use mathlib.Core.List.{Perm}
use ascended_core.Base.{
  ◌≡◌, ◌<◌, ◌≤◌, ◌⊎◌, ◌↔◌, inl, inr, Bool, true, false, Option, List, [], ◌∷◌, All, filter, arith,
  Bool-cases, ltb, ltb→lt,
}
use ascended_core.Base.Dict
use ascended_core.Core.Value.{Fields}
use ascended_core.Persistence.Repository.{
  Stored, Repository, in_order, insert_stored, sort_stored, ordered, matches_filter,
}
use ascended_core.Persistence.Repository.Matching.{Satisfies, matches_filter_lem}
use ascended_core.Persistence.Repository.Paging.{AreApart, HasDistinctCursors}

insert-perm : (s : Stored) (xs : List Stored) → Perm (insert_stored s xs) (s ∷ xs)
unfolding insert_stored
insert-perm s [] = Perm.refl (s ∷ [])
insert-perm s (x ∷ xs) = elim (Bool-cases (in_order s x)) [
  | inl h ↦ rw h (Perm.refl (s ∷ x ∷ xs))
  | inr h ↦ rw h (Perm.trans (Perm.cons x (insert-perm s xs)) (Perm.swap s x xs))
]

sort-perm : (xs : List Stored) → Perm (sort_stored xs) xs
unfolding sort_stored
sort-perm [] = Perm.nil
sort-perm (x ∷ xs) = Perm.trans (insert-perm x (sort_stored xs)) (Perm.cons x (sort-perm xs))

-- Each stored entity stands before the later ones by (createdAt, seq).
abbrev pub IsSorted : List Stored → Type 0
IsSorted [] = Unit
IsSorted (x ∷ xs) = All (λ y. in_order x y ≡ true) xs × IsSorted xs

in_order_trans : (x y z : Stored) → in_order x y ≡ true → in_order y z ≡ true → in_order x z ≡ true
in_order_trans x y z p q = ground arith

in_order_total : (x y : Stored) → in_order x y ≡ false → in_order y x ≡ true
in_order_total x y p = ground arith

All-in_order :
    (s x : Stored) (xs : List Stored)
    → in_order s x ≡ true
    → All (λ y. in_order x y ≡ true) xs
    → All (λ y. in_order s y ≡ true) xs
All-in_order s x [] p h = tt
All-in_order s x (y ∷ xs) p (k, h) = (in_order_trans s x y p k, All-in_order s x xs p h)

All-insert :
    (P : Stored → Type 0) (s : Stored) (xs : List Stored)
    → P s
    → All P xs
    → All P (insert_stored s xs)
unfolding insert_stored
All-insert P s [] p h = (p, tt)
All-insert P s (x ∷ xs) p (k, h) = elim (Bool-cases (in_order s x)) [
  | inl e ↦ rw e (p, (k, h))
  | inr e ↦ rw e (k, All-insert P s xs p h)
]

insert-IsSorted : (s : Stored) (xs : List Stored) → IsSorted xs → IsSorted (insert_stored s xs)
unfolding insert_stored
insert-IsSorted s [] h = (tt, tt)
insert-IsSorted s (x ∷ xs) (k, h) = elim (Bool-cases (in_order s x)) [
  | inl e ↦ rw e ((e, All-in_order s x xs e k), (k, h))
  | inr e ↦
      rw e (
        All-insert (λ y. in_order x y ≡ true) s xs (in_order_total s x e) k,
        insert-IsSorted s xs h,
      )
]

sort-IsSorted : (xs : List Stored) → IsSorted (sort_stored xs)
unfolding sort_stored
sort-IsSorted [] = tt
sort-IsSorted (x ∷ xs) = insert-IsSorted x (sort_stored xs) (sort-IsSorted xs)

-- The first entity was created before the second, or at the same time and stored no later.
abbrev pub Precedes : Stored → Stored → Type 0
Precedes x y = (x.created_at < y.created_at) ⊎ ((x.created_at ≡ y.created_at) × (x.seq ≤ y.seq))

in_order-Precedes : (x y : Stored) → in_order x y ≡ true → Precedes x y
in_order-Precedes x y h = elim (Bool-cases (ltb x.created_at y.created_at)) [
  | inl earlier ↦ inl (ltb→lt _ _ earlier)
  | inr same ↦ inr (ground (arith, h, same))
]

abbrev pub IsChronological : List Stored → Type 0
IsChronological [] = Unit
IsChronological (x ∷ xs) = All (Precedes x) xs × IsChronological xs

All-Precedes :
    (x : Stored) (xs : List Stored) → All (λ y. in_order x y ≡ true) xs → All (Precedes x) xs
All-Precedes x [] h = tt
All-Precedes x (y ∷ xs) (k, h) = (in_order-Precedes x y k, All-Precedes x xs h)

sorted-IsChronological : (xs : List Stored) → IsSorted xs → IsChronological xs
sorted-IsChronological [] h = tt
sorted-IsChronological (x ∷ xs) (k, h) = (All-Precedes x xs k, sorted-IsChronological xs h)

-- A listing holds exactly the entities that the filter accepts, each as often as it is stored, in the
-- order of their creation, and of the sequence numbers where two were created at one time. The filter
-- accepts a value that has every field that it asks for with a primitive value equal to its own; a
-- field whose value is undefined asks for nothing.
pub ordered_lem :
    (wanted : Option Fields) (r : Repository)
    → IsChronological (ordered wanted r)
      × Perm (ordered wanted r) (filter (λ s. matches_filter wanted s.value) (Dict.values r.items))
      × ((value : Fields) → (matches_filter wanted value ≡ true) ↔ Satisfies wanted value)
unfolding ordered
ordered_lem wanted r =
    let matching = filter (λ s. matches_filter wanted s.value) (Dict.values r.items) in
    (
      sorted-IsChronological (sort_stored matching) (sort-IsSorted matching),
      sort-perm matching,
      matches_filter_lem wanted,
    )

apart_sym : (x y : Stored) → AreApart x y → AreApart y x
apart_sym x y h = ground arith

insert-distinct :
    (s : Stored) (xs : List Stored)
    → All (AreApart s) xs
    → HasDistinctCursors xs
    → HasDistinctCursors (insert_stored s xs)
unfolding insert_stored
insert-distinct s [] a h = (tt, tt)
insert-distinct s (x ∷ xs) (a, as_) (k, h) = elim (Bool-cases (in_order s x)) [
  | inl e ↦ rw e ((a, as_), (k, h))
  | inr e ↦ rw e (All-insert (AreApart x) s xs (apart_sym s x a) k, insert-distinct s xs as_ h)
]

All-sort : (P : Stored → Type 0) (xs : List Stored) → All P xs → All P (sort_stored xs)
unfolding sort_stored
All-sort P [] h = tt
All-sort P (x ∷ xs) (k, h) = All-insert P x (sort_stored xs) k (All-sort P xs h)

sort-distinct : (xs : List Stored) → HasDistinctCursors xs → HasDistinctCursors (sort_stored xs)
unfolding sort_stored
sort-distinct [] h = tt
sort-distinct (x ∷ xs) (a, h) =
    insert-distinct x (sort_stored xs) (All-sort (AreApart x) xs a) (sort-distinct xs h)

All-filter :
    (P : Stored → Type 0) (p : Stored → Bool) (xs : List Stored) → All P xs → All P (filter p xs)
All-filter P p [] h = tt
All-filter P p (x ∷ xs) (k, h) = elim (Bool-cases (p x)) [
  | inl e ↦ rw e (k, All-filter P p xs h)
  | inr e ↦ rw e (All-filter P p xs h)
]

filter-distinct :
    (p : Stored → Bool) (xs : List Stored)
    → HasDistinctCursors xs
    → HasDistinctCursors (filter p xs)
filter-distinct p [] h = tt
filter-distinct p (x ∷ xs) (a, h) = elim (Bool-cases (p x)) [
  | inl e ↦ rw e (All-filter (AreApart x) p xs a, filter-distinct p xs h)
  | inr e ↦ rw e (filter-distinct p xs h)
]

pub ordered-distinct :
    (wanted : Option Fields) (r : Repository)
    → HasDistinctCursors (Dict.values r.items)
    → HasDistinctCursors (ordered wanted r)
unfolding ordered
ordered-distinct wanted r h =
    let matches = λ (s : Stored). matches_filter wanted s.value in
    sort-distinct (filter matches (Dict.values r.items))
      (filter-distinct matches (Dict.values r.items) h)
