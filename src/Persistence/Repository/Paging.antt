-- ===== src/Persistence/Repository/Paging.antt =====
-- One page of the ordered entities.
use ascended_core.Base.{
  ℕ, ◌+◌, ◌<◌, ◌≡◌, ◌⊎◌, inl, inr, refl, sym, ap, ◌∙◌, false, Option, none, some, List, [], ◌∷◌,
  ◌++◌, map, length, take, drop, last, find_index, All, arith, length-append, take-append-drop, pos,
}
use mathlib.Core.List.{append-nil}
use ascended_core.Core.Value.{Fields}
use ascended_core.Core.Result.{ok}
use ascended_core.Persistence.Repository.{
  Repository, ordered, find_many, Stored, Cursor, cursor_for, same_cursor, page_of, slice_page,
  start_index, page_from,
}

-- Two stored entities have different cursors.
abbrev pub AreApart : Stored → Stored → Type 0
AreApart x y = same_cursor (cursor_for x) (cursor_for y) ≡ false

abbrev pub HasDistinctCursors : List Stored → Type 0
HasDistinctCursors [] = Unit
HasDistinctCursors (x ∷ xs) = All (AreApart x) xs × HasDistinctCursors xs

drop-append : {A : Type 0} (xs ys : List A) → drop (length xs) (xs ++ ys) ≡ ys
drop-append [] ys = refl
drop-append (x ∷ xs) ys = drop-append xs ys

-- a list is empty, or has a last item
pub last-cases :
    {A : Type 0} (xs : List A)
    → (xs ≡ []) ⊎ ((front : List A) × (s : A) × (xs ≡ front ++ s ∷ []) × (last xs ≡ some s))
last-cases [] = inl refl
last-cases (x ∷ []) = inr ([], x, refl, refl)
last-cases (x ∷ y ∷ xs) = elim (last-cases (y ∷ xs)) [
  | inl e ↦ cc
  | inr (front, s, e, l) ↦ inr (x ∷ front, s, ap (λ r. x ∷ r) e, l)
]

All-apart-middle :
    (x : Stored) (xs : List Stored) (s : Stored) (ys : List Stored)
    → All (AreApart x) (xs ++ s ∷ ys)
    → AreApart x s
All-apart-middle x [] s ys h = h.0
All-apart-middle x (y ∷ xs) s ys h = All-apart-middle x xs s ys h.1

-- what stands in front of an entity has other cursors
pub apart_before :
    (xs : List Stored) (s : Stored) (ys : List Stored)
    → HasDistinctCursors (xs ++ s ∷ ys)
    → All (λ x. AreApart x s) xs
apart_before [] s ys h = tt
apart_before (x ∷ xs) s ys (a, h) = (All-apart-middle x xs s ys a, apart_before xs s ys h)

find_index-middle :
    (xs : List Stored) (s : Stored) (ys : List Stored)
    → All (λ x. AreApart x s) xs
    → find_index (λ x. same_cursor (cursor_for x) (cursor_for s)) (xs ++ s ∷ ys) ≡ some (length xs)
find_index-middle [] s ys h = ground arith
find_index-middle (x ∷ xs) s ys (a, h) = ground (arith, find_index-middle xs s ys h)

-- The cursor of an entity continues right behind it.
pub start_index-middle :
    (xs : List Stored) (s : Stored) (ys : List Stored)
    → HasDistinctCursors (xs ++ s ∷ ys)
    → start_index (xs ++ s ∷ ys) (some (cursor_for s)) ≡ ok (length xs + 1)
unfolding start_index
start_index-middle xs s ys h = rw (find_index-middle xs s ys (apart_before xs s ys h), start_index)

take_of_drop-nil : {A : Type 0} (n : ℕ) (xs : List A) → drop n xs ≡ [] → take n xs ≡ xs
take_of_drop-nil n xs h = sym (append-nil (take n xs)) ∙ (rw (← h) (take-append-drop n xs))

page_of_end :
    (slice : List Stored) (start : ℕ)
    → page_of slice start (start + length slice)
      ≡ record { items = map (λ s. s.value) slice; next_cursor = none }
unfolding page_of
page_of_end slice start = elim (last-cases slice) [
  | inl e ↦ rw e
  | inr (front, s, e, l) ↦ rw l (ground arith)
]

page_of_more :
    (slice : List Stored) (start total : ℕ) (s : Stored)
    → last slice ≡ some s
    → start + length slice < total
    → page_of slice start total
      ≡ record { items = map (λ s. s.value) slice; next_cursor = some (cursor_for s) }
unfolding page_of
page_of_more slice start total s l lt = rw l (ground arith)

-- The last page: what is left fits the limit.
pub slice_page_last :
    (before rest : List Stored) (limit : ℕ)
    → drop limit rest ≡ []
    → slice_page (before ++ rest) (length before) limit
      ≡ record { items = map (λ s. s.value) rest; next_cursor = none }
unfolding slice_page
slice_page_last before rest limit h =
    rw (drop-append before rest, take_of_drop-nil limit rest h, length-append)
      (page_of_end rest (length before))

-- A page with more behind it: its cursor is the one of its last entity.
pub slice_page_more :
    (before rest : List Stored) (limit : ℕ) (s : Stored)
    → last (take limit rest) ≡ some s
    → 0 < length (drop limit rest)
    → slice_page (before ++ rest) (length before) limit
      ≡ record { items = map (λ s. s.value) (take limit rest); next_cursor = some (cursor_for s) }
unfolding slice_page
slice_page_more before rest limit s end_ more = rw (drop-append before rest) (
    page_of_more (take limit rest) (length before) (length (before ++ rest)) s end_ (
      omega (
        arith,
        length-append {0} before rest,
        ap (λ (xs : List Stored). length xs) (take-append-drop limit rest),
        length-append {0} (take limit rest) (drop limit rest),
      )))

pub page_of_start :
    (all : List Stored) (cursor : Option Cursor) (start limit : ℕ)
    → start_index all cursor ≡ ok start
    → page_from all cursor limit ≡ ok (slice_page all start limit)
unfolding page_from slice_page
page_of_start all cursor start limit h = rw (h, page_from)

-- a request with a non-negative limit is a page of the ordered entities
pub find_many-page :
    (wanted : Option Fields) (cursor : Option Cursor) (limit : ℕ) (r : Repository)
    → find_many wanted (some (record { cursor = cursor; limit = pos limit })) r
      ≡ page_from (ordered wanted r) cursor limit
unfolding find_many
find_many-page wanted cursor limit r = refl

pub start_index-none : (all : List Stored) → start_index all none ≡ ok 0
unfolding start_index
start_index-none all = refl
