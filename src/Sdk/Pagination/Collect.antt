-- ===== src/Sdk/Pagination/Collect.antt =====
-- Walking the pages of a repository.
use ascended_core.Base.{
  ℕ, zero, suc, ◌<◌, ◌≡◌, inl, inr, refl, sym, ap, subst, ◌∙◌, Bool, true, false, Option, none,
  some, pos, List, [], ◌∷◌, ◌++◌, map, any, length, take, drop, last, All, arith, length-append,
  length-take, length-drop, take-append-drop, String, ◌||◌,
}
use mathlib.Core.Path.{fun_ext}
use ascended_core.Base.Dict
use mathlib.Core.List.{append_assoc, append-nil, map-append}
use ascended_core.Core.Value.{Fields}
use ascended_core.Core.Errors.{Thrown, CoreError, core}
use ascended_core.Core.Result.{Result, ok, err}
use ascended_core.Persistence.Repository.{
  Stored, Cursor, Page, Repository, cursor_for, same_cursor, slice_page, start_index, page_from,
  ordered, find_many,
}
use ascended_core.Persistence.Repository.Paging.{
  AreApart, HasDistinctCursors, last-cases, apart_before, start_index-middle, page_of_start,
  find_many-page, start_index-none, slice_page_last, slice_page_more,
}
use ascended_core.Persistence.Repository.Filtering.{ordered-distinct}
use ascended_core.Sdk.Pagination.{
  CursorKind, PageFetcher, Ending, finished, paginate_from, collect_all,
}

-- the cursor of one of the entities
abbrev IsCursorOf : List Stored → Cursor → Type 0
IsCursorOf xs k = any (λ x. same_cursor (cursor_for x) k) xs ≡ true

any-append : (p : Stored → Bool) (xs ys : List Stored) → any p (xs ++ ys) ≡ (any p xs || any p ys)
any-append p [] ys = refl
any-append p (x ∷ xs) ys = ground (arith, any-append p xs ys)

not_seen_one :
    (before : List Stored) (s : Stored) (k : Cursor)
    → All (λ x. AreApart x s) before
    → IsCursorOf before k
    → same_cursor k (cursor_for s) ≡ false
not_seen_one [] s k h e = cc
not_seen_one (x ∷ before) s k (a, h) e = ground (arith, not_seen_one before s k h)

not_seen :
    (before : List Stored) (s : Stored) (seen : List Cursor)
    → All (λ x. AreApart x s) before
    → All (IsCursorOf before) seen
    → any (λ k. same_cursor k (cursor_for s)) seen ≡ false
not_seen before s [] h c = refl
not_seen before s (k ∷ seen) h (e, c) =
    ground (arith, not_seen_one before s k h e, not_seen before s seen h c)

still_seen :
    (before more : List Stored) (seen : List Cursor)
    → All (IsCursorOf before) seen
    → All (IsCursorOf (before ++ more)) seen
still_seen before more [] c = tt
still_seen before more (k ∷ seen) (e, c) = (
  ground (arith, any-append (λ x. same_cursor (cursor_for x) k) before more),
  still_seen before more seen c,
)

last_seen : (before : List Stored) (s : Stored) → IsCursorOf (before ++ s ∷ []) (cursor_for s)
last_seen before s =
    ground (arith, any-append (λ x. same_cursor (cursor_for x) (cursor_for s)) before (s ∷ []))

-- A fetcher over the ordered entities, as `findMany` answers it.
abbrev pub cursor_kind : (Cursor → String) → CursorKind Cursor
cursor_kind text = record { same = same_cursor; is_empty = λ k. false; text = text }

abbrev as_thrown : Result (Page Fields Cursor) CoreError → Result (Page Fields Cursor) Thrown
as_thrown (ok page) = ok page
as_thrown (err e) = err (core e)

-- the parts of the list, around the last entity of a page
regroup :
    {A : Type 0} (before rest front : List A) (limit : ℕ) (s : A)
    → take limit rest ≡ front ++ s ∷ []
    → before ++ rest ≡ (before ++ front) ++ s ∷ drop limit rest
regroup before rest front limit s taken =
    ap (λ xs. before ++ xs)
      (sym (take-append-drop limit rest)
        ∙ ap (λ xs. xs ++ drop limit rest) taken
        ∙ append_assoc front (s ∷ []) (drop limit rest))
    ∙ sym (append_assoc before front (s ∷ drop limit rest))

next_start :
    (all before rest front : List Stored) (limit : ℕ) (s : Stored)
    → HasDistinctCursors all
    → all ≡ before ++ rest
    → take limit rest ≡ front ++ s ∷ []
    → (start_index all (some (cursor_for s)) ≡ ok (length (before ++ take limit rest)))
      × All (λ x. AreApart x s) (before ++ front)
next_start all before rest front limit s distinct e taken =
    let whole : all ≡ (before ++ front) ++ s ∷ drop limit rest =
      e ∙ regroup before rest front limit s taken in
    let apart = subst HasDistinctCursors whole distinct in
    (
      rw (whole, start_index-middle (before ++ front) s (drop limit rest) apart)
          (ap ok (
            omega (
              arith,
              length-append {0} before front,
              length-append {0} before (take limit rest),
              ap (λ (xs : List Stored). length xs) taken,
              length-append {0} front (s ∷ []),
            ))),
      apart_before (before ++ front) s (drop limit rest) apart,
    )

All-front : (P : Stored → Type 0) (xs ys : List Stored) → All P (xs ++ ys) → All P xs
All-front P [] ys h = tt
All-front P (x ∷ xs) ys (k, h) = (k, All-front P xs ys h)

module _ {W : Type 0} (text : Cursor → String) (all : List Stored) (limit : ℕ)
    (positive : 0 < limit) (distinct : HasDistinctCursors all) where
  abbrev walk : ℕ → Option Cursor → List Cursor → W → (List Fields × Ending) × W
  walk = paginate_from (cursor_kind text) (λ cursor w. (as_thrown (page_from all cursor limit), w))

  -- the last page ends the walk
  last_page :
      (fuel : ℕ) (before rest : List Stored) (cursor : Option Cursor) (seen : List Cursor) (w : W)
      → all ≡ before ++ rest
      → start_index all cursor ≡ ok (length before)
      → drop limit rest ≡ []
      → walk (suc fuel) cursor seen w ≡ ((map (λ s. s.value) rest, finished), w)
  unfolding paginate_from
  last_page fuel before rest cursor seen w e start done =
      let page =
        page_of_start all cursor (length before) limit start
        ∙ ap (λ xs. ok (slice_page xs (length before) limit)) e
        ∙ ap ok (slice_page_last before rest limit done) in
      rw page (rw append-nil)

  -- a page with more behind it goes on with its cursor
  more_pages :
      (fuel : ℕ) (before rest : List Stored) (cursor : Option Cursor) (seen : List Cursor) (w : W)
      (s : Stored)
      → all ≡ before ++ rest
      → start_index all cursor ≡ ok (length before)
      → last (take limit rest) ≡ some s
      → 0 < length (drop limit rest)
      → any (λ k. same_cursor k (cursor_for s)) seen ≡ false
      → walk fuel (some (cursor_for s)) (cursor_for s ∷ seen) w
        ≡ ((map (λ s. s.value) (drop limit rest), finished), w)
      → walk (suc fuel) cursor seen w ≡ ((map (λ s. s.value) rest, finished), w)
  unfolding paginate_from
  more_pages fuel before rest cursor seen w s e start end_ left new follows =
      let page =
        page_of_start all cursor (length before) limit start
        ∙ ap (λ xs. ok (slice_page xs (length before) limit)) e
        ∙ ap ok (slice_page_more before rest limit s end_ left) in
      rw (page, new, follows) (rw (← map-append) (rw take-append-drop))

  walk_rest :
      (fuel : ℕ) (before rest : List Stored) (cursor : Option Cursor) (seen : List Cursor) (w : W)
      → length rest < fuel
      → all ≡ before ++ rest
      → start_index all cursor ≡ ok (length before)
      → All (IsCursorOf before) seen
      → walk fuel cursor seen w ≡ ((map (λ s. s.value) rest, finished), w)
  walk_rest zero before rest cursor seen w lt e start c = absurd (omega arith)
  walk_rest (suc fuel) before rest cursor seen w lt e start c =
      elim (last-cases (drop limit rest)) [
        | inl done ↦ last_page fuel before rest cursor seen w e start done
        | inr (xs, y, more, _) ↦
            let left : 0 < length (drop limit rest) =
              omega
                (arith, ap (λ (zs : List Stored). length zs) more, length-append {0} xs (y ∷ [])) in
            elim (last-cases (take limit rest)) [
              | inl empty ↦ absurd (
                  omega (
                    arith,
                    ap (λ (zs : List Stored). length zs) empty,
                    length-take {0} limit rest,
                    length-drop {0} limit rest,
                  ))
              | inr (front, s, taken, end_) ↦
                  let (start', apart) = next_start all before rest front limit s distinct e taken in
                  more_pages fuel before rest cursor seen w s e start end_ left
                    (not_seen before s seen (All-front (λ x. AreApart x s) before front apart) c)
                    (walk_rest fuel (before ++ take limit rest) (drop limit rest)
                      (some (cursor_for s)) (cursor_for s ∷ seen) w
                      (omega (arith, length-drop {0} limit rest))
                      (e
                        ∙ ap (λ xs. before ++ xs) (sym (take-append-drop limit rest))
                        ∙ sym (append_assoc before (take limit rest) (drop limit rest)))
                      start'
                      (
                        rw (taken, ← append_assoc) (last_seen (before ++ front) s),
                        still_seen before (take limit rest) seen c,
                      ))
            ]
      ]

-- `(cursor) => repository.findMany(filter, { limit, cursor })`
abbrev pub repository_fetch :
    {W : Type 0} → Option Fields → ℕ → Repository → PageFetcher W Fields Cursor
repository_fetch wanted limit r cursor w =
    (as_thrown (find_many wanted (some (record { cursor = cursor; limit = pos limit })) r), w)

fetch-page :
    {W : Type 0} (wanted : Option Fields) (limit : ℕ) (r : Repository)
    → ◌≡◌ {A = PageFetcher W Fields Cursor}
        (repository_fetch wanted limit r)
        (λ cursor w. (as_thrown (page_from (ordered wanted r) cursor limit), w))
fetch-page wanted limit r =
    fun_ext
      λ cursor. fun_ext λ w. ap (λ page. (as_thrown page, w)) (find_many-page wanted cursor limit r)

-- a generator that finished is collected
collect_all-finished :
    {W : Type 0} (kind : CursorKind Cursor) (fetch : PageFetcher W Fields Cursor) (fuel : ℕ) (w : W)
    (xs : List Fields)
    → paginate_from kind fetch fuel none [] w ≡ ((xs, finished), w)
    → collect_all kind fetch fuel w ≡ some (ok xs)
unfolding collect_all
collect_all-finished kind fetch fuel w xs h = rw (h, collect_all) (ap (λ r. some (ok r.0.0)) h)

-- Collecting every page of a listing gives each matching entity once, in the order of the listing,
-- with any positive limit: no cursor is refused or repeated, and one round more than there are
-- entities is enough.
pub collect_all-find_many :
    {W : Type 0} (text : Cursor → String) (wanted : Option Fields) (limit fuel : ℕ) (r : Repository)
    (w : W)
    → 0 < limit
    → HasDistinctCursors (Dict.values r.items)
    → length (ordered wanted r) < fuel
    → collect_all (cursor_kind text) (repository_fetch wanted limit r) fuel w
      ≡ some (ok (map (λ s. s.value) (ordered wanted r)))
collect_all-find_many text wanted limit fuel r w positive distinct enough =
    ap (λ fetch. collect_all (cursor_kind text) fetch fuel w) (fetch-page wanted limit r)
    ∙ collect_all-finished (cursor_kind text) _ fuel w (map (λ s. s.value) (ordered wanted r)) (
        walk_rest text (ordered wanted r) limit positive (ordered-distinct wanted r distinct) fuel
          [] (ordered wanted r) none [] w enough refl (start_index-none (ordered wanted r)) tt)
