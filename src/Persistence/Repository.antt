-- ===== src/Persistence/Repository.antt =====
-- packages/persistence/src/repository.ts and in-memory.ts. An entity is a plain object with an `id`.
-- A timestamp is a number, in the order of the ISO-8601 texts, and a cursor is the pair that its
-- text joins; the clock's value is an argument of `create`.
pub mod Filtering
pub mod Invariant
pub mod Matching
pub mod Operations
pub mod Reachable
pub mod Paging
pub mod UnitOfWork
use ascended_core.Base.{
  ℕ, ◌+◌, String, str_append, Bool, true, false, ◌&&◌, ◌||◌, not, Option, none, some, List, [], ◌∷◌,
  map, length, take, drop, last, filter, find_index, ltb, leb, ◌==◌, str_eq, if◌then◌else◌, ℤ, pos,
  negsuc,
}
use ascended_core.Base.Dict
use ascended_core.Base.Dict.{Dict}
use ascended_core.Core.Value.{
  Value, undefined, null, boolean, number, string, array, object, instance_of, Fields, end, field,
  text_at, value_at, put_field, spread,
}
use ascended_core.Core.Errors.{CoreError, core_error, validation, conflict, not_found}
use ascended_core.Core.Result.{Result, ok, err}

pub record Stored : Type 0 where
  pub value : Fields
  pub created_at : ℕ
  pub seq : ℕ

pub record Cursor : Type 0 where
  pub created_at : ℕ
  pub seq : ℕ

pub record CursorPagination : Type 0 where
  pub cursor : Option Cursor
  pub limit : ℤ

pub record Page {ℓ κ} (A : Type ℓ) (K : Type κ) : Type (ℓ ⊔ κ) where
  pub items : List A
  pub next_cursor : Option K

pub record Repository : Type 0 where
  pub items : Dict Stored
  pub seq_counter : ℕ

abbrev pub empty_repository : Repository
empty_repository = record { items = []; seq_counter = 0 }

-- `entity.id`
abbrev pub id_of : Fields → String
id_of value = text_at "id" value

unfoldable pub find_by_id : String → Repository → Option Fields
find_by_id id r = elim (Dict.get id r.items) [ none ↦ none | some stored ↦ some stored.value ]

-- `value[key] === expected`; a stored object is a clone, so it is never the one of a filter
pub strict_equal : Value → Value → Bool
strict_equal undefined undefined = true
strict_equal null null = true
strict_equal (boolean true) (boolean true) = true
strict_equal (boolean false) (boolean false) = true
strict_equal (number m) (number n) = m == n
strict_equal (string s) (string t) = str_eq s t
strict_equal _ _ = false

-- `if (expected === undefined) continue`
pub is_undefined : Value → Bool
is_undefined undefined = true
is_undefined _ = false

pub matches_fields : Fields → Fields → Bool
unfolding strict_equal is_undefined
matches_fields value end = true
matches_fields value (field key expected rest) =
    (is_undefined expected || strict_equal (value_at key value) expected)
    && matches_fields value rest

unfoldable pub matches_filter : Option Fields → Fields → Bool
unfolding matches_fields
matches_filter none value = true
matches_filter (some wanted) value = matches_fields value wanted

abbrev pub cursor_for : Stored → Cursor
cursor_for s = record { created_at = s.created_at; seq = s.seq }

abbrev pub same_cursor : Cursor → Cursor → Bool
same_cursor a b = a.created_at == b.created_at && a.seq == b.seq

-- `compareStored(a, b) <= 0`
abbrev pub in_order : Stored → Stored → Bool
in_order a b = ltb a.created_at b.created_at || a.created_at == b.created_at && leb a.seq b.seq

unfoldable pub insert_stored : Stored → List Stored → List Stored
insert_stored s [] = s ∷ []
insert_stored s (x ∷ xs) = if in_order s x then s ∷ x ∷ xs else x ∷ insert_stored s xs

-- `.sort(compareStored)`, which is stable
unfoldable pub sort_stored : List Stored → List Stored
unfolding insert_stored
sort_stored [] = []
sort_stored (x ∷ xs) = insert_stored x (sort_stored xs)

unfoldable pub ordered : Option Fields → Repository → List Stored
unfolding sort_stored
ordered wanted r = sort_stored (filter (λ s. matches_filter wanted s.value) (Dict.values r.items))

-- the page of a slice, and the cursor behind it
pub page_of : List Stored → ℕ → ℕ → Page Fields Cursor
page_of slice start total = record {
  items = map (λ s. s.value) slice;
  next_cursor = elim (last slice) [
    | none ↦ none
    | some s ↦ if ltb (start + length slice) total then some (cursor_for s) else none
  ];
}

-- `ordered.slice(startIndex, startIndex + limit)`
pub slice_page : List Stored → ℕ → ℕ → Page Fields Cursor
slice_page all start limit = page_of (take limit (drop start all)) start (length all)

-- `startIndex`
pub start_index : List Stored → Option Cursor → Result ℕ CoreError
start_index all none = ok 0
start_index all (some cursor) = elim (find_index (λ s. same_cursor (cursor_for s) cursor) all) [
  | none ↦ err (core_error validation "unknown pagination cursor")
  | some i ↦ ok (i + 1)
]

pub page_from : List Stored → Option Cursor → ℕ → Result (Page Fields Cursor) CoreError
unfolding page_of slice_page start_index
page_from all cursor limit = elim (start_index all cursor) [
  | err e ↦ err e
  | ok start ↦ ok (slice_page all start limit)
]

abbrev negative_limit : CoreError
negative_limit = core_error validation "pagination.limit must be non-negative"

pub find_many :
    Option Fields → Option CursorPagination → Repository → Result (Page Fields Cursor) CoreError
unfolding ordered page_from
find_many wanted none r = page_from (ordered wanted r) none (length (ordered wanted r))
find_many wanted (some p) r = elim p.limit [
  | pos limit ↦ page_from (ordered wanted r) p.cursor limit
  | negsuc n ↦ err negative_limit
]

unfoldable pub create : Fields → ℕ → Repository → Result Fields CoreError × Repository
create entity now r =
    if Dict.has (id_of entity) r.items
    then (err (core_error conflict (str_append "entity already exists: " (id_of entity))), r)
    else (
      ok entity,
      record {
        items =
            Dict.set (id_of entity)
              (record { value = entity; created_at = now; seq = r.seq_counter }) r.items;
        seq_counter = r.seq_counter + 1;
      },
    )

-- `{ ...stored.value, ...patch, id: stored.value.id }`
pub patched : Fields → Fields → Fields
patched value patch = put_field "id" (value_at "id" value) (spread value patch)

pub update : String → Fields → Repository → Result Fields CoreError × Repository
unfolding patched
update id patch r = elim (Dict.get id r.items) [
  | none ↦ (err (core_error not_found (str_append "entity not found: " id)), r)
  | some stored ↦ (
    ok (patched stored.value patch),
    record r { items = Dict.set id (record stored { value = patched stored.value patch }) r.items },
  )
]

pub delete : String → Repository → Repository
delete id r = record r { items = Dict.delete id r.items }

-- `snapshot` copies the entries, `restore` puts them back
pub snapshot : Repository → Dict Stored
snapshot r = r.items

pub restore : Dict Stored → Repository → Repository
restore entries r = record r { items = entries }
