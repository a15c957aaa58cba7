-- ===== src/Persistence/Repository/Invariant.antt =====
-- The invariant of a repository, and what changes of a Map of entities do to its parts.
use ascended_core.Base.{
  ℕ, ◌<◌, ◌≤◌, ◌≡◌, inl, inr, refl, ap, ◌∙◌, String, none, some, [], ◌∷◌, All, arith, str_eq,
  eq_iff, eq_refl, Bool-cases,
}
use ascended_core.Base.Dict
use ascended_core.Base.Dict.{Dict, dict_laws, get-set, get-delete}
use ascended_core.Core.Value.{
  Value, Fields, end, field, property, text_at, value_at, put_field, spread, string,
}
use ascended_core.Persistence.Repository.{Repository, Stored, id_of, patched}
use ascended_core.Persistence.Repository.Paging.{AreApart, HasDistinctCursors}

-- An entry's key is the id of its entity, and its sequence number was drawn from the counter.
abbrev pub IsDrawn : ℕ → String × Stored → Type 0
IsDrawn n e = (id_of e.1.value ≡ e.0) × (e.1.seq < n)

-- No two entities have one cursor either.
abbrev pub IsValid : Repository → Type 0
IsValid r = All (IsDrawn r.seq_counter) r.items × HasDistinctCursors (Dict.values r.items)

pub All-set :
    (P : String × Stored → Type 0) (k : String) (s : Stored) (m : Dict Stored)
    → All P m
    → P (k, s)
    → All P (Dict.set k s m)
unfolding Dict.set
All-set P k s [] h p = (p, tt)
All-set P k s ((j, v) ∷ m) (q, h) p = elim (Bool-cases (str_eq j k)) [
  | inl e ↦ rw e (rw ((eq_iff j k).0 e) p, h)
  | inr e ↦ rw e (q, All-set P k s m h p)
]

pub All-delete :
    (P : String × Stored → Type 0) (k : String) (m : Dict Stored)
    → All P m
    → All P (Dict.delete k m)
unfolding Dict.delete
All-delete P k [] h = tt
All-delete P k ((j, v) ∷ m) (q, h) = elim (Bool-cases (str_eq j k)) [
  | inl e ↦ rw e (All-delete P k m h)
  | inr e ↦ rw e (q, All-delete P k m h)
]

property-put_field : (k : String) (v : Value) (fs : Fields) → property k (put_field k v fs) ≡ some v
unfolding property put_field
property-put_field k v end = ground (arith, eq_refl k)
property-put_field k v (field j w fs) =
    ground (arith, eq_refl k, eq_iff j k, property-put_field k v fs)

value_at-put_field : (k : String) (v : Value) (fs : Fields) → value_at k (put_field k v fs) ≡ v
unfolding value_at
value_at-put_field k v fs = rw (property-put_field k v fs, value_at) refl

-- an update keeps the id
pub id_of-patched : (value patch : Fields) → id_of (patched value patch) ≡ id_of value
unfolding patched text_at value_at
id_of-patched value patch =
    ap (λ v. elim v [ string s ↦ s | _ ↦ "" ])
      (value_at-put_field "id" (value_at "id" value) (spread value patch))

pub All-version :
    (P : Stored → Type 0) (k : String) (s : Stored) (v : Fields) (m : Dict Stored)
    → Dict.get k m ≡ some s
    → All P (Dict.values m)
    → (P s → P (record s { value = v }))
    → All P (Dict.values (Dict.set k (record s { value = v }) m))
unfolding Dict.get Dict.set Dict.values
All-version P k s v [] g h f = ground (arith, g)
All-version P k s v ((j, w) ∷ m) g (p, h) f = elim (Bool-cases (str_eq j k)) [
  | inl e ↦ let same : w ≡ s = ground arith in rw e (f (rw (← same) p), h)
  | inr e ↦
      let later : Dict.get k m ≡ some s = ground arith in rw e (p, All-version P k s v m later h f)
]

-- a new version of an entity keeps its cursor
pub Distinct-set :
    (k : String) (s : Stored) (v : Fields) (m : Dict Stored)
    → Dict.get k m ≡ some s
    → HasDistinctCursors (Dict.values m)
    → HasDistinctCursors (Dict.values (Dict.set k (record s { value = v }) m))
unfolding Dict.get Dict.set Dict.values
Distinct-set k s v [] g h = ground (arith, g)
Distinct-set k s v ((j, w) ∷ m) g (a, h) = elim (Bool-cases (str_eq j k)) [
  | inl e ↦ let same : w ≡ s = ground arith in rw e (rw (← same) a, h)
  | inr e ↦
      let later : Dict.get k m ≡ some s = ground arith in
      rw e (All-version (AreApart w) k s v m later a (λ p. p), Distinct-set k s v m later h)
]

-- a later sequence number is another cursor
apart_later : (n : ℕ) (x s : Stored) → x.seq < n → s.seq ≡ n → AreApart x s
apart_later n x s lt e = ground (arith, lt, e)

All-set_later :
    (n : ℕ) (x : Stored) (k : String) (s : Stored) (m : Dict Stored)
    → Dict.get k m ≡ none
    → x.seq < n
    → s.seq ≡ n
    → All (AreApart x) (Dict.values m)
    → All (AreApart x) (Dict.values (Dict.set k s m))
unfolding Dict.get Dict.set Dict.values
All-set_later n x k s [] g lt e h = (apart_later n x s lt e, tt)
All-set_later n x k s ((j, w) ∷ m) g lt e (p, h) = elim (Bool-cases (str_eq j k)) [
  | inl t ↦ absurd (ground (arith, t, g))
  | inr t ↦
      let later : Dict.get k m ≡ none = ground arith in
      rw t (p, All-set_later n x k s m later lt e h)
]

pub Distinct-set_later :
    (n : ℕ) (k : String) (s : Stored) (m : Dict Stored)
    → Dict.get k m ≡ none
    → s.seq ≡ n
    → All (IsDrawn n) m
    → HasDistinctCursors (Dict.values m)
    → HasDistinctCursors (Dict.values (Dict.set k s m))
unfolding Dict.get Dict.set Dict.values
Distinct-set_later n k s [] g e d h = (tt, tt)
Distinct-set_later n k s ((j, w) ∷ m) g e ((_, lt), d) (a, h) = elim (Bool-cases (str_eq j k)) [
  | inl t ↦ absurd (ground (arith, t, g))
  | inr t ↦
      let later : Dict.get k m ≡ none = ground arith in
      rw t (All-set_later n w k s m later lt e a, Distinct-set_later n k s m later e d h)
]

All-delete-values :
    (P : Stored → Type 0) (k : String) (m : Dict Stored)
    → All P (Dict.values m)
    → All P (Dict.values (Dict.delete k m))
unfolding Dict.delete Dict.values
All-delete-values P k [] h = tt
All-delete-values P k ((j, v) ∷ m) (q, h) = elim (Bool-cases (str_eq j k)) [
  | inl e ↦ rw e (All-delete-values P k m h)
  | inr e ↦ rw e (q, All-delete-values P k m h)
]

pub Distinct-delete :
    (k : String) (m : Dict Stored)
    → HasDistinctCursors (Dict.values m)
    → HasDistinctCursors (Dict.values (Dict.delete k m))
unfolding Dict.delete Dict.values
Distinct-delete k [] h = tt
Distinct-delete k ((j, v) ∷ m) (a, h) = elim (Bool-cases (str_eq j k)) [
  | inl e ↦ rw e (Distinct-delete k m h)
  | inr e ↦ rw e (All-delete-values (AreApart v) k m a, Distinct-delete k m h)
]

pub All-widen :
    (m n : ℕ) (entries : Dict Stored) → m ≤ n → All (IsDrawn m) entries → All (IsDrawn n) entries
All-widen m n [] le h = tt
All-widen m n (e ∷ entries) le ((k, lt), h) = ((k, omega arith), All-widen m n entries le h)

pub get-IsDrawn :
    (n : ℕ) (k : String) (s : Stored) (m : Dict Stored)
    → Dict.get k m ≡ some s
    → All (IsDrawn n) m
    → (id_of s.value ≡ k) × (s.seq < n)
unfolding Dict.get
get-IsDrawn n k s [] g h = ground (arith, g)
get-IsDrawn n k s ((j, w) ∷ m) g ((i, lt), h) = elim (Bool-cases (str_eq j k)) [
  | inl e ↦ let same : w ≡ s = ground arith in rw (← same) (i ∙ (eq_iff j k).0 e, lt)
  | inr e ↦ let later : Dict.get k m ≡ some s = ground arith in get-IsDrawn n k s m later h
]
