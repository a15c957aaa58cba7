-- ===== src/Router/Registry/Laws.antt =====
-- Registration replaces the provider of the same name, and keeps names distinct.
use ascended_core.Base.{
  String, ◌≡◌, ◌≢◌, refl, sym, not, Option, none, some, List, [], ◌∷◌, ◌++◌, filter, arith, str_eq,
  eq_iff, if◌then◌else◌, All, All-append,
}
use ascended_core.Core.Result.{ok}
use ascended_core.Router.Registry.{upsert_by_name}

module _ {T : Type 0} (name : T → String) where
  -- the first provider of that name
  abbrev pub find_name : String → List T → Option T
  find_name n [] = none
  find_name n (p ∷ ps) = if str_eq (name p) n then some p else find_name n ps

  abbrev pub IsAbsent : String → List T → Type 0
  IsAbsent n ps = All (λ p. name p ≢ n) ps

  abbrev pub HasDistinctNames : List T → Type 0
  HasDistinctNames [] = Unit
  HasDistinctNames (p ∷ ps) = IsAbsent (name p) ps × HasDistinctNames ps

  abbrev without : String → List T → List T
  without n = filter (λ p. not (str_eq (name p) n))

  without-IsAbsent : (n m : String) (ps : List T) → IsAbsent m ps → IsAbsent m (without n ps)
  without-IsAbsent n m [] h = tt
  without-IsAbsent n m (p ∷ ps) (k, h) = ground (arith, without-IsAbsent n m ps h)

  without_self-IsAbsent : (n : String) (ps : List T) → IsAbsent n (without n ps)
  without_self-IsAbsent n [] = tt
  without_self-IsAbsent n (p ∷ ps) = ground (arith, without_self-IsAbsent n ps, eq_iff (name p) n)

  append_last-IsAbsent :
      (m : String) (ps : List T) (q : T) → name q ≢ m → IsAbsent m ps → IsAbsent m (ps ++ q ∷ [])
  append_last-IsAbsent m ps q k h = All-append (λ p. name p ≢ m) ps (q ∷ []) h (k, tt)

  append_last-distinct :
      (ps : List T) (q : T)
      → HasDistinctNames ps
      → IsAbsent (name q) ps
      → HasDistinctNames (ps ++ q ∷ [])
  append_last-distinct [] q h k = (tt, tt)
  append_last-distinct (p ∷ ps) q (a, h) (k, ks) =
      (append_last-IsAbsent (name p) ps q (λ e. k (sym e)) a, append_last-distinct ps q h ks)

  without-distinct :
      (n : String) (ps : List T) → HasDistinctNames ps → HasDistinctNames (without n ps)
  without-distinct n [] h = tt
  without-distinct n (p ∷ ps) (a, h) =
      ground (arith, without-distinct n ps h, without-IsAbsent n (name p) ps a)

  find-append_last :
      (n : String) (ps : List T) (q : T)
      → find_name n (without (name q) ps ++ q ∷ [])
        ≡ (if str_eq (name q) n then some q else find_name n ps)
  find-append_last n [] q = refl
  find-append_last n (p ∷ ps) q = ground (
    arith,
    find-append_last n ps q,
    eq_iff (name p) (name q),
    eq_iff (name p) n,
    eq_iff (name q) n,
  )

  -- Registering a named provider keeps the names distinct; a lookup of its name then finds it, and a
  -- lookup of any other name finds what it found before.
  pub upsert_by_name_lem :
      (ps : List T) (q : T)
      → name q ≢ ""
      → HasDistinctNames ps
      → (list : List T) × (upsert_by_name name ps q ≡ ok list)
        × HasDistinctNames list
        × ((n : String) → find_name n list ≡ (if str_eq (name q) n then some q else find_name n ps))
  unfolding upsert_by_name
  upsert_by_name_lem ps q named h = (
    without (name q) ps ++ q ∷ [],
    ground (arith, eq_iff (name q) ""),
    append_last-distinct (without (name q) ps) q (without-distinct (name q) ps h)
        (without_self-IsAbsent (name q) ps),
    λ n. find-append_last n ps q,
  )
