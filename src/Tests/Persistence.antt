-- ===== src/Tests/Persistence.antt =====
-- The repository, its pages and the unit of work at concrete inputs.
use ascended_core.Base.{
  ℕ, ◌+◌, ◌<◌, String, Option, ◌≡◌, ◌↔◌, refl, true, none, some, [], ◌∷◌, map, filter, length,
  arith,
}
use ascended_core.Base.Dict
use ascended_core.Base.Dict.{Dict}
use ascended_core.Core.Value.{number, string, Fields, end, field, text_at}
use ascended_core.Core.Errors.{js_error}
use ascended_core.Core.Result.{ok, err}
use ascended_core.Persistence.Repository.{
  Repository, Cursor, ordered, create, delete, matches_filter, sort_stored, insert_stored,
}
use ascended_core.Persistence.Repository.Filtering.{IsChronological, ordered_lem}
use ascended_core.Persistence.Repository.Matching.{Satisfies}
use ascended_core.Persistence.Repository.Paging.{HasDistinctCursors}
use ascended_core.Persistence.Repository.Invariant.{IsValid}
use ascended_core.Persistence.Repository.Operations.{here, created, deleted}
use ascended_core.Persistence.Repository.Reachable.{reaches-IsValid}
use ascended_core.Persistence.Repository.UnitOfWork.{
  Store, Callback, write_store, run_in_transaction, after_transaction, run_in_transaction_lem,
}
use ascended_core.Sdk.Pagination.{collect_all}
use ascended_core.Sdk.Pagination.Collect.{cursor_kind, repository_fetch, collect_all-find_many}
use mathlib.Core.List.{Perm}

abbrev ann : Fields
ann = field "id" (string "usr_ann") (field "age" (number 30) end)

abbrev bob : Fields
bob = field "id" (string "usr_bob") (field "age" (number 40) end)

-- two entities with one timestamp
abbrev people : Repository
people = record {
  items =
      ("usr_bob", record { value = bob; created_at = 5; seq = 1 })
      ∷ ("usr_ann", record { value = ann; created_at = 5; seq = 0 })
      ∷ [];
  seq_counter = 2;
}

abbrev patch : Fields
patch = field "id" (string "usr_eve") (field "age" (number 31) end)

people-distinct : HasDistinctCursors (Dict.values people.items)
unfolding Dict.values
people-distinct = ((refl, tt), (tt, tt))

people-IsValid : IsValid people
unfolding Dict.values text_at
people-IsValid = (((refl, omega arith), ((refl, omega arith), tt)), ((refl, tt), (tt, tt)))

-- those of the age of 40
abbrev bobs : Option Fields
bobs = some (field "age" (number 40) end)

ordered_lem_example :
    IsChronological (ordered bobs people)
    × Perm
        (ordered bobs people)
        (filter (λ s. matches_filter bobs s.value) (Dict.values people.items))
    × ((value : Fields) → (matches_filter bobs value ≡ true) ↔ Satisfies bobs value)
ordered_lem_example = ordered_lem bobs people

reaches-IsValid_example : IsValid (create bob 7 (delete "usr_bob" people)).1
reaches-IsValid_example =
    reaches-IsValid people (create bob 7 (delete "usr_bob" people)).1 people-IsValid
      (created bob 7 (deleted "usr_bob" here))

abbrev store : Store
store i = people

-- deletes an entity of the repository at 0, and then throws
abbrev deletes_and_throws : Callback ℕ ℕ
deletes_and_throws s w = (err (js_error "abort"), write_store 0 (delete "usr_ann" (s 0)) s, w + 1)

run_in_transaction_lem_example :
    ((run_in_transaction (0 ∷ []) deletes_and_throws store 0).0 ≡ err (js_error "abort"))
    × ((run_in_transaction (0 ∷ []) deletes_and_throws store 0).2 ≡ 1)
    × ((run_in_transaction (0 ∷ []) deletes_and_throws store 0).1 0
        ≡ after_transaction {T = ℕ} true people (err (js_error "abort")) (delete "usr_ann" people))
run_in_transaction_lem_example = run_in_transaction_lem (0 ∷ []) deletes_and_throws store 0 0

abbrev text_of : Cursor → String
text_of c = "cursor"

few : length (ordered none people) < 3
unfolding ordered sort_stored insert_stored matches_filter Dict.values
few = omega arith

collect_all-find_many_example :
    collect_all {W = ℕ} (cursor_kind text_of) (repository_fetch none 1 people) 3 0
    ≡ some (ok (map (λ s. s.value) (ordered none people)))
collect_all-find_many_example =
    collect_all-find_many text_of none 1 3 people 0 (omega arith) people-distinct few
