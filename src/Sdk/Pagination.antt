-- ===== src/Sdk/Pagination.antt =====
-- packages/sdk/src/pagination.ts. A fetcher acts on a world and may throw; cursors are of any type
-- with an equality, a test for the empty one and a text. The endless loop takes fuel.
pub mod Collect
use ascended_core.Base.{
  ℕ, zero, suc, String, str_append, Bool, true, false, Option, none, some, List, [], ◌∷◌, ◌++◌, any,
  if◌then◌else◌,
}
use ascended_core.Core.Errors.{Thrown, js_error}
use ascended_core.Core.Result.{Result, ok, err}
use ascended_core.Persistence.Repository.{Page}

pub record CursorKind (K : Type 0) : Type 0 where
  pub same : K → K → Bool
  pub is_empty : K → Bool
  pub text : K → String

-- how the generator ends, if the fuel suffices
pub data Ending : Type 0 where
  finished out_of_fuel : Ending
  threw : Thrown → Ending

abbrev pub PageFetcher : Type 0 → Type 0 → Type 0 → Type 0
PageFetcher W A K = Option K → W → Result (Page A K) Thrown × W

module _ {W A K : Type 0} (kind : CursorKind K) (fetch : PageFetcher W A K) where
  abbrev repeated : K → Thrown
  repeated next = js_error (
      str_append "paginateAll detected a repeated cursor \""
        (str_append (kind.text next) "\"; aborting to avoid an infinite loop."))

  -- the items of a page in front of what follows
  abbrev yield_items : List A → (List A × Ending) × W → (List A × Ending) × W
  yield_items items ((rest, ending), w) = ((items ++ rest, ending), w)

  -- behind the items of a page
  abbrev follow :
      List K → (K → List K → W → (List A × Ending) × W) → Option K → W → (List A × Ending) × W
  follow seen again none w = (([], finished), w)
  follow seen again (some next) w =
      let rest = again next (next ∷ seen) w in
      if kind.is_empty next
      then (([], finished), w)
      else if any (λ k. kind.same k next) seen
      then (([], threw (repeated next)), w)
      else rest

  abbrev after_fetch :
      List K
      → (K → List K → W → (List A × Ending) × W)
      → Result (Page A K) Thrown
      → W
      → (List A × Ending) × W
  after_fetch seen again (err e) w = (([], threw e), w)
  after_fetch seen again (ok page) w = yield_items page.items (follow seen again page.next_cursor w)

  pub paginate_from : ℕ → Option K → List K → W → (List A × Ending) × W
  paginate_from zero cursor seen w = (([], out_of_fuel), w)
  paginate_from (suc fuel) cursor seen w =
      let (r, w') = fetch cursor w in
      after_fetch seen (λ next seen' v. paginate_from fuel (some next) seen' v) r w'

  paginate_all : ℕ → W → (List A × Ending) × W
  unfolding paginate_from
  paginate_all fuel = paginate_from fuel none []

  -- `collectAll`: the items, or what the generator threw; `none` if the fuel ran out
  pub collect_all : ℕ → W → Option (Result (List A) Thrown)
  unfolding paginate_all
  collect_all fuel w = elim (paginate_all fuel w).0.1 [
    | finished ↦ some (ok (paginate_all fuel w).0.0)
    | out_of_fuel ↦ none
    | threw e ↦ some (err e)
  ]
