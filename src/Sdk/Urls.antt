-- ===== src/Sdk/Urls.antt =====
-- packages/sdk/src/client.ts: `stripTrailingSlashes` and `buildUrl`. A URL is the list of its code
-- points; `URLSearchParams` is an argument that gives the text of the parameters.
pub mod Laws
pub use ascended_core.Base.Codes.{Text, codes, same_text}
use ascended_core.Base.{
  ℕ, zero, suc, String, Bool, true, false, Option, none, some, List, [], ◌∷◌, ◌++◌, length, take,
  drop, ◌==◌, if◌then◌else◌,
}

-- `value[i] === "/"`
unfoldable pub is_slash_at : Text → ℕ → Bool
is_slash_at [] i = false
is_slash_at (c ∷ s) zero = c == b'/'
is_slash_at (c ∷ s) (suc i) = is_slash_at s i

-- the loop, from `end` down
unfoldable pub end_of : Text → ℕ → ℕ
unfolding is_slash_at
end_of value zero = zero
end_of value (suc i) =
    let earlier = end_of value i in if is_slash_at value i then earlier else suc i

unfoldable pub strip_trailing_slashes : Text → Text
unfolding end_of
strip_trailing_slashes value =
    let stop = end_of value (length value) in
    if stop == length value then value else take stop value

-- `if (value !== undefined) params.set(key, String(value))`
unfoldable pub given_params : List (String × Option String) → List (String × String)
given_params [] = []
given_params ((key, none) ∷ query) = given_params query
given_params ((key, some value) ∷ query) = (key, value) ∷ given_params query

-- `if (qs) url += …`
abbrev with_query : Text → Text → Text
with_query url [] = url
with_query url (c ∷ qs) = url ++ b'?' ∷ c ∷ qs

unfoldable pub build_url :
    (List (String × String) → Text) → Text → Text → Option (List (String × Option String)) → Text
unfolding given_params
build_url params_text base_url path none = base_url ++ path
build_url params_text base_url path (some query) =
    with_query (base_url ++ path) (params_text (given_params query))
