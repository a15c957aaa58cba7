-- ===== src/Server/Paging.antt =====
-- examples/minimal-server/src/server.ts: the request's context, the page of a request, and the
-- helpers of the handlers.
pub mod Laws
use ascended_core.Base.{
  ℕ, min, String, Option, none, some, List, map, ℤ, pos, negsuc, ltb, if◌then◌else◌, [], ◌∷◌,
}
use ascended_core.Core.Value.{
  Value, Items, nil, cons, string, object, array, Fields, end, field, put_field,
}
use ascended_core.Core.Errors.{CoreError}
use ascended_core.Core.Result.{Result, ok, err}
use ascended_core.Persistence.Repository.{Cursor, CursorPagination, Page}
use ascended_core.Server.Wire.{invalid}
use ascended_core.Server.World.{Surroundings}

-- of the URL, the handlers read two search parameters
pub record RequestContext : Type 0 where
  pub method : String
  pub limit_param : Option String
  pub cursor_param : Option String
  pub account_id : String
  pub body : Value

pub record RouteResult : Type 0 where
  pub status : ℕ
  pub body : Value

abbrev default_page_limit : ℕ
default_page_limit = 20

abbrev pub max_page_limit : ℕ
max_page_limit = 100

-- what `Number(limitParam)` gives: no integer, or one
unfoldable pub limit_of : Option ℤ → Result ℕ CoreError
limit_of (some (pos n)) =
    if ltb 0 n then ok (min n max_page_limit) else err (invalid "limit must be a positive integer")
limit_of _ = err (invalid "limit must be a positive integer")

unfoldable pub page_limit : (String → Option ℤ) → Option String → Result ℕ CoreError
unfolding limit_of
page_limit as_integer none = ok default_page_limit
page_limit as_integer (some text) = limit_of (as_integer text)

-- `pagination`, for the repositories
unfoldable pub pagination :
    {W : Type 0} → Surroundings W → RequestContext → Result CursorPagination CoreError
unfolding page_limit
pagination env ctx = elim (page_limit env.as_integer ctx.limit_param) [
  | err e ↦ err e
  | ok limit ↦ ok (record {
    cursor = elim ctx.cursor_param [ none ↦ none | some c ↦ some (env.read_cursor c) ];
    limit = pos limit;
  })
]

-- `...(value !== undefined ? { key: value } : {})`
unfoldable pub with_field : String → Option Value → Fields → Fields
with_field key none fields = fields
with_field key (some v) fields = put_field key v fields

abbrev pub text_value : Option String → Option Value
text_value none = none
text_value (some s) = some (string s)

abbrev pub object_value : Option Fields → Option Value
object_value none = none
object_value (some fields) = some (object fields)

-- `...(Object.keys(metadata).length > 0 ? { metadata } : {})`
unfoldable pub with_metadata : Fields → Fields → Fields
with_metadata end fields = fields
with_metadata (field key v more) fields = put_field "metadata" (object (field key v more)) fields

unfoldable pub items_of : List Fields → Items
items_of [] = nil
items_of (f ∷ fs) = cons (object f) (items_of fs)

-- the body of a list operation
unfoldable pub page_body : (Cursor → String) → (Fields → Fields) → Page Fields Cursor → Value
unfolding items_of with_field
page_body print_cursor wire page = object (
    with_field "nextCursor"
      (elim page.next_cursor [ none ↦ none | some c ↦ some (string (print_cursor c)) ])
      (field "items" (array (items_of (map wire page.items))) end))

abbrev pub answer : ℕ → Fields → RouteResult
answer status body = record { status = status; body = object body }
