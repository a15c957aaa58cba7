-- ===== src/Server/Handlers/Notifications.antt =====
-- examples/minimal-server/src/server.ts: the list of an account's notifications, and the wire shape
-- of one (wire.ts).
pub mod Laws
use ascended_core.Base.{
  ℕ, suc, ◌+◌, String, str_append, Option, none, some, List, [], ◌∷◌, ℤ, pos, negsuc, length, take,
  drop, ltb, if◌then◌else◌,
}
use ascended_core.Core.Value.{Value, Items, nil, cons, string, object, array, Fields, end, field}
use ascended_core.Core.Errors.{CoreError}
use ascended_core.Core.Result.{Result, ok, err}
use ascended_core.Notifications.Local.{InboxItem, list_inbox}
use ascended_core.Server.Wire.{invalid}
use ascended_core.Server.World.{Surroundings, World, Task, ◌>>=◌, return, checked}
use ascended_core.Server.Paging.{RequestContext, RouteResult, page_limit, with_field, text_value}

unfoldable pub to_notification_wire : (ℕ → String) → String → InboxItem → ℕ → Fields
to_notification_wire padded account_id item index =
    field "id" (string (str_append "ntf_" (padded index))) (
      field "accountId" (string account_id) (
        field "kind" (string item.template) (
          field "createdAt" (string item.delivered_at)
            (field "metadata" (object item.template_data) end))))

-- `slice.map((item, index) => …)`, from an index on
unfoldable pub notification_items : (ℕ → String) → String → List InboxItem → ℕ → Items
unfolding to_notification_wire
notification_items padded account_id [] index = nil
notification_items padded account_id (item ∷ items) index =
    cons (object (to_notification_wire padded account_id item index))
      (notification_items padded account_id items (suc index))

-- what `Number(page.cursor)` gives
unfoldable pub offset_of : Option ℤ → Result ℕ CoreError
offset_of (some (pos n)) = ok n
offset_of _ = err (invalid "cursor must be a non-negative integer offset")

unfoldable pub start_of : (String → Option ℤ) → Option String → Result ℕ CoreError
unfolding offset_of
start_of as_integer none = ok 0
start_of as_integer (some text) = offset_of (as_integer text)

-- `all.slice(start, start + limit)`
unfoldable pub inbox_slice : ℕ → ℕ → List InboxItem → List InboxItem
inbox_slice start limit all = take limit (drop start all)

-- the offset behind the slice, if there is more
unfoldable pub next_offset : ℕ → List InboxItem → List InboxItem → Option ℕ
next_offset start slice all =
    if ltb (start + length slice) (length all) then some (start + length slice) else none

module _ {W : Type 0} (env : Surroundings W) where
  unfoldable pub notifications_page : String → ℕ → ℕ → List InboxItem → RouteResult
  unfolding inbox_slice next_offset notification_items
  notifications_page account_id start limit all =
      let slice = inbox_slice start limit all in
      record {
        status = 200;
        body = object (
            with_field "nextCursor"
              (elim (next_offset start slice all) [
                | none ↦ none
                | some n ↦ some (string (env.decimal n))
              ])
              (field "items" (array (notification_items env.padded account_id slice start)) end));
      }

  read_inbox : String → Task W (List InboxItem)
  read_inbox account_id w = (ok (list_inbox account_id w.platform.inbox), w)

  pub list_my_notifications : RequestContext → Task W RouteResult
  unfolding notifications_page read_inbox start_of
  list_my_notifications ctx = do
    all ← read_inbox ctx.account_id
    limit ← checked (page_limit env.as_integer ctx.limit_param)
    start ← checked (start_of env.as_integer ctx.cursor_param)
    return (notifications_page ctx.account_id start limit all)
