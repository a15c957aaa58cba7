-- ===== src/Server/Handlers/Notifications/Laws.antt =====
-- The pages of an inbox.
use ascended_core.Base.{
  ℕ, zero, suc, ◌+◌, ◌-◌, ◌≤◌, ◌<◌, ◌≡◌, refl, sym, ap, subst, ◌∙◌, true, false, String, Option,
  none, some, List, [], ◌∷◌, ◌++◌, length, take, drop, length-take, length-drop, take-append-drop,
  ltb, ltb→lt, arith, min, Bool-cases, inl, inr, pos,
}
use ascended_core.Core.Value.{
  Value, Items, nil, cons, string, object, array, end, field, value_at, property, put_field,
}
use ascended_core.Core.Errors.{CoreError, Thrown}
use ascended_core.Core.Result.{Result, ok, err}
use ascended_core.Notifications.Local.{InboxItem, list_inbox}
use ascended_core.Server.World.{Surroundings, World}
use ascended_core.Server.Paging.{RequestContext, RouteResult, page_limit, with_field}
use ascended_core.Server.Paging.Laws.{IsBounded, page_limit-IsBounded}
use ascended_core.Server.Handlers.Notifications.{
  to_notification_wire, inbox_slice, next_offset, notification_items, offset_of, start_of,
  notifications_page, read_inbox, list_my_notifications,
}

-- `body.items` and `body.nextCursor`, as a client reads them
abbrev items_in : Value → Items
items_in (array items) = items
items_in _ = nil

abbrev text_in : Value → Option String
text_in (string s) = some s
text_in _ = none

abbrev pub page_items : Value → Items
page_items (object fields) = items_in (value_at "items" fields)
page_items _ = nil

abbrev pub page_next : Value → Option String
page_next (object fields) = text_in (value_at "nextCursor" fields)
page_next _ = none

abbrev pub append_items : Items → Items → Items
append_items nil vs = vs
append_items (cons u us) vs = cons u (append_items us vs)

-- what a client gathers: `none` is a client that has not come to an end yet
abbrev pub Gathered : Type 0
Gathered = Option (Result Items Thrown)

abbrev put_before : Items → Gathered → Gathered
put_before items none = none
put_before items (some (err e)) = some (err e)
put_before items (some (ok rest)) = some (ok (append_items items rest))

abbrev after_page : Result RouteResult Thrown → (String → Gathered) → Gathered
after_page (err e) go = some (err e)
after_page (ok result) go = elim (page_next result.body) [
  | none ↦ some (ok (page_items result.body))
  | some next ↦ put_before (page_items result.body) (go next)
]

drop_all : (n : ℕ) (xs : List InboxItem) → length xs ≤ n → drop n xs ≡ []
drop_all zero [] h = refl
drop_all zero (x ∷ xs) h = absurd (omega (arith, h))
drop_all (suc n) [] h = refl
drop_all (suc n) (x ∷ xs) h = drop_all n xs (omega (arith, h))

take_all : (n : ℕ) (xs : List InboxItem) → length xs ≤ n → take n xs ≡ xs
take_all zero [] h = refl
take_all zero (x ∷ xs) h = absurd (omega (arith, h))
take_all (suc n) [] h = refl
take_all (suc n) (x ∷ xs) h = ap (λ ys. x ∷ ys) (take_all n xs (omega (arith, h)))

drop-drop : (m n : ℕ) (xs : List InboxItem) → drop n (drop m xs) ≡ drop (m + n) xs
drop-drop zero n xs = ap (λ k. drop k xs) (omega arith)
drop-drop (suc m) n [] = drop_all n [] (omega arith) ∙ sym (drop_all (suc m + n) [] (omega arith))
drop-drop (suc m) n (x ∷ xs) =
    drop-drop m n xs ∙ ap (λ k. drop k (x ∷ xs)) {x = suc (m + n)} (omega arith)

slice_length :
    (start limit : ℕ) (all : List InboxItem)
    → length (take limit (drop start all)) ≡ min limit (length all - start)
slice_length start limit all =
    length-take limit (drop start all) ∙ ap (min limit) (length-drop start all)

next_more :
    (start : ℕ) (slice all : List InboxItem)
    → ltb (start + length slice) (length all) ≡ true
    → next_offset start slice all ≡ some (start + length slice)
unfolding next_offset
next_more start slice all more = rw more refl

next_over :
    (start : ℕ) (slice all : List InboxItem)
    → ltb (start + length slice) (length all) ≡ false
    → next_offset start slice all ≡ none
unfolding next_offset
next_over start slice all over = rw over refl

notification_items-append :
    (padded : ℕ → String) (account : String) (xs ys : List InboxItem) (start : ℕ)
    → append_items
        (notification_items padded account xs start)
        (notification_items padded account ys (start + length xs))
      ≡ notification_items padded account (xs ++ ys) start
unfolding notification_items
notification_items-append padded account [] ys start =
    ap (notification_items padded account ys) {x = start + zero} (omega arith)
notification_items-append padded account (x ∷ xs) ys start =
    ap (cons (object (to_notification_wire padded account x start))) (
      ap
        (λ n.
          append_items (notification_items padded account xs (suc start))
            (notification_items padded account ys n))
        {x = start + suc (length xs)} (omega arith)
      ∙ notification_items-append padded account xs ys (suc start))

module _ {W : Type 0} (env : Surroundings W) where
  -- a client that asks for the notifications, and follows the cursors of the pages, for at most so
  -- many requests
  unfoldable pub gather : ℕ → RequestContext → World W → Gathered
  gather zero ctx w = none
  gather (suc fuel) ctx w =
      let (r, w') = list_my_notifications env ctx w in
      after_page r (λ next. gather fuel (record ctx { cursor_param = some next }) w')

  listed_page :
      (ctx : RequestContext) (w : World W) (limit start : ℕ)
      → page_limit env.as_integer ctx.limit_param ≡ ok limit
      → start_of env.as_integer ctx.cursor_param ≡ ok start
      → list_my_notifications env ctx w ≡ (
        ok (
            notifications_page env ctx.account_id start limit
              (list_inbox ctx.account_id w.platform.inbox)),
        w,
      )
  unfolding list_my_notifications read_inbox
  listed_page ctx w limit start limited started = rw (limited, started) refl

  abbrev page_value : Option ℕ → Items → Value
  page_value next items = object (
      with_field "nextCursor" (elim next [ none ↦ none | some n ↦ some (string (env.decimal n)) ])
        (field "items" (array items) end))

  abbrev followed : Items → (String → Gathered) → Option ℕ → Gathered
  followed items go none = some (ok items)
  followed items go (some n) = put_before items (go (env.decimal n))

  after_page_lem :
      (next : Option ℕ) (items : Items) (go : String → Gathered)
      → after_page (ok (record { status = 200; body = page_value next items })) go
        ≡ followed items go next
  unfolding with_field put_field value_at property
  after_page_lem none items go = refl
  after_page_lem (some n) items go = refl

  gather_page :
      (fuel : ℕ) (ctx : RequestContext) (w : World W) (limit start : ℕ)
      → page_limit env.as_integer ctx.limit_param ≡ ok limit
      → start_of env.as_integer ctx.cursor_param ≡ ok start
      → let all = list_inbox ctx.account_id w.platform.inbox in
        let slice = take limit (drop start all) in
        gather (suc fuel) ctx w
        ≡ followed
            (notification_items env.padded ctx.account_id slice start)
            (λ next. gather fuel (record ctx { cursor_param = some next }) w)
            (next_offset start slice all)
  unfolding gather notifications_page inbox_slice
  gather_page fuel ctx w limit start limited started =
      let all = list_inbox ctx.account_id w.platform.inbox in
      let slice = take limit (drop start all) in
      ap
        (λ (answer : Result RouteResult Thrown × World W).
          after_page answer.0
            (λ next. gather fuel (record ctx { cursor_param = some next }) answer.1))
        (listed_page ctx w limit start limited started)
      ∙ after_page_lem (next_offset start slice all)
          (notification_items env.padded ctx.account_id slice start)
          (λ next. gather fuel (record ctx { cursor_param = some next }) w)

  module _ (reads_back : (n : ℕ) → env.as_integer (env.decimal n) ≡ some (pos n)) where
    started_at : (n : ℕ) → start_of env.as_integer (some (env.decimal n)) ≡ ok n
    unfolding start_of offset_of
    started_at n = rw (reads_back n) refl

    gather_from :
        (fuel : ℕ) (ctx : RequestContext) (w : World W) (limit start : ℕ)
        → page_limit env.as_integer ctx.limit_param ≡ ok limit
        → start_of env.as_integer ctx.cursor_param ≡ ok start
        → 0 < limit
        → let all = list_inbox ctx.account_id w.platform.inbox in
          length all < start + fuel
          → start ≤ length all
          → gather fuel ctx w
            ≡ some (ok (notification_items env.padded ctx.account_id (drop start all) start))
    gather_from zero ctx w limit start limited started positive enough within =
        absurd (omega (arith, enough, within))
    gather_from (suc fuel) ctx w limit start limited started positive enough within =
        let all = list_inbox ctx.account_id w.platform.inbox in
        let slice = take limit (drop start all) in
        let wired =
          λ (xs : List InboxItem). notification_items env.padded ctx.account_id xs start in
        let go : String → Gathered =
          λ next. gather fuel (record ctx { cursor_param = some next }) w in
        let measured = slice_length start limit all in
        gather_page fuel ctx w limit start limited started
        ∙ elim (Bool-cases (ltb (start + length slice) (length all))) [
          | inl more ↦
              let full : length slice ≡ limit =
                omega (arith, measured, ltb→lt _ _ more, positive) in
              ap (followed (wired slice) go) (next_more start slice all more)
              ∙ ap (put_before (wired slice)) (
                  gather_from fuel
                    (record ctx { cursor_param = some (env.decimal (start + length slice)) }) w
                    limit (start + length slice) limited (started_at (start + length slice))
                    positive (omega (arith, full, positive, enough))
                    (omega (arith, ltb→lt _ _ more)))
              ∙ ap (λ items. some (ok items))
                  (notification_items-append env.padded ctx.account_id slice
                      (drop (start + length slice) all) start
                    ∙ ap (λ rest. wired (slice ++ rest))
                        (ap (λ n. drop (start + n) all) full ∙ sym (drop-drop start limit all))
                    ∙ ap wired (take-append-drop limit (drop start all)))
          | inr over ↦
              ap (followed (wired slice) go) (next_over start slice all over)
              ∙ ap (λ xs. some (ok (wired xs)))
                  (take_all limit (drop start all)
                    (ground (arith, measured, over, length-drop start all)))
        ]

    bounded_positive : (r : Result ℕ CoreError) (limit : ℕ) → r ≡ ok limit → IsBounded r → 0 < limit
    bounded_positive r limit same bounded = (subst IsBounded same bounded).0

    -- Let the text of a number read back as that number, and let the limit of a request for the first
    -- page be accepted. A client that follows the cursors of the pages comes to an end within one
    -- request more than the account has notifications, and has each of them once, in order, and under
    -- the id of its place in the whole list.
    pub gather_lem :
        (fuel : ℕ) (ctx : RequestContext) (w : World W) (limit : ℕ)
        → page_limit env.as_integer ctx.limit_param ≡ ok limit
        → ctx.cursor_param ≡ none
        → length (list_inbox ctx.account_id w.platform.inbox) < fuel
        → gather fuel ctx w
          ≡ some (
              ok (
                notification_items env.padded ctx.account_id
                  (list_inbox ctx.account_id w.platform.inbox)
                  0))
    unfolding start_of
    gather_lem fuel ctx w limit limited first enough =
        gather_from fuel ctx w limit 0 limited (ap (start_of env.as_integer) first)
          (bounded_positive _ limit limited (page_limit-IsBounded env.as_integer ctx.limit_param))
          (omega (arith, enough)) (omega arith)
