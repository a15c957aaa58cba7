-- ===== src/Server/Paging/Laws.antt =====
-- The bounds of a page.
use ascended_core.Base.{
  ℕ, ◌≤◌, ◌<◌, String, Option, none, some, ℤ, pos, negsuc, ltb, arith, Bool-cases, inl, inr, ltb→lt,
}
use ascended_core.Core.Errors.{CoreError}
use ascended_core.Core.Result.{Result, ok, err}
use ascended_core.Server.Paging.{limit_of, page_limit, max_page_limit}

-- the limit of a page, unless the request is refused
abbrev pub IsBounded : Result ℕ CoreError → Type 0
IsBounded (err e) = Unit
IsBounded (ok n) = (0 < n) × (n ≤ max_page_limit)

limit_of-IsBounded : (n : Option ℤ) → IsBounded (limit_of n)
unfolding limit_of
limit_of-IsBounded none = tt
limit_of-IsBounded (some (negsuc n)) = tt
limit_of-IsBounded (some (pos n)) = elim (Bool-cases (ltb 0 n)) [
  | inl positive ↦ rw positive (omega (arith, ltb→lt 0 n positive), omega arith)
  | inr zero_limit ↦ rw zero_limit tt
]

-- Whatever the request asks for, a page that is not refused has a limit of at least 1 and at most
-- 100.
pub page_limit-IsBounded :
    (as_integer : String → Option ℤ) (asked : Option String)
    → IsBounded (page_limit as_integer asked)
unfolding page_limit
page_limit-IsBounded as_integer none = (omega arith, omega arith)
page_limit-IsBounded as_integer (some text) = limit_of-IsBounded (as_integer text)
