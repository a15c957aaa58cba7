-- ===== src/Providers/Search/Scores.antt =====
-- The scores of the hits: their bounds and their order.
use ascended_core.Base.{
  ℕ, ◌≤◌, ◌<◌, List, [], ◌∷◌, All, length, arith, leb, ltb, ltb→lt, leb→le, Bool-cases, inl, inr,
}
use ascended_core.Base.Dict
use ascended_core.Base.Dict.{Dict}
use ascended_core.Providers.Search.{
  Text, SearchHit, IndexedDocument, Docs, tokenize, score_of, collect_hits, insert_hit, sort_hits,
  search_for, query,
}

score_of_bound : (q tokens : List Text) → score_of q tokens ≤ length q
unfolding score_of
score_of_bound [] tokens = omega arith
score_of_bound (t ∷ q) tokens = ground (arith, score_of_bound q tokens)

-- the score is positive, and at most the number of the query's tokens
pub IsScored : ℕ → SearchHit → Type 0
IsScored n h = (0 < h.score) × (h.score ≤ n)

collect-IsScored :
    (q : List Text) (entries : List IndexedDocument)
    → All (IsScored (length q)) (collect_hits q entries)
unfolding collect_hits IsScored
collect-IsScored q [] = tt
collect-IsScored q (entry ∷ entries) = elim (Bool-cases (ltb 0 (score_of q entry.tokens))) [
  | inl found ↦
      rw found ((ltb→lt 0 _ found, score_of_bound q entry.tokens), collect-IsScored q entries)
  | inr missed ↦ rw missed (collect-IsScored q entries)
]

All-insert :
    (P : SearchHit → Type 0) (h : SearchHit) (hs : List SearchHit)
    → P h
    → All P hs
    → All P (insert_hit h hs)
unfolding insert_hit
All-insert P h [] p ps = (p, tt)
All-insert P h (g ∷ gs) p ps = elim (Bool-cases (leb g.score h.score)) [
  | inl before ↦ rw before (p, ps)
  | inr behind ↦ rw behind (ps.0, All-insert P h gs p ps.1)
]

All-sort : (P : SearchHit → Type 0) (hs : List SearchHit) → All P hs → All P (sort_hits hs)
unfolding sort_hits
All-sort P [] ps = tt
All-sort P (h ∷ hs) ps = All-insert P h (sort_hits hs) ps.0 (All-sort P hs ps.1)

-- no later hit has a higher score
pub IsRanked : List SearchHit → Type 0
IsRanked [] = Unit
IsRanked (h ∷ hs) = All (λ g. g.score ≤ h.score) hs × IsRanked hs

All-lower :
    (m n : ℕ) (hs : List SearchHit) → m ≤ n → All (λ g. g.score ≤ m) hs → All (λ g. g.score ≤ n) hs
All-lower m n [] le all = tt
All-lower m n (h ∷ hs) le all = (omega (arith, le, all.0), All-lower m n hs le all.1)

insert-IsRanked : (h : SearchHit) (hs : List SearchHit) → IsRanked hs → IsRanked (insert_hit h hs)
unfolding IsRanked insert_hit
insert-IsRanked h [] ranked = (tt, tt)
insert-IsRanked h (g ∷ gs) ranked = elim (Bool-cases (leb g.score h.score)) [
  | inl before ↦
      rw before
        ((leb→le _ _ before, All-lower g.score h.score gs (leb→le _ _ before) ranked.0), ranked)
  | inr behind ↦
      rw behind (All-insert _ h gs (ground (arith, behind)) ranked.0, insert-IsRanked h gs ranked.1)
]

sort-IsRanked : (hs : List SearchHit) → IsRanked (sort_hits hs)
unfolding sort_hits IsRanked
sort-IsRanked [] = tt
sort-IsRanked (h ∷ hs) = insert-IsRanked h (sort_hits hs) (sort-IsRanked hs)

search_for-IsRanked :
    (ts : List Text) (docs : Docs)
    → All (IsScored (length ts)) (search_for ts docs) × IsRanked (search_for ts docs)
unfolding search_for IsRanked
search_for-IsRanked [] docs = (tt, tt)
search_for-IsRanked (t ∷ ts) docs = (
  All-sort (IsScored (length (t ∷ ts))) _ (collect-IsScored (t ∷ ts) (Dict.values docs)),
  sort-IsRanked (collect_hits (t ∷ ts) (Dict.values docs)),
)

-- Every hit has a score of at least one and at most the number of the query's tokens, and the hits
-- come in the order of descending score.
pub query-IsRanked :
    (to_lower : Text → Text) (q : Text) (docs : Docs)
    → All (IsScored (length (tokenize to_lower q))) (query to_lower q docs)
      × IsRanked (query to_lower q docs)
unfolding query
query-IsRanked to_lower q docs = search_for-IsRanked (tokenize to_lower q) docs
