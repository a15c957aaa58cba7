-- ===== src/Providers/Search.antt =====
-- packages/providers/src/search.ts. A text is the list of its code points, and `toLowerCase` an
-- argument; a set of tokens is the list of its members in the order they were added.
pub mod Laws
pub mod Scores
pub use ascended_core.Base.Codes.{Text, same_text}
use ascended_core.Base.{
  ℕ, suc, String, Bool, true, false, ◌&&◌, ◌||◌, Option, none, some, List, [], ◌∷◌, ◌++◌, any,
  length, leb, ltb, ◌==◌, if◌then◌else◌,
}
use ascended_core.Base.Dict
use ascended_core.Base.Dict.{Dict}
use ascended_core.Core.Value.{Metadata}

pub record SearchDocument : Type 0 where
  pub id : String
  pub text : Text
  pub metadata : Option Metadata

pub record SearchHit : Type 0 where
  pub id : String
  pub score : ℕ
  pub metadata : Option Metadata

pub record IndexedDocument : Type 0 where
  pub doc : SearchDocument
  pub tokens : List Text

abbrev pub Docs : Type 0
Docs = Dict IndexedDocument

-- [a-z0-9]
abbrev is_token_char : ℕ → Bool
is_token_char c = leb b'a' c && leb c b'z' || leb b'0' c && leb c b'9'

-- `split(/[^a-z0-9]+/u)` and the filter of the empty pieces: the maximal runs of token characters,
-- the first of which goes on with what was read before
unfoldable pub runs : Text → Text → List Text
runs [] [] = []
runs (b ∷ before) [] = (b ∷ before) ∷ []
runs before (c ∷ s) =
    let inside = runs (before ++ c ∷ []) s in
    let outside = runs [] s in
    if is_token_char c then inside else elim before [ [] ↦ outside | b ∷ bs ↦ (b ∷ bs) ∷ outside ]

-- `tokens.has`
unfoldable pub has_token : Text → List Text → Bool
has_token t tokens = any (λ u. same_text u t) tokens

-- `new Set(…)`: a member that is there keeps its place
unfoldable pub to_set : List Text → List Text → List Text
unfolding has_token
to_set seen [] = seen
to_set seen (t ∷ ts) = if has_token t seen then to_set seen ts else to_set (seen ++ t ∷ []) ts

module _ (to_lower : Text → Text) where
  unfoldable pub tokenize : Text → List Text
  tokenize text = to_set [] (runs [] (to_lower text))

  unfoldable pub index : SearchDocument → Docs → Docs
  index doc docs = Dict.set doc.id (record { doc = doc; tokens = tokenize doc.text }) docs

-- `remove`
unfoldable pub remove_doc : String → Docs → Docs
remove_doc id docs = Dict.delete id docs

-- how many of the query's tokens the document has
unfoldable pub score_of : List Text → List Text → ℕ
unfolding has_token
score_of [] tokens = 0
score_of (t ∷ ts) tokens =
    let rest = score_of ts tokens in if has_token t tokens then suc rest else rest

pub hit_of : ℕ → IndexedDocument → SearchHit
hit_of score entry = record { id = entry.doc.id; score = score; metadata = entry.doc.metadata }

-- the hits, in the order of the index
unfoldable pub collect_hits : List Text → List IndexedDocument → List SearchHit
unfolding score_of hit_of
collect_hits query [] = []
collect_hits query (entry ∷ entries) =
    let rest = collect_hits query entries in
    let score = score_of query entry.tokens in
    if ltb 0 score then hit_of score entry ∷ rest else rest

-- the stable sort by descending score
unfoldable pub insert_hit : SearchHit → List SearchHit → List SearchHit
insert_hit h [] = h ∷ []
insert_hit h (g ∷ gs) =
    let rest = insert_hit h gs in if leb g.score h.score then h ∷ g ∷ gs else g ∷ rest

unfoldable pub sort_hits : List SearchHit → List SearchHit
unfolding insert_hit
sort_hits [] = []
sort_hits (h ∷ hs) = insert_hit h (sort_hits hs)

-- behind the tokens of the query
unfoldable pub search_for : List Text → Docs → List SearchHit
unfolding collect_hits sort_hits
search_for [] docs = []
search_for (t ∷ ts) docs = sort_hits (collect_hits (t ∷ ts) (Dict.values docs))

unfoldable pub query : (Text → Text) → Text → Docs → List SearchHit
unfolding tokenize search_for
query to_lower q docs = search_for (tokenize to_lower q) docs
