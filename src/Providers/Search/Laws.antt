-- ===== src/Providers/Search/Laws.antt =====
-- Which documents a query finds.
use ascended_core.Base.{
  String, ◌≡◌, refl, sym, ap, ◌∙◌, Bool, false, ◌||◌, ◌&&◌, subst, eq_iff, Option, none, some, List,
  [], ◌∷◌, any, arith, leb, ltb, str_eq, if◌then◌else◌, Bool-cases, inl, inr,
}
use ascended_core.Base.Dict
use ascended_core.Base.Dict.{Dict}
use ascended_core.Base.Dict.Laws.{IsMap, set-IsMap, get-set_same}
use ascended_core.Providers.Search.{
  Text, SearchHit, SearchDocument, IndexedDocument, Docs, tokenize, has_token, score_of, hit_of,
  collect_hits, insert_hit, sort_hits, search_for, query, index,
}

-- a hit for the document is in the list
abbrev pub has_hit : String → List SearchHit → Bool
has_hit id hits = any (λ (h : SearchHit). str_eq h.id id) hits

has_hit-insert :
    (id : String) (h : SearchHit) (hs : List SearchHit)
    → has_hit id (insert_hit h hs) ≡ (str_eq h.id id || has_hit id hs)
unfolding insert_hit
has_hit-insert id h [] = refl
has_hit-insert id h (g ∷ gs) = elim (Bool-cases (leb g.score h.score)) [
  | inl before ↦ rw before refl
  | inr behind ↦ rw behind (ground (arith, has_hit-insert id h gs))
]

has_hit-sort : (id : String) (hs : List SearchHit) → has_hit id (sort_hits hs) ≡ has_hit id hs
unfolding sort_hits
has_hit-sort id [] = refl
has_hit-sort id (h ∷ hs) =
    has_hit-insert id h (sort_hits hs) ∙ ap (λ b. str_eq h.id id || b) (has_hit-sort id hs)

-- the document's keys are its ids, as `index` stores it
unfoldable pub IsKeyed : Docs → Type 0
IsKeyed [] = Unit
IsKeyed ((k, e) ∷ m) = (k ≡ e.doc.id) × IsKeyed m

score_positive :
    (q tokens : List Text) → ltb 0 (score_of q tokens) ≡ any (λ t. has_token t tokens) q
unfolding score_of
score_positive [] tokens = refl
score_positive (t ∷ q) tokens = ground (arith, score_positive q tokens)

-- the document shares a token with the query
abbrev pub is_hit : List Text → Option IndexedDocument → Bool
is_hit q none = false
is_hit q (some e) = any (λ t. has_token t e.tokens) q

no_hit : (o : Option IndexedDocument) → is_hit [] o ≡ false
no_hit none = refl
no_hit (some e) = refl

has_hit_cons :
    (q : List Text) (id : String) (e : IndexedDocument) (es : List IndexedDocument)
    → has_hit id (collect_hits q (e ∷ es))
      ≡ (str_eq e.doc.id id && is_hit q (some e) || has_hit id (collect_hits q es))
unfolding collect_hits hit_of
has_hit_cons q id e es =
    ap
      (λ b.
        has_hit id
          (if b then hit_of (score_of q e.tokens) e ∷ collect_hits q es else collect_hits q es))
      (score_positive q e.tokens)
    ∙ (elim (Bool-cases (is_hit q (some e))) [
      | inl found ↦ rw found (ground arith)
      | inr missed ↦ rw missed (ground arith)
    ])

absent_hit :
    (q : List Text) (id : String) (docs : Docs)
    → IsKeyed docs
    → Dict.get id docs ≡ none
    → has_hit id (collect_hits q (Dict.values docs)) ≡ false
unfolding IsKeyed Dict.get Dict.values collect_hits
absent_hit q id [] keyed h = refl
absent_hit q id ((k, e) ∷ m) keyed h =
    let other : str_eq k id ≡ false = ground (arith, h) in
    let rest : Dict.get id m ≡ none = ground (arith, h) in
    has_hit_cons q id e (Dict.values m)
    ∙ (rw (sym (ap (λ i. str_eq i id) keyed.0) ∙ other, absent_hit q id m keyed.1 rest) refl)

has_hit-collect :
    (q : List Text) (id : String) (docs : Docs)
    → IsMap docs
    → IsKeyed docs
    → has_hit id (collect_hits q (Dict.values docs)) ≡ is_hit q (Dict.get id docs)
unfolding IsMap IsKeyed Dict.get Dict.values collect_hits
has_hit-collect q id [] distinct keyed = refl
has_hit-collect q id ((k, e) ∷ m) distinct keyed =
    has_hit_cons q id e (Dict.values m)
    ∙ ap (λ b. b && is_hit q (some e) || has_hit id (collect_hits q (Dict.values m)))
        (ap (λ i. str_eq i id) (sym keyed.0))
    ∙ (elim (Bool-cases (str_eq k id)) [
      | inl same ↦ rw same (
          rw
            (subst (λ i. has_hit i (collect_hits q (Dict.values m)) ≡ false) ((eq_iff k id).0 same)
              (absent_hit q k m keyed.1 distinct.0))
            (ground arith))
      | inr differ ↦ rw differ (has_hit-collect q id m distinct.1 keyed.1)
    ])

search_for_hit :
    (ts : List Text) (id : String) (docs : Docs)
    → IsMap docs
    → IsKeyed docs
    → has_hit id (search_for ts docs) ≡ is_hit ts (Dict.get id docs)
unfolding search_for
search_for_hit [] id docs distinct keyed = sym (no_hit (Dict.get id docs))
search_for_hit (t ∷ ts) id docs distinct keyed =
    has_hit-sort id (collect_hits (t ∷ ts) (Dict.values docs))
    ∙ has_hit-collect (t ∷ ts) id docs distinct keyed

-- In an index whose entries stand under the ids of their documents, as `index` stores them, a query
-- finds a document exactly when the document has a token of the query.
pub has_hit-query :
    (to_lower : Text → Text) (q : Text) (id : String) (docs : Docs)
    → IsMap docs
    → IsKeyed docs
    → has_hit id (query to_lower q docs) ≡ is_hit (tokenize to_lower q) (Dict.get id docs)
unfolding query
has_hit-query to_lower q id docs distinct keyed =
    search_for_hit (tokenize to_lower q) id docs distinct keyed

set-IsKeyed :
    (k : String) (e : IndexedDocument) (docs : Docs)
    → k ≡ e.doc.id
    → IsKeyed docs
    → IsKeyed (Dict.set k e docs)
unfolding IsKeyed Dict.set
set-IsKeyed k e [] own keyed = (own, tt)
set-IsKeyed k e ((j, d) ∷ m) own keyed = elim (Bool-cases (str_eq j k)) [
  | inl same ↦ rw same ((eq_iff j k).0 same ∙ own, keyed.1)
  | inr differ ↦ rw differ (keyed.0, set-IsKeyed k e m own keyed.1)
]

-- A document that is indexed is found by exactly the queries that share a token with its text,
-- whatever was stored under its id before, in an index whose entries stand under their own ids.
pub has_hit-query-index :
    (to_lower : Text → Text) (doc : SearchDocument) (q : Text) (docs : Docs)
    → IsMap docs
    → IsKeyed docs
    → has_hit doc.id (query to_lower q (index to_lower doc docs))
      ≡ any (λ t. has_token t (tokenize to_lower doc.text)) (tokenize to_lower q)
unfolding index
has_hit-query-index to_lower doc q docs distinct keyed =
    let entry : IndexedDocument = record { doc = doc; tokens = tokenize to_lower doc.text } in
    has_hit-query to_lower q doc.id (Dict.set doc.id entry docs)
      (set-IsMap doc.id entry docs distinct) (set-IsKeyed doc.id entry docs refl keyed)
    ∙ ap (is_hit (tokenize to_lower q)) (get-set_same doc.id entry docs)
