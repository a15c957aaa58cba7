-- ===== src/Server/Handlers/Posts/Storing.antt =====
-- The wire shape and the storage of one post.
use ascended_core.Base.{
  ℕ, String, ◌≡◌, refl, sym, ap, subst, ◌∙◌, false, Option, none, some, str_eq, inl, inr,
  Option-cases,
}
use ascended_core.Base.Dict
use ascended_core.Base.Dict.Laws.{get-set_same}
use ascended_core.Core.Value.{
  Value, undefined, string, Fields, end, field, value_at, put_field, property,
}
use ascended_core.Core.Errors.{CoreError}
use ascended_core.Core.Result.{Result, ok, err}
use ascended_core.Persistence.Repository
use ascended_core.Persistence.Repository.{Repository, Stored, id_of, find_by_id}
use ascended_core.Persistence.Repository.Operations.{create_new, create_taken, stored_now}
use ascended_core.Server.Wire.{with_optional, to_post_wire, string_or_undefined, property_of}
use ascended_core.Server.World.{now}
use ascended_core.Server.Paging.{with_metadata}

-- extras that do not write the id
HasNoId : Fields → Type 0
HasNoId end = Unit
HasNoId (field key v extras) = (str_eq "id" key ≡ false) × HasNoId extras

keeps_id :
    (x : Value) (rest extras : Fields)
    → HasNoId extras
    → value_at "id" (with_optional (field "id" x rest) extras) ≡ x
unfolding HasNoId with_optional put_field value_at property
keeps_id x rest end h = refl
keeps_id x rest (field key undefined extras) h = keeps_id x rest extras h.1
keeps_id x rest (field key v extras) h = rw (h.0) (keeps_id x (put_field key v rest) extras h.1)

pub post_wire_id : (post : Fields) → value_at "id" (to_post_wire post) ≡ value_at "id" post
unfolding to_post_wire HasNoId
post_wire_id post =
    keeps_id (value_at "id" post)
      (field "authorId" (value_at "authorId" post) (
        field "content" (value_at "body" post) (field "createdAt" (value_at "createdAt" post) end)))
      (field "communityId"
        (string_or_undefined (property_of (value_at "metadata" post) "communityId"))
        (field "metadata" (value_at "metadata" post) end))
      (refl, (refl, tt))

pub metadata_keeps_id :
    (metadata : Fields) (id : String) (rest : Fields)
    → value_at "id" (with_metadata metadata (field "id" (string id) rest)) ≡ string id
unfolding with_metadata value_at property put_field
metadata_keeps_id end id rest = refl
metadata_keeps_id (field key v more) id rest = refl

-- a value that is a text
abbrev pub text_of : Value → String
text_of (string s) = s
text_of _ = ""

abbrev IsFine : Result Fields CoreError → Type 0
IsFine (ok a) = Unit
IsFine (err e) = ⊥

abbrev fields_or : Fields → Result Fields CoreError → Fields
fields_or d (ok a) = a
fields_or d (err e) = d

same_ok : (a b : Fields) → ◌≡◌ {A = Result Fields CoreError} (ok a) (ok b) → a ≡ b
same_ok a b h = ap (fields_or a) h

-- a post of an id that was free
pub find-create :
    (entity created : Fields) (now : ℕ) (r : Repository)
    → (Repository.create entity now r).0 ≡ ok created
    → (created ≡ entity)
      × (find_by_id (id_of entity) (Repository.create entity now r).1 ≡ some entity)
unfolding find_by_id
find-create entity created now r h = elim (Option-cases (Dict.get (id_of entity) r.items)) [
  | inl free ↦
      let made = create_new entity now r free in
      (
        same_ok created entity
            (sym h ∙ ap (λ (x : Result Fields CoreError × Repository). x.0) made),
        ap (λ (x : Result Fields CoreError × Repository). find_by_id (id_of entity) x.1) made
            ∙ ap (λ (o : Option Stored). elim o [ none ↦ none | some t ↦ some t.value ])
                (get-set_same (id_of entity) (stored_now entity now r) r.items),
      )
  | inr (s, taken) ↦ absurd (
      subst IsFine
        (sym h
          ∙ ap (λ (x : Result Fields CoreError × Repository). x.0)
              (create_taken entity now r s taken))
        tt)
]
