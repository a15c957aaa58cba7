-- ===== src/Server/Handlers/Posts/Laws.antt =====
-- A post that was created is read back.
use ascended_core.Base.{String, ◌≡◌, sym, ap, subst, ◌∙◌, Option, some}
use ascended_core.Core.Value.{string, Fields, end, field, value_at, text_at}
use ascended_core.Core.Errors.{Thrown}
use ascended_core.Core.Result.{Result, ok}
use ascended_core.Events.Envelope.{DomainEvent}
use ascended_core.Persistence.Repository
use ascended_core.Persistence.Repository.{Repository, Stored, id_of, find_by_id}
use ascended_core.Server.Wire.{
  to_post_wire, require_object, require_string, optional_string, optional_metadata,
}
use ascended_core.Server.World.{
  Surroundings, World, Task, post_data, ◌>>=◌, return, create_entity, publish_event, find_entity,
  checked, now, new_id,
}
use ascended_core.Server.Inversion.{bind_ok, checked_ok, checked_world, same_answer}
use ascended_core.Server.Paging.{RequestContext, RouteResult, answer, with_metadata}
use ascended_core.Server.Handlers.Profiles.{found_or_missing}
use ascended_core.Server.Handlers.Posts.{create_post, get_post, metadata_with}
use ascended_core.Server.Handlers.Posts.Storing.{
  post_wire_id, metadata_keeps_id, find-create, text_of,
}

module _ {W : Type 0} (env : Surroundings W)
    (bus_keeps : (e : DomainEvent) (w : World W)
      → (env.publish e w).1.platform.posts ≡ w.platform.posts)
    (ids_keep : (prefix : String) (w : World W)
      → (env.create_id prefix w).1.platform.posts ≡ w.platform.posts) where
  publish_keeps :
      (type : String) (payload : Fields) (w : World W)
      → (publish_event env type payload w).1.platform.posts ≡ w.platform.posts
  unfolding publish_event
  publish_keeps type payload w = bus_keeps _ _ ∙ ids_keep "idem" _ ∙ ids_keep "evt" w

  -- the end of `create_post`
  abbrev reply : Fields → Unit {0} → Task W RouteResult
  reply created u = return (answer 201 (to_post_wire created))

  abbrev announce : (Fields → Fields) → Fields → Task W RouteResult
  announce payload created =
      publish_event env "content.post_published" (payload created) >>= reply created

  abbrev store_post : Fields → (Fields → Fields) → Task W RouteResult
  store_post entity payload = create_entity env post_data entity >>= announce payload

  create_entity_ok :
      (entity created : Fields) (w : World W)
      → (create_entity env post_data entity w).0 ≡ ok created
      → (created ≡ entity)
        × (find_by_id (id_of entity) (create_entity env post_data entity w).1.platform.posts
            ≡ some entity)
  unfolding create_entity
  create_entity_ok entity created w made =
      let (r, p) = Repository.create entity (env.now_ms w) w.platform.posts in
      let (same, found) =
        find-create entity created (env.now_ms w) w.platform.posts (checked_ok r _ created made) in
      (
        same,
        ap (λ (v : World W). find_by_id (id_of entity) v.platform.posts) (checked_world r _)
            ∙ found,
      )

  announce_keeps :
      (payload : Fields → Fields) (created : Fields) (w w2 : World W) (result : RouteResult)
      → announce payload created w ≡ (ok result, w2)
      → (result ≡ answer 201 (to_post_wire created)) × (w2.platform.posts ≡ w.platform.posts)
  announce_keeps payload created w w2 result h =
      let (u, published, last) =
        bind_ok (publish_event env "content.post_published" (payload created)) (reply created) w
          result w2 h in
      (
        sym (
            same_answer (answer 201 (to_post_wire created)) result
              (ap (λ (x : Result RouteResult Thrown × World W). x.0) last)),
        sym (ap (λ (x : Result RouteResult Thrown × World W). x.1.platform.posts) last)
            ∙ publish_keeps "content.post_published" (payload created) w,
      )

  store_post_lem :
      (entity : Fields) (payload : Fields → Fields) (w w2 : World W) (result : RouteResult)
      → store_post entity payload w ≡ (ok result, w2)
      → (result ≡ answer 201 (to_post_wire entity))
        × (find_by_id (id_of entity) w2.platform.posts ≡ some entity)
  store_post_lem entity payload w w2 result h =
      let (created, made, rest) =
        bind_ok (create_entity env post_data entity) (announce payload) w result w2 h in
      let (same, found) = create_entity_ok entity created w made in
      let (answered, kept) =
        announce_keeps payload created (create_entity env post_data entity w).1 w2 result rest in
      (
        answered ∙ ap (λ (e : Fields). answer 201 (to_post_wire e)) same,
        ap (λ (p : Repository). find_by_id (id_of entity) p) kept ∙ found,
      )

  -- what is read back
  get_post_found :
      (id : String) (post : Fields) (w : World W)
      → find_by_id id w.platform.posts ≡ some post
      → get_post id w ≡ (ok (answer 200 (to_post_wire post)), w)
  unfolding get_post find_entity
  get_post_found id post w h =
      ap
        (λ (o : Option Fields).
          (found_or_missing "post" id o >>= λ p. return (answer 200 (to_post_wire p))) w)
        h

  -- the stages of `create_post`
  abbrev new_post :
      RequestContext → String → Option String → Option Fields → String → String → Fields
  new_post ctx content community_id metadata time id =
      with_metadata (metadata_with "communityId" community_id metadata) (
        field "id" (string id) (
          field "authorId" (string ctx.account_id) (
            field "body" (string content) (
              field "visibility" (string "public")
                (field "createdAt" (string time) (field "updatedAt" (string time) end))))))

  abbrev published : String → Fields → Fields
  published time created = field "postId" (string (id_of created)) (
      field "authorId" (string (text_at "authorId" created))
        (field "publishedAt" (string time) end))

  abbrev stored : RequestContext → String → Option String → Option Fields → Task W RouteResult
  stored ctx content community_id metadata = now env >>= λ time. new_id env "post" >>= λ id.
      store_post (new_post ctx content community_id metadata time id) (published time)

  abbrev with_community : RequestContext → Fields → String → Option String → Task W RouteResult
  with_community ctx body content community_id =
      checked (optional_metadata body) >>= stored ctx content community_id

  abbrev with_content : RequestContext → Fields → String → Task W RouteResult
  with_content ctx body content =
      checked (optional_string body "communityId") >>= with_community ctx body content

  abbrev with_body : RequestContext → Fields → Task W RouteResult
  with_body ctx body = checked (require_string body "content") >>= with_content ctx body

  new_post_id :
      (ctx : RequestContext) (content : String) (community_id : Option String)
      (metadata : Option Fields) (time id : String)
      → value_at "id" (new_post ctx content community_id metadata time id) ≡ string id
  new_post_id ctx content community_id metadata time id =
      metadata_keeps_id (metadata_with "communityId" community_id metadata) id _

  stored_lem :
      (ctx : RequestContext) (content : String) (community_id : Option String)
      (metadata : Option Fields) (w w2 : World W) (result : RouteResult)
      → stored ctx content community_id metadata w ≡ (ok result, w2)
      → (id : String) × (fields : Fields) × (result ≡ answer 201 fields)
        × (value_at "id" fields ≡ string id)
        × (get_post id w2 ≡ (ok (answer 200 fields), w2))
  unfolding text_at
  stored_lem ctx content community_id metadata w w2 result h =
      let id = (env.create_id "post" w).0 in
      let entity = new_post ctx content community_id metadata (env.now_iso w) id in
      let named : value_at "id" entity ≡ string id =
        new_post_id ctx content community_id metadata (env.now_iso w) id in
      let (answered, found) =
        store_post_lem entity (published (env.now_iso w)) (env.create_id "post" w).1 w2 result h in
      (
        id,
        to_post_wire entity,
        answered,
        post_wire_id entity ∙ named,
        get_post_found id entity w2
            (subst (λ i. find_by_id i w2.platform.posts ≡ some entity) (ap text_of named) found),
      )

  -- Where the bus and the making of ids leave the posts alone, a post that is created is answered
  -- with 201 and its wire shape, and reading the id of that shape back gives the same shape.
  pub get_post-create_post :
      (ctx : RequestContext) (w w2 : World W) (result : RouteResult)
      → create_post env ctx w ≡ (ok result, w2)
      → (id : String) × (fields : Fields) × (result ≡ answer 201 fields)
        × (value_at "id" fields ≡ string id)
        × (get_post id w2 ≡ (ok (answer 200 fields), w2))
  unfolding create_post
  get_post-create_post ctx w w2 result h =
      let (body, e1, h1) =
        bind_ok (checked (require_object ctx.body)) (with_body ctx) w result w2 h in
      let (content, e2, h2) =
        bind_ok (checked (require_string body "content")) (with_content ctx body) _ result w2 h1 in
      let (community_id, e3, h3) =
        bind_ok (checked (optional_string body "communityId")) (with_community ctx body content) _
          result w2 h2 in
      let (metadata, e4, h4) =
        bind_ok (checked (optional_metadata body)) (stored ctx content community_id) _ result w2
          h3 in
      stored_lem ctx content community_id metadata _ w2 result h4
