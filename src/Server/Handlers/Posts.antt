-- ===== src/Server/Handlers/Posts.antt =====
-- examples/minimal-server/src/server.ts: the handlers of the posts and their reactions.
pub mod Storing
pub mod Laws
use ascended_core.Base.{String, Option, none, some, List, [], ◌∷◌}
use ascended_core.Core.Value.{string, Fields, end, field, text_at, put_field}
use ascended_core.Persistence.Repository.{id_of}
use ascended_core.Notifications.Preferences.{in_app, DeliveryAttempt}
use ascended_core.Notifications.Service
use ascended_core.Server.Wire.{
  to_post_wire, to_reaction_wire, require_object, require_string, optional_string,
  optional_metadata,
}
use ascended_core.Server.World.{
  Surroundings, Task, post_data, reaction_data, ◌>>=◌, ◌>>◌, return, checked, find_entity,
  find_entities, new_id, now, create_entity, publish_event, notification_ports,
}
use ascended_core.Server.Paging.{
  RequestContext, RouteResult, pagination, with_field, with_metadata, object_value, page_body,
  answer,
}
use ascended_core.Server.Handlers.Profiles.{found_or_missing}

-- `optionalMetadata(body) ?? {}`, and the entry that is added to it
unfoldable pub metadata_with : String → Option String → Option Fields → Fields
metadata_with key none none = end
metadata_with key none (some metadata) = metadata
metadata_with key (some text) none = field key (string text) end
metadata_with key (some text) (some metadata) = put_field key (string text) metadata

unfoldable pub get_post : {W : Type 0} → String → Task W RouteResult
get_post post_id = do
  found ← find_entity post_data post_id
  post ← found_or_missing "post" post_id found
  return (answer 200 (to_post_wire post))

module _ {W : Type 0} (env : Surroundings W) where
  pub list_posts : RequestContext → Task W RouteResult
  list_posts ctx = do
    bounds ← checked (pagination env ctx)
    page ← find_entities post_data none bounds
    return (record { status = 200; body = page_body env.print_cursor to_post_wire page })

  unfoldable pub create_post : RequestContext → Task W RouteResult
  create_post ctx = do
    body ← checked (require_object ctx.body)
    content ← checked (require_string body "content")
    community_id ← checked (optional_string body "communityId")
    metadata ← checked (optional_metadata body)
    time ← now env
    id ← new_id env "post"
    created ← create_entity env post_data (
        with_metadata (metadata_with "communityId" community_id metadata) (
          field "id" (string id) (
            field "authorId" (string ctx.account_id) (
              field "body" (string content) (
                field "visibility" (string "public")
                  (field "createdAt" (string time) (field "updatedAt" (string time) end)))))))
    publish_event env "content.post_published" (
        field "postId" (string (id_of created)) (
          field "authorId" (string (text_at "authorId" created))
            (field "publishedAt" (string time) end)))
    return (answer 201 (to_post_wire created))

  -- `platform.notifications.notify`
  pub notify_author : Fields → String → Task W (List DeliveryAttempt)
  notify_author post kind = Service.notify (notification_ports env) (record {
    recipient_account_id = text_at "authorId" post;
    template = "post.reaction";
    template_data = field "postId" (string (id_of post)) (field "kind" (string kind) end);
    channels = some (in_app ∷ []);
    metadata = none;
  })

  pub add_reaction : String → RequestContext → Task W RouteResult
  unfolding notify_author
  add_reaction post_id ctx = do
    found ← find_entity post_data post_id
    post ← found_or_missing "post" post_id found
    body ← checked (require_object ctx.body)
    kind ← checked (require_string body "kind")
    metadata ← checked (optional_metadata body)
    time ← now env
    id ← new_id env "react"
    created ← create_entity env reaction_data (
        with_field "metadata" (object_value metadata) (
          field "id" (string id) (
            field "targetId" (string (id_of post)) (
              field "accountId" (string ctx.account_id) (
                field "kind" (string kind)
                  (field "createdAt" (string time) (field "updatedAt" (string time) end)))))))
    notify_author post kind
    return (answer 201 (to_reaction_wire created))
