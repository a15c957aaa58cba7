-- ===== src/Server/Handlers/Communities.antt =====
-- examples/minimal-server/src/server.ts: the handlers of the communities.
use ascended_core.Base.{String, Option, none, some, pos}
use ascended_core.Core.Value.{string, array, nil, object, Fields, end, field}
use ascended_core.Persistence.Repository.{id_of}
use ascended_core.Server.Wire.{
  to_community_wire, to_membership_wire, require_object, require_string, optional_string,
  optional_metadata,
}
use ascended_core.Server.World.{
  Surroundings, Task, community_data, membership_data, ◌>>=◌, ◌>>◌, return, checked, find_entity,
  find_entities, new_id, now, create_entity, publish_event,
}
use ascended_core.Server.Paging.{
  RequestContext, RouteResult, pagination, with_field, text_value, object_value, page_body, answer,
}
use ascended_core.Server.Handlers.Profiles.{found_or_missing, first_of}

module _ {W : Type 0} (env : Surroundings W) where
  pub list_communities : RequestContext → Task W RouteResult
  list_communities ctx = do
    bounds ← checked (pagination env ctx)
    page ← find_entities community_data none bounds
    return (record { status = 200; body = page_body env.print_cursor to_community_wire page })

  pub create_community : RequestContext → Task W RouteResult
  create_community ctx = do
    body ← checked (require_object ctx.body)
    name ← checked (require_string body "name")
    description ← checked (optional_string body "description")
    metadata ← checked (optional_metadata body)
    time ← now env
    id ← new_id env "comm"
    created ← create_entity env community_data (
        with_field "metadata" (object_value metadata) (
          with_field "description" (text_value description) (
            field "id" (string id) (
              field "name" (string name) (
                field "ownerId" (string ctx.account_id)
                  (field "createdAt" (string time) (field "updatedAt" (string time) end)))))))
    return (answer 201 (to_community_wire created))

  -- the membership that is created, and its event
  pub create_membership : String → String → Task W RouteResult
  create_membership community_id account_id = do
    time ← now env
    id ← new_id env "mbr"
    created ← create_entity env membership_data (
        field "id" (string id) (
          field "communityId" (string community_id) (
            field "accountId" (string account_id) (
              field "roleIds" (array nil) (
                field "joinedAt" (string time) (
                  field "createdAt" (string time) (
                    field "updatedAt" (string time)
                      (field "metadata" (object (field "role" (string "member") end)) end))))))))
    publish_event env "community.member_joined" (
        field "communityId" (string community_id) (
          field "accountId" (string account_id)
            (field "membershipId" (string (id_of created)) (field "joinedAt" (string time) end))))
    return (answer 201 (to_membership_wire created))

  -- behind the look-up of a membership
  pub join_unless_member : String → String → Option Fields → Task W RouteResult
  unfolding create_membership
  join_unless_member community_id account_id (some already) =
      return (answer 200 (to_membership_wire already))
  join_unless_member community_id account_id none = create_membership community_id account_id

  pub join_community : String → RequestContext → Task W RouteResult
  unfolding join_unless_member
  join_community community_id ctx = do
    found ← find_entity community_data community_id
    community ← found_or_missing "community" community_id found
    existing ←
        find_entities membership_data
          (some (
            field "communityId" (string (id_of community))
              (field "accountId" (string ctx.account_id) end)))
          (record { cursor = none; limit = pos 1 })
    join_unless_member (id_of community) ctx.account_id (first_of existing)
