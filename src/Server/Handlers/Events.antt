-- ===== src/Server/Handlers/Events.antt =====
-- examples/minimal-server/src/server.ts: the handlers of the events and their RSVPs.
use ascended_core.Base.{String, Option, none, some, pos, str_eq, if◌then◌else◌}
use ascended_core.Core.Value.{string, Fields, end, field}
use ascended_core.Core.Errors.{CoreError}
use ascended_core.Core.Result.{Result, ok, err}
use ascended_core.Persistence.Repository.{id_of}
use ascended_core.Server.Wire.{
  to_event_wire, to_rsvp_wire, require_object, require_string, optional_string, optional_metadata,
  invalid,
}
use ascended_core.Server.World.{
  Surroundings, Task, event_data, rsvp_data, ◌>>=◌, ◌>>◌, return, checked, find_entity,
  find_entities, new_id, now, create_entity, update_entity, publish_event,
}
use ascended_core.Server.Paging.{
  RequestContext, RouteResult, pagination, with_field, with_metadata, object_value, page_body,
  answer,
}
use ascended_core.Server.Handlers.Profiles.{found_or_missing, first_of}
use ascended_core.Server.Handlers.Posts.{metadata_with}

-- the values of `RsvpStatus` are the texts that are read
unfoldable pub parse_rsvp_status : String → Result String CoreError
parse_rsvp_status value =
    if str_eq value "going"
    then ok "going"
    else if str_eq value "maybe"
    then ok "maybe"
    else if str_eq value "declined"
    then ok "declined"
    else err (invalid "status must be one of: going, maybe, declined")

-- `communityId ?? ctx.accountId`
abbrev community_or : Option String → String → String
community_or none account_id = account_id
community_or (some id) account_id = id

module _ {W : Type 0} (env : Surroundings W) where
  pub list_events : RequestContext → Task W RouteResult
  list_events ctx = do
    bounds ← checked (pagination env ctx)
    page ← find_entities event_data none bounds
    return (record { status = 200; body = page_body env.print_cursor to_event_wire page })

  pub create_event : RequestContext → Task W RouteResult
  create_event ctx = do
    body ← checked (require_object ctx.body)
    title ← checked (require_string body "title")
    starts_at ← checked (require_string body "startsAt")
    community_id ← checked (optional_string body "communityId")
    description ← checked (optional_string body "description")
    metadata ← checked (optional_metadata body)
    time ← now env
    id ← new_id env "evt"
    created ← create_entity env event_data (
        with_metadata (metadata_with "description" description metadata) (
          field "id" (string id) (
            field "communityId" (string (community_or community_id ctx.account_id)) (
              field "title" (string title) (
                field "kind" (string "single") (
                  field "startsAt" (string starts_at)
                    (field "createdAt" (string time) (field "updatedAt" (string time) end))))))))
    return (answer 201 (to_event_wire created))

  -- an RSVP that is there is updated
  change_rsvp : Fields → String → Option Fields → String → Task W RouteResult
  change_rsvp already status metadata time = do
    updated ← update_entity rsvp_data (id_of already) (
        with_field "metadata" (object_value metadata)
          (field "status" (string status) (field "updatedAt" (string time) end)))
    return (answer 200 (to_rsvp_wire updated))

  create_rsvp : String → String → String → Option Fields → String → Task W RouteResult
  create_rsvp event_id account_id status metadata time = do
    id ← new_id env "rsvp"
    created ← create_entity env rsvp_data (
        with_field "metadata" (object_value metadata) (
          field "id" (string id) (
            field "eventId" (string event_id) (
              field "accountId" (string account_id) (
                field "status" (string status)
                  (field "createdAt" (string time) (field "updatedAt" (string time) end)))))))
    publish_event env "event.rsvp_confirmed" (
        field "eventId" (string event_id) (
          field "rsvpId" (string (id_of created))
            (field "accountId" (string account_id) (field "confirmedAt" (string time) end))))
    return (answer 201 (to_rsvp_wire created))

  -- behind the look-up of an RSVP
  put_rsvp : String → String → String → Option Fields → String → Option Fields → Task W RouteResult
  unfolding change_rsvp create_rsvp
  put_rsvp event_id account_id status metadata time (some already) =
      change_rsvp already status metadata time
  put_rsvp event_id account_id status metadata time none =
      create_rsvp event_id account_id status metadata time

  pub rsvp_event : String → RequestContext → Task W RouteResult
  unfolding put_rsvp
  rsvp_event event_id ctx = do
    found ← find_entity event_data event_id
    event ← found_or_missing "event" event_id found
    body ← checked (require_object ctx.body)
    wanted ← checked (require_string body "status")
    status ← checked (parse_rsvp_status wanted)
    metadata ← checked (optional_metadata body)
    existing ←
        find_entities rsvp_data
          (some (
            field "eventId" (string (id_of event)) (field "accountId" (string ctx.account_id) end)))
          (record { cursor = none; limit = pos 1 })
    time ← now env
    put_rsvp (id_of event) ctx.account_id status metadata time (first_of existing)
