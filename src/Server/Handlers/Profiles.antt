-- ===== src/Server/Handlers/Profiles.antt =====
-- examples/minimal-server/src/server.ts: `ensureProfile` and the handlers of the profiles.
use ascended_core.Base.{String, str_append, Option, none, some, [], ◌∷◌, pos}
use ascended_core.Core.Value.{string, Fields, end, field}
use ascended_core.Core.Errors.{core_error, not_found}
use ascended_core.Persistence.Repository.{id_of, Page, Cursor}
use ascended_core.Server.Wire.{to_profile_wire, require_object, optional_string, optional_metadata}
use ascended_core.Server.World.{
  Surroundings, Task, profile_data, ◌>>=◌, ◌>>◌, return, throw, checked, find_entity, find_entities,
  new_id, now, create_entity, update_entity, publish_event,
}
use ascended_core.Server.Paging.{
  RequestContext, RouteResult, with_field, text_value, object_value, answer,
}

-- `existing.items[0]`
abbrev pub first_of : Page Fields Cursor → Option Fields
first_of page = elim page.items [ [] ↦ none | entity ∷ rest ↦ some entity ]

module _ {W : Type 0} (env : Surroundings W) where
  -- the lazy creation
  create_profile : String → Task W Fields
  create_profile account_id = do
    time ← now env
    id ← new_id env "prof"
    created ← create_entity env profile_data (
        field "id" (string id) (
          field "accountId" (string account_id) (
            field "displayName" (string "New Member")
              (field "createdAt" (string time) (field "updatedAt" (string time) end)))))
    publish_event env "identity.profile_created" (
        field "accountId" (string account_id)
          (field "profileId" (string (id_of created)) (field "createdAt" (string time) end)))
    return created

  -- behind the look-up
  ensure_found : String → Option Fields → Task W Fields
  unfolding create_profile
  ensure_found account_id (some found) = return found
  ensure_found account_id none = create_profile account_id

  pub ensure_profile : String → Task W Fields
  unfolding ensure_found
  ensure_profile account_id = do
    existing ←
        find_entities profile_data (some (field "accountId" (string account_id) end))
          (record { cursor = none; limit = pos 1 })
    ensure_found account_id (first_of existing)

  pub get_my_profile : RequestContext → Task W RouteResult
  unfolding ensure_profile
  get_my_profile ctx = do
    profile ← ensure_profile ctx.account_id
    return (answer 200 (to_profile_wire profile))

  pub put_my_profile : RequestContext → Task W RouteResult
  unfolding ensure_profile
  put_my_profile ctx = do
    body ← checked (require_object ctx.body)
    display_name ← checked (optional_string body "displayName")
    bio ← checked (optional_string body "bio")
    avatar_url ← checked (optional_string body "avatarUrl")
    metadata ← checked (optional_metadata body)
    existing ← ensure_profile ctx.account_id
    time ← now env
    updated ← update_entity profile_data (id_of existing) (
        with_field "metadata" (object_value metadata) (
          with_field "avatarUrl" (text_value avatar_url) (
            with_field "bio" (text_value bio) (
              with_field "displayName" (text_value display_name)
                (field "updatedAt" (string time) end)))))
    return (answer 200 (to_profile_wire updated))

-- what a handler does with the entity of a path, or without it
abbrev pub found_or_missing : {W : Type 0} → String → String → Option Fields → Task W Fields
found_or_missing what id (some entity) = return entity
found_or_missing what id none =
    throw (core_error not_found (str_append what (str_append " not found: " id)))

unfoldable pub get_profile : {W : Type 0} → String → Task W RouteResult
get_profile profile_id = do
  found ← find_entity profile_data profile_id
  profile ← found_or_missing "profile" profile_id found
  return (answer 200 (to_profile_wire profile))
