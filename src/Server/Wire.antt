-- ===== src/Server/Wire.antt =====
-- examples/minimal-server/src/wire.ts. An entity, a wire shape and a decoded body are objects of
-- named values. A field that may be absent is read as `undefined`.
use ascended_core.Base.{String, str_append, Option, none, some, str_eq, if◌then◌else◌}
use ascended_core.Core.Value.{
  Value, undefined, null, string, object, instance_of, Fields, end, field, value_at, put_field,
}
use ascended_core.Core.Errors.{CoreError, core_error, validation}
use ascended_core.Core.Result.{Result, ok, err}

-- `withOptional`: the extras that are not `undefined`, in their order
unfoldable pub with_optional : Fields → Fields → Fields
with_optional out end = out
with_optional out (field key undefined extras) = with_optional out extras
with_optional out (field key value extras) = with_optional (put_field key value out) extras

-- `value?.[key]`
unfoldable pub property_of : Value → String → Value
property_of (object fields) key = value_at key fields
property_of (instance_of fields) key = value_at key fields
property_of _ key = undefined

-- `typeof value === "string" ? value : undefined`
unfoldable pub string_or_undefined : Value → Value
string_or_undefined (string s) = string s
string_or_undefined _ = undefined

-- `value ?? "member"`
abbrev role_or_member : Value → Value
role_or_member undefined = string "member"
role_or_member null = string "member"
role_or_member v = v

unfoldable pub to_profile_wire : Fields → Fields
unfolding with_optional
to_profile_wire profile =
    with_optional
      (field "id" (value_at "id" profile) (
        field "accountId" (value_at "accountId" profile)
          (field "displayName" (value_at "displayName" profile) end)))
      (field "bio" (value_at "bio" profile) (
        field "avatarUrl" (value_at "avatarUrl" profile)
          (field "metadata" (value_at "metadata" profile) end)))

unfoldable pub to_post_wire : Fields → Fields
unfolding with_optional property_of string_or_undefined
to_post_wire post =
    with_optional
      (field "id" (value_at "id" post) (
        field "authorId" (value_at "authorId" post) (
          field "content" (value_at "body" post)
            (field "createdAt" (value_at "createdAt" post) end))))
      (field "communityId"
        (string_or_undefined (property_of (value_at "metadata" post) "communityId"))
        (field "metadata" (value_at "metadata" post) end))

unfoldable pub to_reaction_wire : Fields → Fields
unfolding with_optional
to_reaction_wire reaction =
    with_optional
      (field "id" (value_at "id" reaction) (
        field "postId" (value_at "targetId" reaction) (
          field "profileId" (value_at "accountId" reaction)
            (field "kind" (value_at "kind" reaction) end))))
      (field "metadata" (value_at "metadata" reaction) end)

unfoldable pub to_community_wire : Fields → Fields
unfolding with_optional
to_community_wire community =
    with_optional
      (field "id" (value_at "id" community) (field "name" (value_at "name" community) end))
      (field "description" (value_at "description" community)
        (field "metadata" (value_at "metadata" community) end))

unfoldable pub to_membership_wire : Fields → Fields
unfolding with_optional property_of
to_membership_wire membership =
    with_optional
      (field "communityId" (value_at "communityId" membership) (
        field "profileId" (value_at "accountId" membership) (
          field "role" (role_or_member (property_of (value_at "metadata" membership) "role")) end)))
      (field "metadata" (value_at "metadata" membership) end)

unfoldable pub to_event_wire : Fields → Fields
unfolding with_optional property_of string_or_undefined
to_event_wire event =
    with_optional
      (field "id" (value_at "id" event) (
        field "communityId" (value_at "communityId" event) (
          field "title" (value_at "title" event)
            (field "startsAt" (value_at "startsAt" event) end))))
      (field "description"
        (string_or_undefined (property_of (value_at "metadata" event) "description"))
        (field "metadata" (value_at "metadata" event) end))

unfoldable pub to_rsvp_wire : Fields → Fields
unfolding with_optional
to_rsvp_wire rsvp =
    with_optional
      (field "eventId" (value_at "eventId" rsvp) (
        field "profileId" (value_at "accountId" rsvp)
          (field "status" (value_at "status" rsvp) end)))
      (field "metadata" (value_at "metadata" rsvp) end)

abbrev pub invalid : String → CoreError
invalid message = core_error validation message

unfoldable pub require_object : Value → Result Fields CoreError
require_object (object fields) = ok fields
require_object (instance_of fields) = ok fields
require_object _ = err (invalid "body must be a JSON object")

-- what `requireString` makes of the value of the field
unfoldable pub required : String → Value → Result String CoreError
required key (string s) =
    if str_eq s ""
    then err (invalid (str_append key " is required and must be a non-empty string"))
    else ok s
required key _ = err (invalid (str_append key " is required and must be a non-empty string"))

unfoldable pub require_string : Fields → String → Result String CoreError
unfolding required
require_string body key = required key (value_at key body)

unfoldable pub optional_text : String → Value → Result (Option String) CoreError
optional_text key undefined = ok none
optional_text key (string s) = ok (some s)
optional_text key _ = err (invalid (str_append key " must be a string"))

unfoldable pub optional_string : Fields → String → Result (Option String) CoreError
unfolding optional_text
optional_string body key = optional_text key (value_at key body)

unfoldable pub optional_object : Value → Result (Option Fields) CoreError
optional_object undefined = ok none
optional_object (object fields) = ok (some fields)
optional_object (instance_of fields) = ok (some fields)
optional_object _ = err (invalid "metadata must be a JSON object")

unfoldable pub optional_metadata : Fields → Result (Option Fields) CoreError
unfolding optional_object
optional_metadata body = optional_object (value_at "metadata" body)
