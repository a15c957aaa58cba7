-- ===== src/Sdk/Client/Operations.antt =====
-- packages/sdk/src/client.ts: the operations of the client, one for each of the contract. A body is a
-- value that `JSON.stringify` takes.
use ascended_core.Base.{ℕ, String, Bool, true, false, Option, none, some, List, [], ◌∷◌, ◌++◌}
use ascended_core.Core.Value.{Value}
use ascended_core.Core.Errors.{CoreError}
use ascended_core.Core.Result.{Result}
use ascended_core.Sdk.Urls.{Text, codes}
use ascended_core.Sdk.Client.{Schema, Client, RequestOptions, Environment, request}

pub record ListOptions : Type 0 where
  pub cursor : Option String
  pub limit : Option ℕ

-- the schemas of the contract
pub record Schemas : Type 0 where
  pub health : Schema
  pub profile : Schema
  pub post : Schema
  pub post_page : Schema
  pub reaction : Schema
  pub community : Schema
  pub community_page : Schema
  pub membership : Schema
  pub event : Schema
  pub event_page : Schema
  pub rsvp : Schema
  pub notification_page : Schema

-- `{ cursor: options.cursor, limit: options.limit }`
abbrev list_query : (ℕ → String) → ListOptions → List (String × Option String)
list_query decimal options =
    ("cursor", options.cursor)
    ∷ ("limit", elim options.limit [ none ↦ none | some n ↦ some (decimal n) ])
    ∷ []

abbrev pub options_of : String → Text → Bool → Option Value → RequestOptions
options_of method path requires_auth body = record {
  method = method;
  path = path;
  requires_auth = requires_auth;
  query = none;
  body = body;
}

-- the answer of an operation
abbrev pub Reply : Type 0 → Type 0
Reply W = Result Value CoreError × W

module _ {W : Type 0} (env : Environment W) (schemas : Schemas) (encode : String → Text)
    (client : Client) where
  get_healthz : W → Reply W
  get_healthz w =
      request env client (options_of "GET" (codes "/healthz") false none) schemas.health w

  get_my_profile : W → Reply W
  get_my_profile w =
      request env client (options_of "GET" (codes "/profiles/me") true none) schemas.profile w

  update_my_profile : Value → W → Reply W
  update_my_profile body w =
      request env client (options_of "PUT" (codes "/profiles/me") true (some body)) schemas.profile
        w

  get_profile : String → W → Reply W
  get_profile id w =
      request env client (options_of "GET" (codes "/profiles/" ++ encode id) true none)
        schemas.profile w

  list_posts : ListOptions → W → Reply W
  list_posts options w =
      request env client
        (record (options_of "GET" (codes "/posts") true none) {
          query = some (list_query env.decimal options);
        })
        schemas.post_page w

  create_post : Value → W → Reply W
  create_post body w =
      request env client (options_of "POST" (codes "/posts") true (some body)) schemas.post w

  get_post : String → W → Reply W
  get_post id w =
      request env client (options_of "GET" (codes "/posts/" ++ encode id) true none) schemas.post w

  add_reaction : String → Value → W → Reply W
  add_reaction id body w =
      request env client
        (options_of "POST" (codes "/posts/" ++ encode id ++ codes "/reactions") true (some body))
        schemas.reaction w

  list_communities : ListOptions → W → Reply W
  list_communities options w =
      request env client
        (record (options_of "GET" (codes "/communities") true none) {
          query = some (list_query env.decimal options);
        })
        schemas.community_page w

  create_community : Value → W → Reply W
  create_community body w =
      request env client (options_of "POST" (codes "/communities") true (some body))
        schemas.community w

  get_community : String → W → Reply W
  get_community id w =
      request env client (options_of "GET" (codes "/communities/" ++ encode id) true none)
        schemas.community w

  join_community : String → W → Reply W
  join_community id w =
      request env client
        (options_of "POST" (codes "/communities/" ++ encode id ++ codes "/join") true none)
        schemas.membership w

  list_events : ListOptions → W → Reply W
  list_events options w =
      request env client
        (record (options_of "GET" (codes "/events") true none) {
          query = some (list_query env.decimal options);
        })
        schemas.event_page w

  get_event : String → W → Reply W
  get_event id w =
      request env client (options_of "GET" (codes "/events/" ++ encode id) true none) schemas.event
        w

  rsvp_event : String → Value → W → Reply W
  rsvp_event id body w =
      request env client
        (options_of "POST" (codes "/events/" ++ encode id ++ codes "/rsvp") true (some body))
        schemas.rsvp w

  list_my_notifications : ListOptions → W → Reply W
  list_my_notifications options w =
      request env client
        (record (options_of "GET" (codes "/notifications/me") true none) {
          query = some (list_query env.decimal options);
        })
        schemas.notification_page w
