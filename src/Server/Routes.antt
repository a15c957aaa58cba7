-- ===== src/Server/Routes.antt =====
-- examples/minimal-server/src/server.ts: the table of the routes. A path is the list of its code
-- points; `decodeURIComponent` may throw.
pub mod Laws
pub use ascended_core.Base.Codes.{Text, codes, same_text}
use ascended_core.Base.{
  ℕ, String, str_append, Bool, true, false, not, ◌&&◌, ◌||◌, Option, none, some, List, [], ◌∷◌,
  ◌==◌, any, str_eq, if◌then◌else◌,
}
use Prim.Native.Char.{code}
use Prim.Native.String
use ascended_core.Core.Errors.{CoreError, core_error, unsupported, not_found, Thrown, core}
use ascended_core.Core.Result.{Result, ok, err}
use ascended_core.Server.World.{Surroundings, Task, ◌>>=◌, throw}
use ascended_core.Server.Paging.{RequestContext, RouteResult}
use ascended_core.Server.Handlers.Profiles.{get_my_profile, put_my_profile, get_profile}
use ascended_core.Server.Handlers.Posts.{list_posts, create_post, get_post, add_reaction}
use ascended_core.Server.Handlers.Communities.{list_communities, create_community, join_community}
use ascended_core.Server.Handlers.Events.{list_events, create_event, rsvp_event}
use ascended_core.Server.Handlers.Notifications.{list_my_notifications}

-- `path.startsWith(prefix)` and the text behind it
abbrev pub behind : Text → Text → Option Text
behind [] path = some path
behind (c ∷ prefix) [] = none
behind (c ∷ prefix) (d ∷ path) = if c == d then behind prefix path else none

-- `path.endsWith(suffix)` and the text before it
abbrev pub before : Text → Text → Option Text
before suffix [] = if same_text [] suffix then some [] else none
before suffix (c ∷ path) =
    let rest = before suffix path in
    if same_text (c ∷ path) suffix
    then some []
    else elim rest [ none ↦ none | some front ↦ some (c ∷ front) ]

-- one segment: not empty, and without a slash
abbrev pub is_segment : Text → Bool
is_segment [] = false
is_segment (c ∷ s) = not (any (λ d. d == b'/') (c ∷ s))

abbrev segment_of : Option Text → Option Text
segment_of none = none
segment_of (some s) = if is_segment s then some s else none

-- `matchPath`, and `matchNested`, before the decoding
abbrev pub match_path : Text → Text → Option Text
match_path path prefix = segment_of (behind prefix path)

abbrev pub match_nested : Text → Text → Text → Option Text
match_nested path prefix suffix = elim (behind prefix path) [
  | none ↦ none
  | some rest ↦ segment_of (before suffix rest)
]

abbrev pub method_not_allowed : CoreError
method_not_allowed = record (core_error unsupported "method not allowed") { status_code = some 405 }

module _ {W : Type 0} (env : Surroundings W) where
  abbrev refuse : Task W RouteResult
  refuse = throw method_not_allowed

  abbrev pub decoded : Text → (String → Task W RouteResult) → Task W RouteResult
  decoded segment handler w = elim (env.decode_uri segment) [
    | err e ↦ (err e, w)
    | ok id ↦ handler id w
  ]

  -- the handlers by the method
  abbrev my_profile_route : RequestContext → Task W RouteResult
  my_profile_route ctx =
      if str_eq ctx.method "GET"
      then get_my_profile env ctx
      else if str_eq ctx.method "PUT"
      then put_my_profile env ctx
      else refuse

  abbrev pub on_get : RequestContext → Task W RouteResult → Task W RouteResult
  on_get ctx handler = if str_eq ctx.method "GET" then handler else refuse

  abbrev pub on_post : RequestContext → Task W RouteResult → Task W RouteResult
  on_post ctx handler = if str_eq ctx.method "POST" then handler else refuse

  abbrev get_or_post : RequestContext → Task W RouteResult → Task W RouteResult → Task W RouteResult
  get_or_post ctx get_handler post_handler =
      if str_eq ctx.method "GET"
      then get_handler
      else if str_eq ctx.method "POST"
      then post_handler
      else refuse

  pub not_found_route : Text → (Text → String) → Task W RouteResult
  not_found_route path shown =
      throw (core_error not_found (str_append "no route for " (shown path)))

  -- from `/notifications/me` on
  pub notification_routes : (Text → String) → Text → RequestContext → Task W RouteResult
  unfolding not_found_route
  notification_routes shown path ctx =
      if same_text path (codes "/notifications/me")
      then on_get ctx (list_my_notifications env ctx)
      else not_found_route path shown

  -- from `/events` on
  pub event_routes : (Text → String) → Text → RequestContext → Task W RouteResult
  unfolding notification_routes
  event_routes shown path ctx =
      if same_text path (codes "/events")
      then get_or_post ctx (list_events env ctx) (create_event env ctx)
      else elim (match_nested path (codes "/events/") (codes "/rsvp")) [
        | some segment ↦ decoded segment (λ id. on_post ctx (rsvp_event env id ctx))
        | none ↦ notification_routes shown path ctx
      ]

  -- from `/communities` on
  pub community_routes : (Text → String) → Text → RequestContext → Task W RouteResult
  unfolding event_routes
  community_routes shown path ctx =
      if same_text path (codes "/communities")
      then get_or_post ctx (list_communities env ctx) (create_community env ctx)
      else elim (match_nested path (codes "/communities/") (codes "/join")) [
        | some segment ↦ decoded segment (λ id. on_post ctx (join_community env id ctx))
        | none ↦ event_routes shown path ctx
      ]

  -- `/posts/:id`, behind `/posts/:id/reactions`
  pub one_post_route : (Text → String) → Text → RequestContext → Task W RouteResult
  unfolding community_routes
  one_post_route shown path ctx = elim (match_path path (codes "/posts/")) [
    | some segment ↦ decoded segment (λ id. on_get ctx (get_post id))
    | none ↦ community_routes shown path ctx
  ]

  -- from `/posts` on
  pub post_routes : (Text → String) → Text → RequestContext → Task W RouteResult
  unfolding one_post_route
  post_routes shown path ctx =
      if same_text path (codes "/posts")
      then get_or_post ctx (list_posts env ctx) (create_post env ctx)
      else elim (match_nested path (codes "/posts/") (codes "/reactions")) [
        | some segment ↦ decoded segment (λ id. on_post ctx (add_reaction env id ctx))
        | none ↦ one_post_route shown path ctx
      ]

  pub route : (Text → String) → Text → RequestContext → Task W RouteResult
  unfolding post_routes
  route shown path ctx =
      if same_text path (codes "/profiles/me")
      then my_profile_route ctx
      else elim (match_path path (codes "/profiles/")) [
        | some segment ↦ decoded segment (λ id. on_get ctx (get_profile id))
        | none ↦ post_routes shown path ctx
      ]
