-- ===== src/Server/Routes/Laws.antt =====
-- The paths that the table of routes does not serve.
use ascended_core.Base.{
  String, str_append, ◌≡◌, refl, true, false, none, [], ◌∷◌, ◌++◌, ◌==◌, any, arith,
}
use ascended_core.Core.Errors.{core_error, not_found, core}
use ascended_core.Core.Result.{err}
use ascended_core.Server.World.{Surroundings, World}
use ascended_core.Server.Paging.{RequestContext}
use ascended_core.Server.Routes.{
  Text, codes, before, is_segment, route, post_routes, one_post_route, community_routes,
  event_routes, notification_routes, not_found_route,
}

-- a suffix that begins with a slash is at the end of no text without one
before_none : (suffix s : Text) → any (λ d. d == b'/') s ≡ false → before (b'/' ∷ suffix) s ≡ none
before_none suffix [] h = refl
before_none suffix (c ∷ s) h =
    let other : (c == b'/') ≡ false = ground (arith, h) in
    let rest : any (λ d. d == b'/') s ≡ false = ground (arith, h) in
    rw other (rw (before_none suffix s rest) refl)

segment_has_no_slash : (s : Text) → is_segment s ≡ true → any (λ d. d == b'/') s ≡ false
segment_has_no_slash [] h = refl
segment_has_no_slash (c ∷ s) h = ground (arith, h)

-- The server has no route for one community: whatever the method, a request for
-- `/communities/:id` is refused as not found, and changes nothing.
pub route_community :
    {W : Type 0} (env : Surroundings W) (shown : Text → String) (s : Text) (ctx : RequestContext)
    (w : World W)
    → is_segment s ≡ true
    → route env shown (codes "/communities/" ++ s) ctx w ≡ (
      err (
          core (
            core_error not_found
              (str_append "no route for " (shown (codes "/communities/" ++ s))))),
      w,
    )
unfolding route post_routes one_post_route community_routes event_routes notification_routes
    not_found_route
route_community env shown s ctx w h =
    rw (before_none (codes "join") s (segment_has_no_slash s h)) refl

-- Nor has it a route for one event.
pub route_event :
    {W : Type 0} (env : Surroundings W) (shown : Text → String) (s : Text) (ctx : RequestContext)
    (w : World W)
    → is_segment s ≡ true
    → route env shown (codes "/events/" ++ s) ctx w ≡ (
      err (
          core (core_error not_found (str_append "no route for " (shown (codes "/events/" ++ s))))),
      w,
    )
unfolding route post_routes one_post_route community_routes event_routes notification_routes
    not_found_route
route_event env shown s ctx w h = rw (before_none (codes "rsvp") s (segment_has_no_slash s h)) refl
