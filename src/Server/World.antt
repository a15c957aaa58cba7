-- ===== src/Server/World.antt =====
-- examples/minimal-server/src/store.ts: the platform that the handlers act on, and what they are
-- given. The bus is a call on the world, since a subscriber may do anything; so are the ids, the
-- clock and the metrics.
use ascended_core.Base.{ℕ, String, Option, none, some, List, [], ℤ}
use ascended_core.Base.Dict.{Dict}
use ascended_core.Core.Value.{object, Fields}
use ascended_core.Core.Errors.{CoreError, Thrown, core}
use ascended_core.Core.Result.{Result, ok, err}
use ascended_core.Events.Envelope.{DomainEvent}
use ascended_core.Persistence.Repository
use ascended_core.Persistence.Repository.{
  Repository, Cursor, CursorPagination, Page, empty_repository,
}
use ascended_core.Notifications.Preferences.{
  NotificationRequest, NotificationPreferences, get_preferences,
}
use ascended_core.Notifications.Local.{Inboxes, deliver_in_app, record_email, record_push}
use ascended_core.Notifications.Service.{Ports}

-- the repositories of the platform
pub data Collection : Type 0 where
  profile_data post_data reaction_data community_data membership_data : Collection
  event_data rsvp_data : Collection

pub record Platform : Type 0 where
  pub profiles : Repository
  pub posts : Repository
  pub reactions : Repository
  pub communities : Repository
  pub memberships : Repository
  pub events : Repository
  pub rsvps : Repository
  pub inbox : Inboxes
  pub emails : List NotificationRequest
  pub pushes : List NotificationRequest
  pub preferences : Dict NotificationPreferences

-- `createPlatform`
abbrev pub new_platform : Platform
new_platform = record {
  profiles = empty_repository;
  posts = empty_repository;
  reactions = empty_repository;
  communities = empty_repository;
  memberships = empty_repository;
  events = empty_repository;
  rsvps = empty_repository;
  inbox = [];
  emails = [];
  pushes = [];
  preferences = [];
}

pub record World (W : Type 0) : Type 0 where
  pub platform : Platform
  pub outside : W

abbrev pub Task : Type 0 → Type 0 → Type 0
Task W A = World W → Result A Thrown × World W

-- `publish_request` takes the payload of `notification.requested`: the recipient and the template.
-- `as_integer` is `Number(…)` with `Number.isInteger`.
pub record Surroundings (W : Type 0) : Type 0 where
  pub create_id : String → World W → String × World W
  pub now_iso : World W → String
  pub now_ms : World W → ℕ
  pub publish : DomainEvent → World W → Result (Unit {0}) Thrown × World W
  pub publish_request : String → String → World W → Result (Unit {0}) Thrown × World W
  pub count_request : String → List ℕ → World W → World W
  pub decode_uri : List ℕ → Result String Thrown
  pub as_integer : String → Option ℤ
  pub decimal : ℕ → String
  pub padded : ℕ → String
  pub read_cursor : String → Cursor
  pub print_cursor : Cursor → String

infixl 5 ◌>>=◌ ◌>>◌
abbrev pub ◌>>=◌ : {W A B : Type 0} → Task W A → (A → Task W B) → Task W B
◌>>=◌ m f w = let (r, w') = m w in elim r [ ok a ↦ f a w' | err e ↦ (err e, w') ]

abbrev pub ◌>>◌ : {W A B : Type 0} → Task W A → Task W B → Task W B
m >> k = m >>= λ _. k

abbrev pub get_repository : Collection → Platform → Repository
get_repository profile_data p = p.profiles
get_repository post_data p = p.posts
get_repository reaction_data p = p.reactions
get_repository community_data p = p.communities
get_repository membership_data p = p.memberships
get_repository event_data p = p.events
get_repository rsvp_data p = p.rsvps

abbrev pub set_repository : Collection → Repository → Platform → Platform
set_repository profile_data r p = record p { profiles = r }
set_repository post_data r p = record p { posts = r }
set_repository reaction_data r p = record p { reactions = r }
set_repository community_data r p = record p { communities = r }
set_repository membership_data r p = record p { memberships = r }
set_repository event_data r p = record p { events = r }
set_repository rsvp_data r p = record p { rsvps = r }

module _ {W : Type 0} where
  abbrev pub return : {A : Type 0} → A → Task W A
  return a w = (ok a, w)

  abbrev pub throw : {A : Type 0} → CoreError → Task W A
  throw e w = (err (core e), w)

  abbrev pub checked : {A : Type 0} → Result A CoreError → Task W A
  checked (ok a) w = (ok a, w)
  checked (err e) w = (err (core e), w)

  abbrev with_repository : Collection → Repository → World W → World W
  with_repository c r w = record w { platform = set_repository c r w.platform }

  -- the repositories' calls, on the world
  unfoldable pub find_entity : Collection → String → Task W (Option Fields)
  find_entity c id w = (ok (Repository.find_by_id id (get_repository c w.platform)), w)

  unfoldable pub find_entities :
      Collection → Option Fields → CursorPagination → Task W (Page Fields Cursor)
  find_entities c wanted pagination w =
      checked (Repository.find_many wanted (some pagination) (get_repository c w.platform)) w

module _ {W : Type 0} (env : Surroundings W) where
  abbrev pub new_id : String → Task W String
  new_id prefix w = let (id, w') = env.create_id prefix w in (ok id, w')

  abbrev pub now : Task W String
  now w = (ok (env.now_iso w), w)

  unfoldable pub create_entity : Collection → Fields → Task W Fields
  create_entity c entity w =
      let (r, repository) = Repository.create entity (env.now_ms w) (get_repository c w.platform) in
      checked r (with_repository c repository w)

  -- the platform's notification service: in-memory preferences, inbox and recorders
  pub notification_ports : Ports (World W)
  notification_ports = record {
    publish = env.publish_request;
    preferences = λ account w. (ok (get_preferences account w.platform.preferences), w);
    deliver_in_app = λ request w. (
      ok tt,
      record w {
        platform = record w.platform {
          inbox = deliver_in_app request (env.now_iso w) w.platform.inbox;
        };
      },
    );
    deliver_email = λ request w. (
      ok tt,
      record w { platform = record w.platform { emails = record_email request w.platform.emails } },
    );
    deliver_push = λ request w. (
      ok tt,
      record w { platform = record w.platform { pushes = record_push request w.platform.pushes } },
    );
    now = env.now_iso;
  }

  -- `publish` of server.ts
  unfoldable pub publish_event : String → Fields → Task W (Unit {0})
  publish_event type payload = do
    id ← new_id "evt"
    time ← now
    key ← new_id "idem"
    env.publish (record {
      id = id;
      type = type;
      version = 1;
      occurred_at = time;
      producer = "example-minimal-server";
      idempotency_key = key;
      correlation_id = none;
      causation_id = none;
      payload = object payload;
    })

module _ {W : Type 0} where
  unfoldable pub update_entity : Collection → String → Fields → Task W Fields
  update_entity c id patch w =
      let (r, repository) = Repository.update id patch (get_repository c w.platform) in
      checked r (with_repository c repository w)
