-- ===== src/Tests/Server.antt =====
-- Runs and examples of the reference server and of its client.
use ascended_core.Base.{
  ℕ, suc, String, str_append, ◌≡◌, refl, true, false, none, some, List, [], ◌∷◌, ◌++◌, arith,
  str_eq, if◌then◌else◌, pos, ℤ, Option, zero, ap, length, ◌≤◌,
}
use ascended_core.Base.Codes.{Text, codes}
use ascended_core.Core.Value.{
  Value, Fields, string, end, field, object, value_at, text_at, property, put_field,
}
use ascended_core.Core.Errors.{
  CoreError, core_error, unauthorized, conflict, not_found, Thrown, core,
}
use ascended_core.Core.Result.{Result, ok, err}
use ascended_core.Persistence.Repository.{create}
use ascended_core.Notifications.Local.{InboxItem, list_inbox}
use ascended_core.Server.Handlers.Notifications.{notification_items}
use ascended_core.Server.World.{Surroundings, World, new_platform, create_entity, publish_event}
use ascended_core.Server.Paging.{RequestContext, limit_of, page_limit}
use ascended_core.Server.Paging.Laws.{IsBounded, page_limit-IsBounded}
use ascended_core.Server.Handlers.Notifications.Laws.{gather, gather_lem}
use ascended_core.Server.Handlers.Posts.{create_post, get_post, metadata_with}
use ascended_core.Base.Dict
use ascended_core.Server.Wire.{
  require_object, require_string, required, optional_string, optional_text, optional_metadata,
  optional_object, to_post_wire, with_optional, string_or_undefined, property_of,
}
use ascended_core.Server.Handlers.Posts.Laws.{get_post-create_post}
use ascended_core.Server.Paging.{answer, with_metadata}
use ascended_core.Server.Routes.{route}
use ascended_core.Server.Routes.Laws.{route_community}
use ascended_core.Server.Http.{
  Request, no_body, serve, resolve_token, authenticate, error_response, status_for_error,
  status_for_code, reported,
}
use ascended_core.Server.Http.Laws.{serve_refused}
use ascended_core.Sdk.Urls.{strip_trailing_slashes}
use ascended_core.Sdk.Urls.Laws.{replace_trailing_slashes, strip_trailing_slashes_lem}
use ascended_core.Sdk.Client.{
  Client, Environment, RequestOptions, request, bearer_of, send, after_fetch, read_payload,
  validated, checked_payload,
}
use ascended_core.Sdk.Client.Laws.{
  Accepts, IsListed, request-Accepts, request-error_response, request_keyless,
}

abbrev shown : Text → String
shown path = "path"

-- the world counts its requests
abbrev env : Surroundings ℕ
env = record {
  create_id = λ prefix w. (str_append prefix "_00000001", w);
  now_iso = λ w. "2026-01-01T00:00:00.000Z";
  now_ms = λ w. 0;
  publish = λ event w. (ok tt, w);
  publish_request = λ recipient template w. (ok tt, w);
  count_request = λ method path w. record w { outside = suc w.outside };
  decode_uri = λ path. ok "decoded";
  as_integer = λ text. if str_eq text "7" then some (pos 7) else none;
  decimal = λ n. "1";
  padded = λ n. "0001";
  read_cursor = λ text. record { created_at = 0; seq = 0 };
  print_cursor = λ c. "c";
}

abbrev world : World ℕ
world = record { platform = new_platform; outside = 0 }

abbrev get_request : RequestContext
get_request = record {
  method = "GET";
  limit_param = none;
  cursor_param = none;
  account_id = "acct_ada";
  body = Value.undefined;
}

route_community_example :
    route env shown (codes "/communities/" ++ codes "comm_1") get_request world
    ≡ (err (core (core_error not_found (str_append "no route for " "path"))), world)
route_community_example = route_community env shown (codes "comm_1") get_request world refl

abbrev anonymous : Request
anonymous = record {
  method = "GET";
  path = codes "/posts";
  limit_param = none;
  cursor_param = none;
  authorization = some (codes "Bearer nobody");
  body = no_body;
}

anonymous_refused :
    authenticate (λ t. t) anonymous.authorization
    ≡ err (core_error unauthorized "invalid bearer token")
unfolding authenticate resolve_token
anonymous_refused = refl

serve_refused_example :
    ((serve env shown (λ t. t) "0.2.0" anonymous world).0.status ≡ 401)
    × ((serve env shown (λ t. t) "0.2.0" anonymous world).1 ≡ record world { outside = 1 })
serve_refused_example =
    serve_refused env shown (λ t. t) "0.2.0" anonymous world
      (core_error unauthorized "invalid bearer token") refl anonymous_refused

page_limit-IsBounded_example : IsBounded (page_limit env.as_integer (some "7"))
page_limit-IsBounded_example = page_limit-IsBounded env.as_integer (some "7")

-- numbers in strokes
abbrev strokes : ℕ → String
strokes zero = ""
strokes (suc n) = String.◌∷◌ "|" (strokes n)

abbrev counted : String → Option ℤ
counted text = some (pos (length (codes text)))

length-strokes : (n : ℕ) → length (codes (strokes n)) ≡ n
length-strokes zero = refl
length-strokes (suc n) = ap suc (length-strokes n)

abbrev paged_env : Surroundings ℕ
paged_env = record env { as_integer = counted; decimal = strokes }

paged_env_reads_back : (n : ℕ) → paged_env.as_integer (paged_env.decimal n) ≡ some (pos n)
paged_env_reads_back n = ap (λ m. some (pos m)) (length-strokes n)

abbrev item : String → InboxItem
item template = record { template = template; template_data = end; delivered_at = "t" }

abbrev inbox : List InboxItem
inbox = item "a" ∷ item "b" ∷ item "c" ∷ []

abbrev inbox_world : World ℕ
inbox_world = record {
  platform = record new_platform { inbox = ("acct_ada", inbox) ∷ [] };
  outside = 0;
}

abbrev two_at_once : RequestContext
two_at_once = record get_request { limit_param = some "||" }

accepted_limit : page_limit counted (some "||") ≡ ok 2
unfolding page_limit limit_of
accepted_limit = refl

gather_lem_example :
    gather paged_env 4 two_at_once inbox_world
    ≡ some (
        ok (
          notification_items
            (λ n. "0001")
            "acct_ada"
            (list_inbox "acct_ada" inbox_world.platform.inbox)
            0))
unfolding list_inbox Dict.get
gather_lem_example =
    gather_lem paged_env paged_env_reads_back 4 two_at_once inbox_world 2 accepted_limit refl
      (omega arith)

strip_trailing_slashes_lem_example :
    strip_trailing_slashes (codes "https://api.example.org//")
    ≡ replace_trailing_slashes (codes "https://api.example.org//")
strip_trailing_slashes_lem_example = strip_trailing_slashes_lem (codes "https://api.example.org//")

-- a fetch whose every response is a text
abbrev environment : Environment ℕ
environment = record {
  fetch = λ url init w. (ok (record { status = 200; json = some (string "pong") }), suc w);
  params_text = λ query. [];
  shown = shown;
  decimal = λ n. "200";
}

abbrev client : Client
client = record {
  base_url = codes "https://api.example.org";
  api_key = none;
  validate_responses = true;
}

abbrev health : RequestOptions
health = record {
  method = "GET";
  path = codes "/healthz";
  requires_auth = false;
  query = none;
  body = none;
}

abbrev any_schema : Value → Result Value Value
any_schema v = ok v

health_answered : (request environment client health any_schema 0).0 ≡ ok (string "pong")
unfolding request bearer_of send after_fetch read_payload validated checked_payload
health_answered = refl

request-Accepts_example : Accepts any_schema (string "pong")
request-Accepts_example =
    request-Accepts environment client health any_schema 0 (string "pong") refl health_answered

abbrev conflicting : Thrown
conflicting = core (core_error conflict "entity already exists: post_1")

-- a fetch whose every response is the server's to that error
abbrev failing : Environment ℕ
failing = record environment {
  fetch = λ url init w. (
    ok (record {
      status = (error_response conflicting).status;
      json = some (error_response conflicting).body;
    }),
    suc w,
  );
}

abbrev keyed : Client
keyed = record client { api_key = some "test-acct_ada" }

abbrev own_profile : RequestOptions
own_profile = record health { path = codes "/profiles/me"; requires_auth = true }

conflict_status : 400 ≤ (error_response conflicting).status
unfolding error_response status_for_error status_for_code reported
conflict_status = omega arith

request_keyless_example :
    (e : CoreError) × (request failing client own_profile any_schema 0 ≡ (err e, 0))
    × (e.code ≡ unauthorized)
    × (e.status_code ≡ some 401)
request_keyless_example = request_keyless failing client own_profile any_schema 0 refl tt

request-error_response_example :
    (seen : CoreError) × ((request failing keyed own_profile any_schema 0).0 ≡ err seen)
    × (seen.code ≡ (reported conflicting).code)
    × (seen.message ≡ (reported conflicting).message)
    × (seen.status_code ≡ some (error_response conflicting).status)
unfolding IsListed reported
request-error_response_example =
    request-error_response failing conflicting keyed own_profile any_schema 0 "test-acct_ada" refl
      refl conflict_status tt (λ url init. refl)

abbrev post_request : RequestContext
post_request = record get_request {
  method = "POST";
  body = object (field "content" (string "hello") (field "communityId" (string "comm_1") end));
}

abbrev post_fields : Fields
post_fields = field "id" (string "post_00000001") (
    field "authorId" (string "acct_ada") (
      field "content" (string "hello") (
        field "createdAt" (string "2026-01-01T00:00:00.000Z") (
          field "communityId" (string "comm_1")
            (field "metadata" (object (field "communityId" (string "comm_1") end)) end)))))

abbrev posted : World ℕ
posted = (create_post env post_request world).1

post_created : create_post env post_request world ≡ (ok (answer 201 post_fields), posted)
unfolding create_post create_entity publish_event create Dict.has Dict.get Dict.set value_at text_at
    property put_field require_object require_string required optional_string optional_text
    optional_metadata optional_object metadata_with with_metadata to_post_wire with_optional
    string_or_undefined property_of
post_created = refl

get_post-create_post_example :
    (id : String) × (fields : Fields) × (answer 201 post_fields ≡ answer 201 fields)
    × (value_at "id" fields ≡ string id)
    × (get_post id posted ≡ (ok (answer 200 fields), posted))
get_post-create_post_example =
    get_post-create_post env (λ e w. refl) (λ prefix w. refl) post_request world posted
      (answer 201 post_fields) post_created
