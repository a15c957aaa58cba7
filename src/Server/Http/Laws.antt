-- ===== src/Server/Http/Laws.antt =====
-- What a request gets before it reaches a route, and the answers to errors.
use ascended_core.Base.{
  ℕ, String, ◌≡◌, refl, sym, ap, ◌∙◌, false, Option, none, some, [], ◌∷◌, ◌++◌, arith,
  if◌then◌else◌,
}
use ascended_core.Core.Errors.{CoreError, core_error, core, validation}
use ascended_core.Core.Result.{Result, ok, err}
use ascended_core.Core.Ids.{is_entity_id}
use ascended_core.Server.World.{Surroundings, World}
use ascended_core.Server.Routes.{Text, codes, behind}
use ascended_core.Server.Http.{
  Request, resolve_token, demo_token_for, authenticate, is_health_check, handle, handle_private,
  serve, response_of, error_response, status_for_error, status_for_code, reported, account_of,
  token_of, read_body, handle_as, unparsable,
}

behind-append : (prefix s : Text) → behind prefix (prefix ++ s) ≡ some s
behind-append [] s = refl
behind-append (c ∷ prefix) s = ground (arith, behind-append prefix s)

-- A demo token resolves to its account exactly when that is an entity id.
pub resolve-demo_token_for :
    (account_id : Text)
    → resolve_token (demo_token_for account_id)
      ≡ (if is_entity_id account_id then some account_id else none)
unfolding resolve_token demo_token_for
resolve-demo_token_for account_id = refl

abbrev bad_body : CoreError
bad_body = core_error validation "request body is not valid JSON"

-- the answer to a refusal
abbrev refusal_status : Result Text CoreError → ℕ
refusal_status (ok account_id) = 401
refusal_status (err e) = status_for_error e

account_status : (o : Option Text) → refusal_status (account_of o) ≡ 401
unfolding status_for_error
account_status none = refl
account_status (some account_id) = refl

token_status : (trim : Text → Text) (o : Option Text) → refusal_status (token_of trim o) ≡ 401
unfolding status_for_error
token_status trim none = refl
token_status trim (some rest) = account_status (resolve_token (trim rest))

authenticate_status :
    (trim : Text → Text) (header : Option Text) → refusal_status (authenticate trim header) ≡ 401
unfolding authenticate status_for_error
authenticate_status trim none = refl
authenticate_status trim (some header) = token_status trim (behind (codes "Bearer ") header)

module _ {W : Type 0} (env : Surroundings W) (shown : Text → String) (trim : Text → Text) where
  serve_private :
      (version : String) (request : Request) (w : World W)
      → is_health_check request ≡ false
      → serve env shown trim version request w ≡ (
          let (r, w') =
            handle_private env shown trim request
              (env.count_request request.method request.path w) in
          (response_of r, w'))
  unfolding serve handle
  serve_private version request w is_private = rw is_private refl

  handle_refused :
      (request : Request) (w : World W) (e : CoreError)
      → authenticate trim request.authorization ≡ err e
      → handle_private env shown trim request w ≡ (err (core e), w)
  unfolding handle_private
  handle_refused request w e refused = rw (refused, handle_private) refl

  handle_unparsable :
      (request : Request) (w : World W) (account_id : Text)
      → authenticate trim request.authorization ≡ ok account_id
      → read_body request.body ≡ err bad_body
      → handle_private env shown trim request w ≡ (err (core bad_body), w)
  unfolding handle_private handle_as
  handle_unparsable request w account_id known broken =
      rw (known, handle_private) (rw (broken, handle_as) refl)

-- A request that is no health check and whose token is refused is answered with 401, and all that
-- it does to the world is to be counted.
pub serve_refused :
    {W : Type 0} (env : Surroundings W) (shown : Text → String) (trim : Text → Text)
    (version : String) (request : Request) (w : World W) (e : CoreError)
    → is_health_check request ≡ false
    → authenticate trim request.authorization ≡ err e
    → ((serve env shown trim version request w).0.status ≡ 401)
      × ((serve env shown trim version request w).1
          ≡ env.count_request request.method request.path w)
unfolding error_response reported
serve_refused env shown trim version request w e is_private refused =
    rw (serve_private env shown trim version request w is_private) (
      rw
        (handle_refused env shown trim request (env.count_request request.method request.path w) e
          refused)
        (sym (ap refusal_status refused) ∙ authenticate_status trim request.authorization, refl))

-- A request that is authenticated, but whose body is no JSON, is answered with 400, and all that it
-- does to the world is to be counted.
pub serve_unparsable :
    {W : Type 0} (env : Surroundings W) (shown : Text → String) (trim : Text → Text)
    (version : String) (request : Request) (w : World W) (account_id : Text)
    → is_health_check request ≡ false
    → authenticate trim request.authorization ≡ ok account_id
    → request.body ≡ unparsable
    → ((serve env shown trim version request w).0.status ≡ 400)
      × ((serve env shown trim version request w).1
          ≡ env.count_request request.method request.path w)
unfolding error_response status_for_error status_for_code reported read_body
serve_unparsable env shown trim version request w account_id is_private known broken =
    rw (serve_private env shown trim version request w is_private) (
      rw
        (handle_unparsable env shown trim request (env.count_request request.method request.path w)
          account_id known (ap read_body broken))
        (refl, refl))
