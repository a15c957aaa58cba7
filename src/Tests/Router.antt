-- ===== src/Tests/Router.antt =====
-- Routing, registration and capabilities at concrete inputs. The world counts calls.
use ascended_core.Base.{
  ℕ, ◌+◌, String, ◌≡◌, ◌≢◌, refl, true, false, none, some, List, [], ◌∷◌, map, str_eq, eq_iff,
  includes, arith,
}
use ascended_core.Core.Errors.{js_error}
use ascended_core.Core.Result.{err}
use ascended_core.Privacy.Modes.{linux, private_local}
use ascended_core.Privacy.Policy.{default_policy_for_mode}
use ascended_core.Router.Providers.{
  fulfils, rejects, CapabilityDescriptor, ProviderResponse, TextAiProvider,
  AiRecommendationProvider, HumanRecommendationProvider,
}
use ascended_core.Router.Attempt.{Candidate, attempt_from, route_exhausted}
use ascended_core.Router.Attempt.Laws.{blocked_log, Settles, attempt_from-Settles}
use ascended_core.Router.Attempt.Log.{IsLogged, attempt_from-IsLogged}
use ascended_core.Router.Routes.{Host, text_candidate, route_text_completion}
use ascended_core.Router.Routes.Laws.{route_text_completion_refused}
use ascended_core.Router.Registry.Laws.{HasDistinctNames}
use ascended_core.Router.Capabilities.{CapabilityQuery, text, unavailable, ProviderHealthSnapshot}
use ascended_core.Tests.Privacy.{local_policy, context, gpt_refused}

abbrev ready : CapabilityDescriptor
ready = record {
  available = true;
  unavailable_reason = none;
  estimated_latency_ms = none;
  requires_explicit_install = none;
  download_size_bytes = none;
}

abbrev answer : ℕ → ProviderResponse ℕ
answer n = record {
  payload = n;
  degraded = false;
  degradation_reason = none;
  telemetry = record {
    provider = "p";
    family = "human";
    request_id = "req_1";
    event_type = "success";
    latency_ms = 5;
    reason = none;
  };
}

abbrev host : Host ℕ
host = record { policy = λ w. local_policy; now = λ w. "t" }

abbrev gpt_text : TextAiProvider ℕ ℕ ℕ
gpt_text = record {
  name = "gpt";
  family = "cloud-text";
  check_capability = λ platform operation w. (fulfils 1 ready, w + 1);
  completion = λ request context w. (fulfils 5 (answer request), w + 1);
}

route_text_completion_refused_example :
    route_text_completion host context 7 (gpt_text ∷ []) none 0 ≡ (
      some (
          err
            (route_exhausted (blocked_log (map (text_candidate host context 7) (gpt_text ∷ []))))),
      0,
    )
route_text_completion_refused_example =
    route_text_completion_refused host context 7 (gpt_text ∷ []) none 0 (gpt_refused, tt)

abbrev gpt_rank : AiRecommendationProvider ℕ ℕ ℕ
gpt_rank = record {
  name = "gpt";
  family = "cloud-text";
  check_capability = λ platform operation w. (fulfils 1 ready, w + 1);
  rank = λ request context w. (fulfils 5 (answer request), w + 1);
}

abbrev editor : HumanRecommendationProvider ℕ ℕ ℕ
editor = record {
  name = "editor";
  check_capability = λ platform w. (fulfils 1 ready, w + 1);
  rank = λ request context w. (fulfils 5 (answer request), w + 1);
}

-- a candidate whose check and dispatch settle, one that fails, and one whose check hangs
abbrev working : Candidate ℕ ℕ
working = record {
  name = "a";
  family = "local";
  check = λ w. (fulfils 1 ready, w + 1);
  execute = λ w. (fulfils 5 (answer 3), w + 1);
}

abbrev failing : Candidate ℕ ℕ
failing = record {
  name = "b";
  family = "local";
  check = λ w. (fulfils 1 ready, w + 1);
  execute = λ w. (rejects 2 (js_error "down"), w + 1);
}

attempt_from-IsLogged_example :
    IsLogged (failing ∷ working ∷ []) [] (attempt_from 10 (failing ∷ working ∷ []) [] 0)
attempt_from-IsLogged_example = attempt_from-IsLogged 10 (failing ∷ working ∷ []) [] 0

failing-Settles : Settles failing
failing-Settles w = ground arith

working-Settles : Settles working
working-Settles w = ground arith

attempt_from-Settles_example : (attempt_from 10 (failing ∷ working ∷ []) [] 0).0 ≢ none
attempt_from-Settles_example =
    attempt_from-Settles 10 (failing ∷ working ∷ []) [] 0 (omega arith)
      (failing-Settles, (working-Settles, tt))

abbrev name_of : String × ℕ → String
name_of p = p.0

abbrev registered : List (String × ℕ)
registered = ("a", 1) ∷ ("b", 2) ∷ []

ne_of_test : (s t : String) → str_eq s t ≡ false → s ≢ t
ne_of_test s t h = ground (arith, h, eq_iff s t)

a-ne-empty : name_of ("a", 3) ≢ ""
a-ne-empty = ne_of_test "a" "" refl

registered-distinct : HasDistinctNames name_of registered
registered-distinct = ((ne_of_test "b" "a" refl, tt), (tt, tt))

abbrev local_text : CapabilityQuery
local_text = record { domain = text; family = "local"; platform = linux }

abbrev down : ProviderHealthSnapshot
down = record { provider_name = "p"; state = unavailable; checked_at = "t"; reason = none }

local_unblocked :
    includes local_text.family (default_policy_for_mode private_local).blocked_families ≡ false
unfolding default_policy_for_mode
local_unblocked = refl
