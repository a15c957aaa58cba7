-- ===== src/Tests/Privacy.antt =====
-- Telemetry, the enforcer and minimisation at concrete inputs.
use ascended_core.Base.{
  String, ◌≡◌, ◌↔◌, ◌≢◌, ◌⊎◌, refl, inr, true, false, none, [], ◌∷◌, includes, arith,
}
use ascended_core.Core.Value.{Value, string, object, array, number, cons, nil, Fields, end, field}
use ascended_core.Core.Result.{ok, err}
use ascended_core.Privacy.Modes.{linux, private_local, is_human}
use ascended_core.Privacy.Context.{RequestContext}
use ascended_core.Privacy.Policy.{PrivacyPolicy}
use ascended_core.Privacy.Telemetry.{sanitize_telemetry}
use ascended_core.Privacy.Telemetry.Laws.{IsPlainlyClean, sanitize_telemetry_exact}
use ascended_core.Privacy.Enforcer.{validate_provider_call}
use ascended_core.Privacy.Enforcer.Laws.{validate-eq-ok_iff, validate_refused, block_error}

abbrev usage : Fields
usage = field "prompt" (string "secret") (field "latencyMs" (number 12) end)

abbrev event : Value
event = object (field "items" (array (cons (object usage) nil)) (field "body" (string "x") end))

sanitize_telemetry_exact_example :
    IsPlainlyClean (sanitize_telemetry event)
    × ((sanitize_telemetry event ≡ event) ↔ IsPlainlyClean event)
sanitize_telemetry_exact_example = sanitize_telemetry_exact event

abbrev pub local_policy : PrivacyPolicy
local_policy = record {
  mode = private_local;
  allowed_cloud_providers = "trusted" ∷ [];
  blocked_families = "cloud-text" ∷ [];
  block_message = none;
}

abbrev pub context : RequestContext
context = record {
  request_id = "req_1";
  user_id = none;
  platform = linux;
  privacy_mode = private_local;
  feature = "chat";
  operation = none;
  timestamp = "2026-01-01T00:00:00.000Z";
  metadata = none;
}

validate-eq-ok_iff_example :
    (validate_provider_call local_policy "t" "gpt" "cloud-text" context ≡ ok tt) ↔ (
      (includes "cloud-text" local_policy.blocked_families ≡ false)
      ⊎ ((is_human local_policy.mode ≡ false)
          × (includes "gpt" local_policy.allowed_cloud_providers ≡ true)))
validate-eq-ok_iff_example = validate-eq-ok_iff local_policy "t" "gpt" "cloud-text" context

pub gpt_refused : validate_provider_call local_policy "t" "gpt" "cloud-text" context ≢ ok tt
unfolding is_human
gpt_refused = ground (arith, validate-eq-ok_iff local_policy "t" "gpt" "cloud-text" context)

validate_refused_example :
    validate_provider_call local_policy "t" "gpt" "cloud-text" context
    ≡ err (block_error local_policy "t" "gpt" "cloud-text" context)
validate_refused_example =
    validate_refused local_policy "t" "gpt" "cloud-text" context refl (inr refl)

abbrev cloud_text : String
cloud_text = "cloud-text"
