-- ===== src/Router/Registry.antt =====
-- packages/ai-router/src/registry.ts. The five domains are told apart by their lists; `name` reads
-- the name of a provider of the domain.
pub mod Laws
use ascended_core.Base.{String, Bool, not, List, [], ◌∷◌, ◌++◌, filter, str_eq, if◌then◌else◌}
use ascended_core.Core.Errors.{Thrown, js_error}
use ascended_core.Core.Result.{Result, ok, err, ◌>>=◌}
use ascended_core.Router.Providers.{
  TextAiProvider, ImageAiProvider, ThreeDProvider, AiRecommendationProvider,
  HumanRecommendationProvider,
}

-- `upsertByName`
pub upsert_by_name : {T : Type 0} → (T → String) → List T → T → Result (List T) Thrown
upsert_by_name name list provider =
    if str_eq (name provider) ""
    then err (js_error "Provider must have a name")
    else ok (filter (λ p. not (str_eq (name p) (name provider))) list ++ provider ∷ [])

-- The payloads that the providers exchange are parameters.
pub record ProviderRegistry (W A B : Type 0) : Type 0 where
  pub text : List (TextAiProvider W A B)
  pub image : List (ImageAiProvider W A B)
  pub three_d : List (ThreeDProvider W A B B)
  pub ai_rec : List (AiRecommendationProvider W A B)
  pub human_rec : List (HumanRecommendationProvider W A B)

module _ {W A B : Type 0} where
  pub new_registry : ProviderRegistry W A B
  new_registry = record { text = []; image = []; three_d = []; ai_rec = []; human_rec = [] }

  pub register_text_provider :
      ProviderRegistry W A B → TextAiProvider W A B → Result (ProviderRegistry W A B) Thrown
  register_text_provider r provider = do
    list ← upsert_by_name (λ p. p.name) r.text provider
    ok (record r { text = list })

  pub register_image_provider :
      ProviderRegistry W A B → ImageAiProvider W A B → Result (ProviderRegistry W A B) Thrown
  register_image_provider r provider = do
    list ← upsert_by_name (λ p. p.name) r.image provider
    ok (record r { image = list })

  pub register_3d_provider :
      ProviderRegistry W A B → ThreeDProvider W A B B → Result (ProviderRegistry W A B) Thrown
  register_3d_provider r provider = do
    list ← upsert_by_name (λ p. p.name) r.three_d provider
    ok (record r { three_d = list })

  pub register_ai_recommendation_provider :
      ProviderRegistry W A B
      → AiRecommendationProvider W A B
      → Result (ProviderRegistry W A B) Thrown
  register_ai_recommendation_provider r provider = do
    list ← upsert_by_name (λ p. p.name) r.ai_rec provider
    ok (record r { ai_rec = list })

  pub register_human_recommendation_provider :
      ProviderRegistry W A B
      → HumanRecommendationProvider W A B
      → Result (ProviderRegistry W A B) Thrown
  register_human_recommendation_provider r provider = do
    list ← upsert_by_name (λ p. p.name) r.human_rec provider
    ok (record r { human_rec = list })
