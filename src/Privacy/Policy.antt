-- ===== src/Privacy/Policy.antt =====
-- packages/privacy/src/policy.ts. A provider family is any text.
use ascended_core.Base.{String, Option, none, some, List, [], ◌∷◌, ◌++◌}
use ascended_core.Privacy.Modes.{PrivacyMode, cloud, private_local, human}

pub record PrivacyPolicy : Type 0 where
  pub mode : PrivacyMode
  pub allowed_cloud_providers : List String
  pub blocked_families : List String
  pub block_message : Option String

abbrev pub cloud_families : List String
cloud_families = "cloud-text" ∷ "cloud-image" ∷ "cloud-3d" ∷ "remote-inference" ∷ "embeddings" ∷ []

unfoldable pub default_policy_for_mode : PrivacyMode → PrivacyPolicy
default_policy_for_mode cloud = record {
  mode = cloud;
  allowed_cloud_providers = [];
  blocked_families = [];
  block_message = none;
}
default_policy_for_mode private_local = record {
  mode = private_local;
  allowed_cloud_providers = [];
  blocked_families = cloud_families;
  block_message =
      some
        "Cloud provider families are not available in Private Local mode. Use a local provider instead.";
}
default_policy_for_mode human = record {
  mode = human;
  allowed_cloud_providers = [];
  blocked_families = cloud_families ++ "local" ∷ [];
  block_message = some "Human mode is active. Automated provider families are not available.";
}
