-- ===== src/Providers/Authorization.antt =====
-- packages/providers/src/authorization.ts. A permission, an action and a resource type are lists of
-- code points; a role is a text. A role whose name is a property of `Object.prototype` is left out.
pub mod Laws
pub use ascended_core.Base.Codes.{Text, same_text}
use ascended_core.Base.{
  ℕ, String, str_append, Bool, true, false, ◌&&◌, ◌||◌, Option, none, some, List, [], ◌∷◌, ◌==◌,
  if◌then◌else◌,
}
use ascended_core.Base.Dict
use ascended_core.Base.Dict.{Dict}
use ascended_core.Core.Value.{Metadata}

pub record PolicyActor : Type 0 where
  pub account_id : String
  pub roles : Option (List String)
  pub metadata : Option Metadata

pub record PolicyResource : Type 0 where
  pub type : Text
  pub id : Option String
  pub owner_id : Option String
  pub metadata : Option Metadata

pub record PolicyDecision : Type 0 where
  pub allow : Bool
  pub reason : Option String

-- `AllowAllPolicy.can`
allow_all : PolicyActor → Text → PolicyResource → PolicyDecision
allow_all actor action resource = record { allow = true; reason = none }

abbrev pub Permission : Type 0
Permission = Text

abbrev pub RolePermissionMap : Type 0
RolePermissionMap = Dict (List Permission)

-- "*"
abbrev pub star : Text
star = b'*' ∷ []

-- `indexOf(":")` and the two slices
unfoldable pub split_colon : Text → Option (Text × Text)
split_colon [] = none
split_colon (c ∷ s) =
    let rest = split_colon s in
    if c == b':'
    then some ([], s)
    else elim rest [ none ↦ none | some (front, back) ↦ some (c ∷ front, back) ]

-- one segment of a permission against what is asked
abbrev pub segment_ok : Text → Text → Bool
segment_ok given asked = same_text given star || same_text given asked

unfoldable pub matches : Permission → Text → Text → Bool
unfolding split_colon
matches permission action resource_type =
    if same_text permission star then true else elim (split_colon permission) [
      | none ↦ false
      | some (front, back) ↦ segment_ok front action && segment_ok back resource_type
    ]

-- the loop over a role's permissions
unfoldable pub any_matches : List Permission → Text → Text → Bool
any_matches [] action resource_type = false
any_matches (p ∷ ps) action resource_type =
    matches p action resource_type || any_matches ps action resource_type

-- one role of the loop, and what the later ones give: `undefined` is passed over
unfoldable pub grant_of :
    Option (List Permission) → String → Text → Text → Option String → Option String
unfolding any_matches
grant_of none role action resource_type later = later
grant_of (some permissions) role action resource_type later =
    if any_matches permissions action resource_type then some role else later

-- the loop over the actor's roles: the first that grants
unfoldable pub granting_role : RolePermissionMap → List String → Text → Text → Option String
unfolding grant_of
granting_role roles [] action resource_type = none
granting_role roles (role ∷ rest) action resource_type =
    grant_of (Dict.get role roles) role action resource_type
      (granting_role roles rest action resource_type)

-- `actor.roles ?? []`
abbrev pub roles_of : Option (List String) → List String
roles_of none = []
roles_of (some roles) = roles

abbrev pub decision_of : Option String → PolicyDecision
decision_of none = record { allow = false; reason = some "no matching role permission" }
decision_of (some role) = record {
  allow = true;
  reason = some (str_append "granted by role \"" (str_append role "\""));
}

-- `RoleBasedPolicy.can`
unfoldable pub can : RolePermissionMap → PolicyActor → Text → PolicyResource → PolicyDecision
unfolding granting_role
can roles actor action resource =
    decision_of (granting_role roles (roles_of actor.roles) action resource.type)
