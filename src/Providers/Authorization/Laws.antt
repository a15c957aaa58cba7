-- ===== src/Providers/Authorization/Laws.antt =====
-- Which permissions grant what.
use ascended_core.Base.{
  String, ◌≡◌, refl, ap, ◌∙◌, Bool, true, false, ◌&&◌, ◌||◌, not, Option, none, some, List, [], ◌∷◌,
  ◌++◌, ◌==◌, any, arith, Bool-cases, inl, inr,
}
use ascended_core.Base.Dict
use ascended_core.Base.Dict.{Dict}
use ascended_core.Providers.Authorization.{
  PolicyActor, PolicyResource, Text, Permission, RolePermissionMap, same_text, star, split_colon,
  segment_ok, matches, any_matches, grant_of, granting_role, roles_of, decision_of, can,
}

-- a text without a colon
unfoldable pub has_no_colon : Text → Bool
has_no_colon [] = true
has_no_colon (c ∷ s) = not (c == b':') && has_no_colon s

split_colon-append :
    (a r : Text) → has_no_colon a ≡ true → split_colon (a ++ b':' ∷ r) ≡ some (a, r)
unfolding has_no_colon split_colon
split_colon-append [] r h = refl
split_colon-append (c ∷ a) r h =
    let differ : (c == b':') ≡ false = ground (arith, h) in
    let rest : has_no_colon a ≡ true = ground (arith, h) in
    simp (differ, split_colon-append a r rest)

same_text_refl : (s : Text) → same_text s s ≡ true
same_text_refl [] = refl
same_text_refl (c ∷ s) = ground (arith, same_text_refl s)

colon_not_star : (a r : Text) → same_text (a ++ b':' ∷ r) star ≡ false
colon_not_star [] r = refl
colon_not_star (c ∷ []) r = ground arith
colon_not_star (c ∷ d ∷ a) r = ground arith

-- A permission that is made of an action without a colon and a resource type grants what its two
-- segments grant, each of which is the wildcard or the word that is asked for.
pub matches-append :
    (a r action resource_type : Text)
    → has_no_colon a ≡ true
    → matches (a ++ b':' ∷ r) action resource_type
      ≡ (segment_ok a action && segment_ok r resource_type)
unfolding matches
matches-append a r action resource_type h = rw (colon_not_star a r, split_colon-append a r h) refl

-- a role's permissions match
unfoldable pub grants : Option (List Permission) → Text → Text → Bool
grants none action resource_type = false
grants (some permissions) action resource_type = any_matches permissions action resource_type

abbrev pub role_grants : RolePermissionMap → Text → Text → String → Bool
role_grants roles action resource_type role = grants (Dict.get role roles) action resource_type

abbrev is_some : Option String → Bool
is_some none = false
is_some (some s) = true

grant_of_lem :
    (found : Option (List Permission)) (role : String) (action resource_type : Text)
    (later : Option String)
    → is_some (grant_of found role action resource_type later)
      ≡ (grants found action resource_type || is_some later)
unfolding grant_of grants
grant_of_lem none role action resource_type later = refl
grant_of_lem (some permissions) role action resource_type later =
    elim (Bool-cases (any_matches permissions action resource_type)) [
      | inl granted ↦ rw granted refl
      | inr refused ↦ rw refused refl
    ]

granting_role_lem :
    (roles : RolePermissionMap) (rs : List String) (action resource_type : Text)
    → is_some (granting_role roles rs action resource_type)
      ≡ any (role_grants roles action resource_type) rs
unfolding granting_role
granting_role_lem roles [] action resource_type = refl
granting_role_lem roles (role ∷ rs) action resource_type =
    grant_of_lem (Dict.get role roles) role action resource_type _
    ∙ ap (λ b. role_grants roles action resource_type role || b)
        (granting_role_lem roles rs action resource_type)

allow_lem : (o : Option String) → (decision_of o).allow ≡ is_some o
allow_lem none = refl
allow_lem (some role) = refl

-- The policy allows exactly when one of the actor's roles has a permission that matches.
pub can_lem :
    (roles : RolePermissionMap) (actor : PolicyActor) (action : Text) (resource : PolicyResource)
    → (can roles actor action resource).allow
      ≡ any (role_grants roles action resource.type) (roles_of actor.roles)
unfolding can
can_lem roles actor action resource =
    allow_lem (granting_role roles (roles_of actor.roles) action resource.type)
    ∙ granting_role_lem roles (roles_of actor.roles) action resource.type
