-- ===== src/Gateway/Roles.antt =====
-- secure-framework/sam/role_policy.py: which gNMI roles a NETCONF client may assume. The engine's
-- methods run under its lock. Certificate paths are left out.
use s_com_control_plane.Base.{
  Bool, Eq, List, Option, Text, [], codes, contains, false, if◌then◌else◌, none, some, text_dec,
  text_eq, true, ◌∷◌, ◌≟◌,
}
use s_com_control_plane.Base.Dict.{Dict, lookup, insert}
pub mod Laws

pub data SonicRole : Type 0 where
  admin operator : SonicRole

pub data OnapRole : Type 0 where
  admin operator agent : OnapRole

unfoldable pub sonic_dec : Discrete SonicRole
sonic_dec = hlevel

instance abbrev pub sonic_eq : Eq SonicRole
sonic_eq = record { dec = sonic_dec }

unfoldable pub onap_dec : Discrete OnapRole
onap_dec = hlevel

instance abbrev pub onap_eq : Eq OnapRole
onap_eq = record { dec = onap_dec }

-- `SonicRole(text)` and `OnapRole(text)`; the `ValueError` of another text is `none`.
unfoldable pub sonic_role_of : Text → Option SonicRole
unfolding text_dec
sonic_role_of s =
    if s ≟ codes "admin"
    then some SonicRole.admin
    else if s ≟ codes "operator"
    then some SonicRole.operator
    else none

unfoldable pub onap_role_of : Text → Option OnapRole
unfolding text_dec
onap_role_of s =
    if s ≟ codes "admin"
    then some OnapRole.admin
    else if s ≟ codes "operator"
    then some OnapRole.operator
    else if s ≟ codes "auto"
    then some OnapRole.agent
    else none

pub record RolePolicy : Type 0 where
  pub onap_role : OnapRole
  pub allowed_sonic_roles : List SonicRole
  pub default_sonic_role : SonicRole

unfoldable pub can_assume : RolePolicy → SonicRole → Bool
unfolding sonic_dec
can_assume p r = contains r p.allowed_sonic_roles

abbrev pub policy_of : OnapRole → List SonicRole → SonicRole → RolePolicy
policy_of r allowed d = record {
  onap_role = r;
  allowed_sonic_roles = allowed;
  default_sonic_role = d;
}

pub record RolePolicyEngine : Type 0 where
  pub policies : Dict OnapRole RolePolicy

-- `DEFAULT_POLICIES`
abbrev pub default_policies : Dict OnapRole RolePolicy
default_policies =
    (
      OnapRole.admin,
      policy_of OnapRole.admin (SonicRole.admin ∷ SonicRole.operator ∷ []) SonicRole.admin,
    )
    ∷ (OnapRole.operator, policy_of OnapRole.operator (SonicRole.operator ∷ []) SonicRole.operator)
    ∷ (OnapRole.agent, policy_of OnapRole.agent (SonicRole.admin ∷ []) SonicRole.admin)
    ∷ []

unfoldable pub new : RolePolicyEngine
new = record { policies = default_policies }

unfoldable pub get_policy : OnapRole → RolePolicyEngine → Option RolePolicy
unfolding onap_dec
get_policy r e = lookup r e.policies

-- The arguments of `update_policy` that are `None`, from the policy at hand.
abbrev pub allowed_or : Option (List SonicRole) → Option RolePolicy → List SonicRole
allowed_or (some rs) current = rs
allowed_or none none = SonicRole.operator ∷ []
allowed_or none (some p) = p.allowed_sonic_roles

abbrev pub default_or : Option SonicRole → Option RolePolicy → SonicRole
default_or (some r) current = r
default_or none none = SonicRole.operator
default_or none (some p) = p.default_sonic_role

-- `allowed[0] if allowed else OPERATOR`
abbrev pub first_allowed : List SonicRole → SonicRole
first_allowed [] = SonicRole.operator
first_allowed (r ∷ rs) = r

abbrev pub within : List SonicRole → SonicRole → SonicRole
unfolding sonic_dec
within allowed d = if contains d allowed then d else first_allowed allowed

-- The policy that `update_policy` stores and returns.
abbrev pub updated :
    OnapRole → Option (List SonicRole) → Option SonicRole → Option RolePolicy → RolePolicy
updated r allowed d current =
    policy_of r (allowed_or allowed current)
      (within (allowed_or allowed current) (default_or d current))

unfoldable pub update_policy :
    OnapRole → Option (List SonicRole) → Option SonicRole → RolePolicyEngine → RolePolicyEngine
unfolding onap_dec get_policy
update_policy r allowed d e = record {
  policies = insert r (updated r allowed d (get_policy r e)) e.policies;
}

unfoldable pub reset_to_defaults : RolePolicyEngine → RolePolicyEngine
reset_to_defaults e = record { policies = default_policies }

abbrev pub policy_allows : Option RolePolicy → SonicRole → Bool
unfolding can_assume
policy_allows none s = false
policy_allows (some p) s = can_assume p s

unfoldable pub can_assume_role : OnapRole → SonicRole → RolePolicyEngine → Bool
unfolding get_policy
can_assume_role r s e = policy_allows (get_policy r e) s

abbrev pub allowed_of : Option RolePolicy → List SonicRole
allowed_of none = []
allowed_of (some p) = p.allowed_sonic_roles

unfoldable pub get_allowed_roles : OnapRole → RolePolicyEngine → List SonicRole
unfolding get_policy
get_allowed_roles r e = allowed_of (get_policy r e)

abbrev pub default_of : Option RolePolicy → Option SonicRole
default_of none = none
default_of (some p) = some p.default_sonic_role

unfoldable pub get_default_role : OnapRole → RolePolicyEngine → Option SonicRole
unfolding get_policy
get_default_role r e = default_of (get_policy r e)

-- One member of the JSON object of `import_policies`, its three keys read.
pub record PolicyData : Type 0 where
  pub onap_role : Text
  pub allowed_sonic_roles : List Text
  pub default_sonic_role : Text

abbrev pub roles_of : List Text → Option (List SonicRole)
unfolding sonic_role_of
roles_of [] = some []
roles_of (t ∷ ts) = elim (sonic_role_of t) [
  | none ↦ none
  | some r ↦ elim (roles_of ts) [ none ↦ none | some rs ↦ some (r ∷ rs) ]
]

-- `RolePolicy.from_dict`
unfoldable pub from_dict : PolicyData → Option RolePolicy
unfolding onap_role_of sonic_role_of
from_dict d = elim (onap_role_of d.onap_role) [
  | none ↦ none
  | some r ↦ elim (roles_of d.allowed_sonic_roles) [
    | none ↦ none
    | some rs ↦ elim (sonic_role_of d.default_sonic_role) [
      | none ↦ none
      | some s ↦ some (policy_of r rs s)
    ]
  ]
]

-- One round of the loop of `import_policies`; `none` is the `ValueError`.
abbrev pub imported : Text → PolicyData → RolePolicyEngine → Option RolePolicyEngine
unfolding onap_role_of from_dict onap_dec
imported t d e = elim (onap_role_of t) [
  | none ↦ none
  | some r ↦ elim (from_dict d) [
    | none ↦ none
    | some p ↦ some (record { policies = insert r p e.policies })
  ]
]

-- `import_policies`, on the object that `json.loads` gave: the engine that it leaves, and whether
-- it returned. What an error interrupts stays imported up to there.
unfoldable pub import_policies :
    List (Text × PolicyData) → RolePolicyEngine → RolePolicyEngine × Bool
import_policies [] e = (e, true)
import_policies ((t, d) ∷ rest) e = elim (imported t d e) [
  | none ↦ (e, false)
  | some e' ↦ import_policies rest e'
]
