-- ===== src/Gateway/Rest/Policies.antt =====
-- secure-framework/sam/role_api.py: the handlers of the role policies.
use s_com_control_plane.Base.{List, Option, Text, lower, none, some, split, ℕ}
use s_com_control_plane.Gateway.Roles.{
  SonicRole, OnapRole, RolePolicy, RolePolicyEngine, onap_role_of, sonic_role_of, roles_of,
  get_policy, update_policy, reset_to_defaults, updated,
}
use s_com_control_plane.Gateway.Adapter.OpenConfig.{last_piece}
pub mod Laws

-- The members of the body of an update.
pub record PolicyBody : Type 0 where
  pub allowed_sonic_roles : Option (List Text)
  pub default_sonic_role : Option Text

-- An error has its status; the other replies have status 200.
pub data Reply : Type 0 where
  error : ℕ → Reply
  policy : RolePolicy → Reply
  was_reset : Reply

-- A member of the body: absent, or read; `none` is the `ValueError`.
abbrev pub allowed_roles : Option (List Text) → Option (Option (List SonicRole))
allowed_roles none = some none
allowed_roles (some ts) = elim (roles_of ts) [ none ↦ none | some rs ↦ some (some rs) ]

abbrev pub default_role : Option Text → Option (Option SonicRole)
unfolding sonic_role_of
default_role none = some none
default_role (some t) = elim (sonic_role_of t) [ none ↦ none | some r ↦ some (some r) ]

-- The update with what was read.
abbrev pub update_with :
    OnapRole
    → Option (Option (List SonicRole))
    → Option (Option SonicRole)
    → RolePolicyEngine
    → RolePolicyEngine × Reply
unfolding update_policy get_policy
update_with r none d e = (e, error 400)
update_with r (some allowed) none e = (e, error 400)
update_with r (some allowed) (some d) e =
    (update_policy r allowed d e, policy (updated r allowed d (get_policy r e)))

abbrev pub update_named :
    Option OnapRole → Option PolicyBody → RolePolicyEngine → RolePolicyEngine × Reply
unfolding update_with
update_named none body e = (e, error 400)
update_named (some r) none e = (e, error 400)
update_named (some r) (some b) e =
    update_with r (allowed_roles b.allowed_sonic_roles) (default_role b.default_sonic_role) e

-- The role that a path names.
unfoldable pub role_in : Text → Option OnapRole
unfolding onap_role_of
role_in path = onap_role_of (lower (last_piece (split b'/' path)))

-- `POST /policy/{onap_role}`; no body is one that is missing, unreadable or an empty object.
unfoldable pub post_policy : Text → Option PolicyBody → RolePolicyEngine → RolePolicyEngine × Reply
unfolding update_named role_in
post_policy path body e = update_named (role_in path) body e

-- `POST /policy/reset`
unfoldable pub post_reset : RolePolicyEngine → RolePolicyEngine × Reply
unfolding reset_to_defaults
post_reset e = (reset_to_defaults e, was_reset)

abbrev pub policy_or_404 : Option RolePolicy → Reply
policy_or_404 none = error 404
policy_or_404 (some p) = policy p

abbrev pub named_policy : Option OnapRole → RolePolicyEngine → Reply
unfolding get_policy
named_policy none e = error 400
named_policy (some r) e = policy_or_404 (get_policy r e)

-- `GET /policy/{onap_role}`
unfoldable pub read_policy : Text → RolePolicyEngine → Reply
unfolding role_in named_policy
read_policy path e = named_policy (role_in path) e
