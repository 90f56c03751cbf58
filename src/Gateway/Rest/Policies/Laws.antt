-- ===== src/Gateway/Rest/Policies/Laws.antt =====
-- What the requests for policies leave in the engine.
use s_com_control_plane.Base.{List, Option, Text, none, refl, some, ◌≡◌}
use s_com_control_plane.Gateway.Roles.{SonicRole, OnapRole, RolePolicyEngine}
use s_com_control_plane.Gateway.Roles.Laws.{IsConsistent, update_policy-IsConsistent}
use s_com_control_plane.Gateway.Rest.Policies.{
  PolicyBody, Reply, error, policy, was_reset, allowed_roles, default_role, update_with,
  update_named, role_in, post_policy,
}

-- An error leaves the engine as it was.
abbrev pub Kept : RolePolicyEngine → RolePolicyEngine × Reply → Type 0
Kept e (e', error n) = e' ≡ e
Kept e (e', policy p) = Unit
Kept e (e', was_reset) = Unit

update_with-IsConsistent :
    (r : OnapRole) (a : Option (Option (List SonicRole))) (d : Option (Option SonicRole))
    (e : RolePolicyEngine)
    → IsConsistent e
    → IsConsistent (update_with r a d e).0 × Kept e (update_with r a d e)
unfolding update_with
update_with-IsConsistent r none d e h = (h, refl)
update_with-IsConsistent r (some a) none e h = (h, refl)
update_with-IsConsistent r (some a) (some d) e h = (update_policy-IsConsistent r a d e h, tt)

update_named-IsConsistent :
    (o : Option OnapRole) (body : Option PolicyBody) (e : RolePolicyEngine)
    → IsConsistent e
    → IsConsistent (update_named o body e).0 × Kept e (update_named o body e)
unfolding update_named
update_named-IsConsistent none body e h = (h, refl)
update_named-IsConsistent (some r) none e h = (h, refl)
update_named-IsConsistent (some r) (some b) e h =
    update_with-IsConsistent r (allowed_roles b.allowed_sonic_roles)
      (default_role b.default_sonic_role) e h

-- A request to update a policy, whatever its path and its body, keeps the policies consistent, and
-- one that is answered with an error changes none.
post_policy-IsConsistent :
    (path : Text) (body : Option PolicyBody) (e : RolePolicyEngine)
    → IsConsistent e
    → IsConsistent (post_policy path body e).0 × Kept e (post_policy path body e)
unfolding post_policy
post_policy-IsConsistent path body e h = update_named-IsConsistent (role_in path) body e h
