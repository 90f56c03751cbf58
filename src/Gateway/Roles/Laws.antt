-- ===== src/Gateway/Roles/Laws.antt =====
-- The default role of a policy against its allowed roles.
use s_com_control_plane.Base.{
  Bool-cases, List, Option, [], arith, contains, if◌then◌else◌, inl, inr, refl, some, subst, sym,
  true, ≟-refl, ◌∙◌, ◌∷◌, ◌≟◌, ◌≡◌, ◌⊎◌,
}
use s_com_control_plane.Base.Dict.{lookup-insert}
use s_com_control_plane.Gateway.Roles.{
  SonicRole, OnapRole, RolePolicy, RolePolicyEngine, sonic_dec, allowed_or, default_or, within,
  updated, first_allowed, new, get_policy, update_policy, reset_to_defaults, sonic_eq, onap_eq,
}

-- The default role is allowed; where nothing is, it is the read-only one.
abbrev pub Fits : SonicRole → List SonicRole → Type 0
Fits s rs = (contains s rs ≡ true) ⊎ ((rs ≡ []) × (s ≡ SonicRole.operator))

abbrev pub Consistent : RolePolicy → Type 0
Consistent p = Fits p.default_sonic_role p.allowed_sonic_roles

unfoldable pub IsConsistent : RolePolicyEngine → Type 0
IsConsistent e = (r : OnapRole) (p : RolePolicy) → get_policy r e ≡ some p → Consistent p

first_allowed-Fits : (rs : List SonicRole) → Fits (first_allowed rs) rs
first_allowed-Fits [] = inr (refl, refl)
first_allowed-Fits (r ∷ rs) = inl (ground (arith, ≟-refl r))

within-Fits : (rs : List SonicRole) (s : SonicRole) → Fits (within rs s) rs
unfolding within
within-Fits rs s = elim (Bool-cases (contains s rs)) [
  | inl h ↦ rw h (inl h)
  | inr h ↦ rw h (first_allowed-Fits rs)
]

pub updated-Consistent :
    (r : OnapRole) (allowed : Option (List SonicRole)) (d : Option SonicRole)
    (current : Option RolePolicy)
    → Consistent (updated r allowed d current)
updated-Consistent r allowed d current =
    within-Fits (allowed_or allowed current) (default_or d current)

-- Reading a policy back after an update: the named role has the new policy, the others theirs.
get_policy-update_policy :
    (q r : OnapRole) (allowed : Option (List SonicRole)) (d : Option SonicRole)
    (e : RolePolicyEngine)
    → get_policy q (update_policy r allowed d e)
      ≡ (if q ≟ r then some (updated r allowed d (get_policy r e)) else get_policy q e)
unfolding get_policy update_policy
get_policy-update_policy q r allowed d e =
    lookup-insert q r (updated r allowed d (get_policy r e)) e.policies

pub update_policy-IsConsistent :
    (r : OnapRole) (allowed : Option (List SonicRole)) (d : Option SonicRole) (e : RolePolicyEngine)
    → IsConsistent e
    → IsConsistent (update_policy r allowed d e)
unfolding IsConsistent
update_policy-IsConsistent r allowed d e h q p found =
    let there = sym (get_policy-update_policy q r allowed d e) ∙ found in
    elim (Bool-cases (q ≟ r)) [
      | inl same ↦
          let now : updated r allowed d (get_policy r e) ≡ p = cc (rw same at there) in
          subst Consistent now (updated-Consistent r allowed d (get_policy r e))
      | inr other ↦ h q p (rw other at there)
    ]

Consistent-some : (q p : RolePolicy) → some q ≡ some p → Consistent q → Consistent p
Consistent-some q p h c = let same : q ≡ p = cc h in subst Consistent same c

new-IsConsistent : IsConsistent new
unfolding new get_policy IsConsistent sonic_dec
new-IsConsistent OnapRole.admin p h = Consistent-some _ p h (inl refl)
new-IsConsistent OnapRole.operator p h = Consistent-some _ p h (inl refl)
new-IsConsistent OnapRole.agent p h = Consistent-some _ p h (inl refl)

reset-IsConsistent : (e : RolePolicyEngine) → IsConsistent (reset_to_defaults e)
unfolding reset_to_defaults new
reset-IsConsistent e = new-IsConsistent

-- The writes that the API offers, imports apart.
pub data Write : Type 0 where
  update : OnapRole → Option (List SonicRole) → Option SonicRole → Write
  reset : Write

-- The writes are listed newest first.
unfoldable pub after : List Write → RolePolicyEngine
unfolding new update_policy reset_to_defaults
after [] = new
after (update r allowed d ∷ ws) = update_policy r allowed d (after ws)
after (reset ∷ ws) = reset_to_defaults (after ws)

pub after-IsConsistent : (ws : List Write) → IsConsistent (after ws)
unfolding after
after-IsConsistent [] = new-IsConsistent
after-IsConsistent (update r allowed d ∷ ws) =
    update_policy-IsConsistent r allowed d (after ws) (after-IsConsistent ws)
after-IsConsistent (reset ∷ ws) = reset-IsConsistent (after ws)

-- After any updates and resets, whatever their arguments, the default role of a policy is one that
-- the policy allows, or the policy allows none and the default is the read-only role.
pub after-Fits :
    (ws : List Write) (r : OnapRole) (p : RolePolicy)
    → get_policy r (after ws) ≡ some p
    → Fits p.default_sonic_role p.allowed_sonic_roles
unfolding IsConsistent
after-Fits ws r p h = after-IsConsistent ws r p h
