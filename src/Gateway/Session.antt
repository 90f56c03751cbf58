-- ===== src/Gateway/Session.antt =====
-- secure-framework/sam/session_context.py: the role of a client from its certificate, and the
-- sessions. `current` is the thread-local of the one client thread that is modelled.
use s_com_control_plane.Base.{
  Bool, Eq, List, Option, Text, [], codes, contains, if◌then◌else◌, length, lower, none, or_else,
  some, text_dec, text_eq, ℕ, ℕ_discrete, ◌∷◌, ◌≟◌,
}
use s_com_control_plane.Base.Dict.{Dict, lookup, insert, erase}
use s_com_control_plane.Gateway.Roles.{
  SonicRole, OnapRole, RolePolicyEngine, sonic_dec, get_allowed_roles, get_default_role, sonic_eq,
}
pub mod Laws

pub record Address : Type 0 where
  pub host : Text
  pub port : ℕ

unfoldable pub address_dec : Discrete Address
unfolding text_dec
address_dec = hlevel (text_dec, ℕ_discrete)

instance abbrev pub address_eq : Eq Address
address_eq = record { dec = address_dec }

pub record SessionContext : Type 0 where
  pub client_addr : Address
  pub onap_role : OnapRole
  pub sonic_role : SonicRole
  pub allowed_sonic_roles : List SonicRole
  pub client_cn : Option Text

unfoldable pub can_use_role : SessionContext → SonicRole → Bool
unfolding sonic_dec
can_use_role c r = contains r c.allowed_sonic_roles

-- The `subject` of a certificate that ssl gives: its relative names, each a list of pairs.
abbrev pub Subject : Type 0
Subject = List (List (Text × Text))

-- `is_security_bypassed`, of the environment variable's value.
unfoldable pub is_security_bypassed : Text → Bool
unfolding text_dec
is_security_bypassed v = contains (lower v) (codes "1" ∷ codes "true" ∷ codes "yes" ∷ [])

-- The dictionary that the loops of `extract_onap_role_from_cert` fill.
abbrev pub put_pairs : List (Text × Text) → Dict Text Text → Dict Text Text
unfolding text_dec
put_pairs [] d = d
put_pairs ((k, v) ∷ kvs) d = put_pairs kvs (insert k v d)

abbrev pub put_subject : Subject → Dict Text Text → Dict Text Text
put_subject [] d = d
put_subject (rdn ∷ rdns) d = put_subject rdns (put_pairs rdn d)

abbrev pub subject_ou : Subject → Text
unfolding text_dec
subject_ou s = lower (or_else (lookup (codes "organizationalUnitName") (put_subject s [])) [])

-- The role of an organizational unit.
unfoldable pub role_of_ou : Text → Option OnapRole
unfolding text_dec
role_of_ou ou =
    if contains ou (codes "internal" ∷ codes "sdnc" ∷ [])
    then some OnapRole.admin
    else if contains ou (codes "aws" ∷ [])
    then some OnapRole.operator
    else if contains ou (codes "auto" ∷ [])
    then some OnapRole.agent
    else none

-- `none` is no certificate, or the empty one.
abbrev pub role_of_cert : Option Subject → Option OnapRole
unfolding role_of_ou
role_of_cert none = some OnapRole.admin
role_of_cert (some s) = role_of_ou (subject_ou s)

-- `bypass` is the value of SECURITY_BYPASS.
unfoldable pub extract_onap_role_from_cert : Text → Option Subject → Option OnapRole
unfolding is_security_bypassed
extract_onap_role_from_cert bypass cert =
    if is_security_bypassed bypass then some OnapRole.admin else role_of_cert cert

-- The first common name of each relative name; the `break` leaves the inner loop alone, so the
-- last one that has a common name counts.
abbrev pub common_name_of : List (Text × Text) → Option Text → Option Text
unfolding text_dec
common_name_of [] cn = cn
common_name_of ((k, v) ∷ kvs) cn = if k ≟ codes "commonName" then some v else common_name_of kvs cn

abbrev pub common_name : Subject → Option Text → Option Text
unfolding text_dec
common_name [] cn = cn
common_name (rdn ∷ rdns) cn = common_name rdns (common_name_of rdn cn)

abbrev pub client_cn_of : Option Subject → Option Text
client_cn_of none = none
client_cn_of (some s) = common_name s none

pub record SessionManager : Type 0 where
  pub policy : RolePolicyEngine
  pub sessions : Dict Address SessionContext
  pub current : Option SessionContext

-- The allowed roles and the default: read-only where the policy allows none.
abbrev pub granted : List SonicRole → Option SonicRole → List SonicRole × Option SonicRole
granted [] d = (SonicRole.operator ∷ [], some SonicRole.operator)
granted (r ∷ rs) d = (r ∷ rs, d)

abbrev pub context_of :
    Address → OnapRole → Option Text → List SonicRole → SonicRole → SessionContext
context_of addr r cn allowed s = record {
  client_addr = addr;
  onap_role = r;
  sonic_role = s;
  allowed_sonic_roles = allowed;
  client_cn = cn;
}

abbrev pub opened : SessionContext → SessionManager → SessionManager
unfolding address_dec
opened c m = record m { sessions = insert c.client_addr c m.sessions; current = some c }

-- What a call of `create_session` does: it denies access, or gives the session.
pub data Created : Type 0 where
  denied : Created
  created : SessionContext → Created

abbrev pub session_for :
    Address
    → OnapRole
    → Option Text
    → List SonicRole × Option SonicRole
    → SessionManager
    → SessionManager × Created
session_for addr r cn (allowed, none) m = (m, denied)
session_for addr r cn (allowed, some s) m =
    let c = context_of addr r cn allowed s in (opened c m, created c)

abbrev pub session_of_role :
    Address → Option Subject → Option OnapRole → SessionManager → SessionManager × Created
unfolding get_allowed_roles get_default_role
session_of_role addr cert none m = (m, denied)
session_of_role addr cert (some r) m =
    session_for addr r (client_cn_of cert)
      (granted (get_allowed_roles r m.policy) (get_default_role r m.policy)) m

-- An allowed role comes from a policy, which has a default: the `denied` of `session_for` does not
-- arise.
unfoldable pub create_session :
    Text → Address → Option Subject → SessionManager → SessionManager × Created
unfolding extract_onap_role_from_cert
create_session bypass addr cert m =
    session_of_role addr cert (extract_onap_role_from_cert bypass cert) m

unfoldable pub get_session : Address → SessionManager → Option SessionContext
unfolding address_dec
get_session addr m = lookup addr m.sessions

unfoldable pub remove_session : Address → SessionManager → SessionManager
unfolding address_dec
remove_session addr m = record m { sessions = erase addr m.sessions; current = none }

unfoldable pub count : SessionManager → ℕ
count m = length m.sessions
