-- ===== src/Gateway/Session/Laws.antt =====
-- What a client holds after it connects.
use s_com_control_plane.Base.{
  List, Option, Text, [], contains, if◌then◌else◌, inl, inr, none, refl, some, true, ◌∷◌, ◌≟◌, ◌≡◌,
}
use s_com_control_plane.Base.Dict.{lookup-insert}
use s_com_control_plane.Gateway.Roles.{
  SonicRole, OnapRole, RolePolicy, sonic_dec, get_policy, allowed_of, default_of, sonic_eq,
}
use s_com_control_plane.Gateway.Roles.Laws.{Consistent, Fits, IsConsistent}
use s_com_control_plane.Gateway.Session.{
  Address, Subject, SessionContext, SessionManager, Created, denied, created, create_session,
  session_of_role, session_for, granted, opened, context_of, client_cn_of,
  extract_onap_role_from_cert, get_session, address_eq,
}

-- The session `c`, as `create_session` hands it to the client at `addr` and leaves it behind.
pub record IsSession (r : OnapRole) (addr : Address) (m m' : SessionManager) (c : SessionContext)
    : Type 0 where
  pub role : c.onap_role ≡ r
  pub usable : contains c.sonic_role c.allowed_sonic_roles ≡ true
  pub found : (a : Address) → get_session a m' ≡ (if a ≟ addr then some c else get_session a m)
  pub at_hand : m'.current ≡ some c
  pub same_policy : m'.policy ≡ m.policy

-- No role: nothing changes. A role: the client has a session.
abbrev pub Opens : OnapRole → Address → SessionManager → SessionManager × Created → Type 0
Opens r addr m (m', denied) = ⊥
Opens r addr m (m', created c) = IsSession r addr m m' c

context-IsSession :
    (r : OnapRole) (addr : Address) (cn : Option Text) (allowed : List SonicRole) (s : SonicRole)
    (m : SessionManager)
    → contains s allowed ≡ true
    → IsSession r addr m
        (opened (context_of addr r cn allowed s) m)
        (context_of addr r cn allowed s)
unfolding get_session
context-IsSession r addr cn allowed s m h = record {
  role = refl;
  usable = h;
  found = λ a. lookup-insert a addr (context_of addr r cn allowed s) m.sessions;
  at_hand = refl;
  same_policy = refl;
}

granted-Opens :
    (r : OnapRole) (addr : Address) (cn : Option Text) (m : SessionManager) (rs : List SonicRole)
    (s : SonicRole)
    → Fits s rs
    → Opens r addr m (session_for addr r cn (granted rs (some s)) m)
unfolding sonic_dec
granted-Opens r addr cn m [] s h =
    context-IsSession r addr cn (SonicRole.operator ∷ []) SonicRole.operator m refl
granted-Opens r addr cn m (q ∷ rs) s (inl h) = context-IsSession r addr cn (q ∷ rs) s m h
granted-Opens r addr cn m (q ∷ rs) s (inr (e, _)) = cc e

session_of_policy-Opens :
    (r : OnapRole) (addr : Address) (cn : Option Text) (m : SessionManager) (o : Option RolePolicy)
    → ((p : RolePolicy) → o ≡ some p → Consistent p)
    → Opens r addr m (session_for addr r cn (granted (allowed_of o) (default_of o)) m)
unfolding sonic_dec
session_of_policy-Opens r addr cn m none h =
    context-IsSession r addr cn (SonicRole.operator ∷ []) SonicRole.operator m refl
session_of_policy-Opens r addr cn m (some p) h =
    granted-Opens r addr cn m p.allowed_sonic_roles p.default_sonic_role (h p refl)

-- Access is denied exactly where the certificate gives no role, and then nothing changes.
abbrev pub Answers : Option OnapRole → Address → SessionManager → SessionManager × Created → Type 0
Answers none addr m answer = answer ≡ (m, denied)
Answers (some r) addr m answer = Opens r addr m answer

session_of_role-Answers :
    (o : Option OnapRole) (addr : Address) (cert : Option Subject) (m : SessionManager)
    → IsConsistent m.policy
    → Answers o addr m (session_of_role addr cert o m)
unfolding session_of_role
session_of_role-Answers none addr cert m h = refl
session_of_role-Answers (some r) addr cert m h =
    unfold IsConsistent in
    session_of_policy-Opens r addr (client_cn_of cert) m (get_policy r m.policy) (λ p e. h r p e)

-- With consistent policies, a client is denied access exactly where its certificate gives no role,
-- and then nothing changes. Any other client gets a session for that role, with a gNMI role that
-- the session allows; it is found under the client's address, the other sessions stay, and it is
-- the one at hand for the thread.
pub create_session-Answers :
    (bypass : Text) (addr : Address) (cert : Option Subject) (m : SessionManager)
    → IsConsistent m.policy
    → Answers (extract_onap_role_from_cert bypass cert) addr m (create_session bypass addr cert m)
unfolding create_session
create_session-Answers bypass addr cert m h =
    session_of_role-Answers (extract_onap_role_from_cert bypass cert) addr cert m h
