-- ===== src/Examples/Gateway.antt =====
-- A client of the gateway, from its certificate to the rules that it gets written.
use s_com_control_plane.Base.{
  All, List, [], codes, false, length, none, or_else, refl, some, text_dec, text_eq, true, ◌∷◌, ◌≟◌,
  ◌≡◌,
}
use s_com_control_plane.Agent.Intent.{missing}
use s_com_control_plane.Gateway.Roles.{
  SonicRole, OnapRole, policy_of, get_policy, update_policy, new, onap_dec, sonic_dec, onap_eq,
}
use s_com_control_plane.Gateway.Roles.Laws.{
  Write, update, reset, after, Fits, after-Fits, after-IsConsistent,
}
use s_com_control_plane.Gateway.Session.{
  Address, Subject, SessionContext, SessionManager, create_session, extract_onap_role_from_cert,
}
use s_com_control_plane.Gateway.Session.Laws.{Answers, create_session-Answers}
use s_com_control_plane.Gateway.Pool.{Client}
use s_com_control_plane.Gateway.Adapter.{Effects, current_onap_role}
use s_com_control_plane.Gateway.Adapter.OpenConfig.{RuleElem, AclEntry, AclSet}
use s_com_control_plane.Gateway.Adapter.Replies.{AllOrFewer, handle_edit_config-AllOrFewer}
use s_com_control_plane.Gateway.Adapter.Edit.{nos_acl, openconfig, handle_edit_config}
use s_com_control_plane.Gateway.Adapter.Laws.{Writes, handle_edit_config-Writes}

-- The operator may do nothing, and is to default to the administrator.
abbrev writes : List Write
writes = update OnapRole.operator (some []) (some SonicRole.admin) ∷ reset ∷ []

operator_policy :
    get_policy OnapRole.operator (after writes)
    ≡ some (policy_of OnapRole.operator [] SonicRole.operator)
unfolding after get_policy onap_dec sonic_dec update_policy new
operator_policy = refl

after-Fits_example : Fits SonicRole.operator []
after-Fits_example =
    after-Fits writes OnapRole.operator (policy_of OnapRole.operator [] SonicRole.operator)
      operator_policy

abbrev agent_cert : Subject
agent_cert =
    ((codes "organizationalUnitName", codes "auto") ∷ [])
    ∷ ((codes "commonName", codes "agent-ids") ∷ [])
    ∷ []

abbrev agent_addr : Address
agent_addr = record { host = codes "10.10.6.5"; port = 50000 }

abbrev manager : SessionManager
manager = record { policy = after writes; sessions = []; current = none }

create_session-Answers_example :
    Answers
      (extract_onap_role_from_cert [] (some agent_cert))
      agent_addr
      manager
      (create_session [] agent_addr (some agent_cert) manager)
create_session-Answers_example =
    create_session-Answers [] agent_addr (some agent_cert) manager (after-IsConsistent writes)

abbrev agent_session : SessionContext
agent_session = record {
  client_addr = agent_addr;
  onap_role = OnapRole.agent;
  sonic_role = SonicRole.admin;
  allowed_sonic_roles = SonicRole.admin ∷ [];
  client_cn = some (codes "agent-ids");
}

abbrev drop_rule : RuleElem
drop_rule = record {
  operation = none;
  rule_id = some (codes "r1");
  action = some (codes "drop");
  src_ip = some (codes "10.1.100.10/32");
  dst_ip = none;
  protocol = none;
  src_port = none;
  dst_port = none;
  priority = missing;
  source = none;
  comment = none;
  ttl_seconds = missing;
}

abbrev leaf_client : Client
leaf_client = record { host = codes "192.168.122.20"; connected = true }

abbrev untouched : Effects
untouched = record { sets = []; deletes = []; log = [] }

handle_edit_config-Writes_example :
    All
      (Writes (current_onap_role (some agent_session)))
      (handle_edit_config
        (some agent_session)
        none
        (some leaf_client)
        (λ _ _. none)
        (λ _ _. none)
        (nos_acl (drop_rule ∷ []))
        untouched).0.sets
handle_edit_config-Writes_example =
    handle_edit_config-Writes (some agent_session) none (some leaf_client) (λ _ _. none)
      (λ _ _. none) (nos_acl (drop_rule ∷ [])) untouched tt

abbrev deny_entry : AclEntry
deny_entry = record {
  sequence_id = some (codes "10");
  forwarding_action = some (codes "oc-acl:REJECT");
  source_address = some (codes "10.1.100.10/32");
  destination_address = none;
  protocol = some (codes "IP_TCP");
  destination_port = none;
  source_port = none;
}

abbrev deny_set : AclSet
deny_set = record {
  operation = none;
  name = some (codes "block");
  entries = deny_entry ∷ deny_entry ∷ [];
}

deny_set_merges : (or_else deny_set.operation (codes "merge") ≟ codes "delete") ≡ false
unfolding text_dec
deny_set_merges = refl

handle_edit_config-AllOrFewer_example :
    AllOrFewer none none
      (some leaf_client)
      (λ _ _. none)
      (λ _ _. none)
      (length deny_set.entries)
      untouched
      (handle_edit_config none none
        (some leaf_client)
        (λ _ _. none)
        (λ _ _. none)
        (openconfig (some deny_set))
        untouched)
handle_edit_config-AllOrFewer_example =
    handle_edit_config-AllOrFewer none none (some leaf_client) (λ _ _. none) (λ _ _. none) deny_set
      untouched deny_set_merges
