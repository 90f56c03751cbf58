-- ===== src/Gateway/Adapter/Edit.antt =====
-- The loops of `_handle_nos_acl` and `_handle_openconfig_acl`, and `handle_edit_config`. An error
-- of one rule ends the loop; what was written before stays.
use s_com_control_plane.Base.{
  List, Option, Text, [], codes, contains, if◌then◌else◌, none, or_else, some, text_dec, text_eq,
  ◌∷◌, ◌≟◌,
}
use s_com_control_plane.Gateway.Session.{SessionContext}
use s_com_control_plane.Gateway.Pool.{Client, Pool}
use s_com_control_plane.Gateway.Adapter.{
  RuleData, Effects, Problem, missing_rule_id, raised, text_or, validate_and_push, delete_rule,
}
use s_com_control_plane.Gateway.Adapter.OpenConfig.{
  RuleElem, AclEntry, AclSet, rule_data, entry_data,
}

-- What the XPath queries of `handle_edit_config` find.
pub data Payload : Type 0 where
  no_config unrecognised : Payload
  nos_acl : List RuleElem → Payload
  openconfig : Option AclSet → Payload

-- A loop that ends at the first error.
abbrev pub each :
    {A : Type 0}
    → (A → Effects → Effects × Option Problem)
    → List A
    → Effects
    → Effects × Option Problem
each f [] e = (e, none)
each f (a ∷ rest) e =
    let (e', o) = f a e in elim o [ some p ↦ (e', some p) | none ↦ each f rest e' ]

module _ (session : Option SessionContext) (pool : Option Pool) (gnmi_client : Option Client)
    (gnmi_set : Client → RuleData → Option Text) (gnmi_delete : Client → Text → Option Text) where
  unfoldable pub push_read : Option RuleData → Effects → Effects × Option Problem
  unfolding validate_and_push
  push_read none e = (e, some raised)
  push_read (some d) e = validate_and_push session pool gnmi_client gnmi_set gnmi_delete d e

  -- One round of the loop, for a rule that has an id.
  unfoldable pub handle_named : Text → RuleElem → Effects → Effects × Option Problem
  unfolding push_read rule_data delete_rule text_dec
  handle_named rule_id r e =
      if contains (or_else r.operation (codes "merge")) (codes "delete" ∷ codes "remove" ∷ [])
      then delete_rule session pool gnmi_client gnmi_set gnmi_delete rule_id e
      else push_read (rule_data rule_id r) e

  unfoldable pub handle_id : Text → RuleElem → Effects → Effects × Option Problem
  unfolding handle_named
  handle_id [] r e = (e, some missing_rule_id)
  handle_id (c ∷ s) r e = handle_named (c ∷ s) r e

  unfoldable pub handle_rule : RuleElem → Effects → Effects × Option Problem
  unfolding handle_id
  handle_rule r e = handle_id (text_or r.rule_id []) r e

  unfoldable pub handle_nos_acl : List RuleElem → Effects → Effects × Option Problem
  unfolding handle_rule
  handle_nos_acl rules e = each handle_rule rules e

  unfoldable pub handle_entry : Text → AclEntry → Effects → Effects × Option Problem
  unfolding validate_and_push entry_data
  handle_entry table entry e =
      validate_and_push session pool gnmi_client gnmi_set gnmi_delete (entry_data table entry) e

  unfoldable pub handle_openconfig_acl : Option AclSet → Effects → Effects × Option Problem
  unfolding handle_entry delete_rule text_dec
  handle_openconfig_acl none e = (e, none)
  handle_openconfig_acl (some s) e =
      let table = or_else s.name (codes "unnamed") in
      if or_else s.operation (codes "merge") ≟ codes "delete"
      then delete_rule session pool gnmi_client gnmi_set gnmi_delete table e
      else each (handle_entry table) s.entries e

  -- `handle_edit_config`; no problem is the reply `ok`.
  unfoldable pub handle_edit_config : Payload → Effects → Effects × Option Problem
  unfolding handle_nos_acl handle_openconfig_acl
  handle_edit_config no_config e = (e, none)
  handle_edit_config unrecognised e = (e, none)
  handle_edit_config (nos_acl rules) e = handle_nos_acl rules e
  handle_edit_config (openconfig s) e = handle_openconfig_acl s e
