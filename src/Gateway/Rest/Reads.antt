-- ===== src/Gateway/Rest/Reads.antt =====
-- secure-framework/sam/role_api.py: the handlers that read the rules of the LEAFs. What a device
-- answers is a parameter; the data of an answer is its JSON text, empty for an empty object.
use s_com_control_plane.Base.{Option, Text, [], codes, none, some, text_dec, text_eq, ℕ, ◌++◌, ◌∷◌}
use s_com_control_plane.Base.Dict.{Dict, insert}
use s_com_control_plane.Gateway.Roles.{SonicRole}
use s_com_control_plane.Gateway.Pool.{Client, Pool, get_client_by_key}
use s_com_control_plane.Gateway.Adapter.{rule_path}

-- What `gc.get` does.
pub data Answer : Type 0 where
  answers raises : Text → Answer

-- One LEAF of the listing.
pub data Leaf : Type 0 where
  disconnected : Leaf
  rules : Text → Leaf
  unreadable : Text → Leaf

pub data Reply : Type 0 where
  error : ℕ → Text → Reply
  leaves : Dict Text Leaf → Reply
  rule : Text → Dict Text Text → Reply

abbrev pub rules_of : Answer → Leaf
rules_of (answers t) = rules t
rules_of (raises m) = unreadable m

abbrev pub with_data : Text → Answer → Dict Text Text → Dict Text Text
unfolding text_dec
with_data leaf (raises m) results = results
with_data leaf (answers []) results = results
with_data leaf (answers (c ∷ t)) results = insert leaf (c ∷ t) results

module _ (gnmi_get : Client → Text → Answer) where
  abbrev pub leaf_of : Option Client → Leaf
  leaf_of none = disconnected
  leaf_of (some c) = rules_of (gnmi_get c (codes "/nos-iptables:acl/rule"))

  -- The loop over the leaves of the pool, from the results so far.
  abbrev pub read_all : Dict Text Text → Pool → Dict Text Leaf → Dict Text Leaf
  unfolding get_client_by_key text_dec
  read_all [] p results = results
  read_all ((name, leaf_ip) ∷ rest) p results =
      read_all rest p (insert name (leaf_of (get_client_by_key SonicRole.admin leaf_ip p)) results)

  -- `_handle_get_rules`
  unfoldable pub handle_get_rules : Option Pool → Reply
  unfolding read_all
  handle_get_rules none = error 503 (codes "gNMI pool not available")
  handle_get_rules (some p) = leaves (read_all p.leaves p [])

  abbrev pub with_rule : Text → Text → Option Client → Dict Text Text → Dict Text Text
  unfolding with_data
  with_rule name rule_id none results = results
  with_rule name rule_id (some c) results = with_data name (gnmi_get c (rule_path rule_id)) results

  abbrev pub find_all : Dict Text Text → Text → Pool → Dict Text Text → Dict Text Text
  unfolding get_client_by_key with_rule
  find_all [] rule_id p results = results
  find_all ((name, leaf_ip) ∷ rest) rule_id p results =
      find_all rest rule_id p
        (with_rule name rule_id (get_client_by_key SonicRole.admin leaf_ip p) results)

  abbrev pub found : Text → Dict Text Text → Reply
  found rule_id [] = error 404 (codes "Rule '" ++ (rule_id ++ codes "' not found"))
  found rule_id (r ∷ rs) = rule rule_id (r ∷ rs)

  -- `_handle_get_rule`
  unfoldable pub handle_get_rule : Option Pool → Text → Reply
  unfolding find_all
  handle_get_rule none rule_id = error 503 (codes "gNMI pool not available")
  handle_get_rule (some p) rule_id = found rule_id (find_all p.leaves rule_id p [])
