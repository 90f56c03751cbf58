-- ===== src/Gateway/Adapter/OpenConfig.antt =====
-- The elements of an edit-config, native or OpenConfig, and the rules that they stand for: the
-- dictionaries of `_handle_nos_acl` and `_handle_openconfig_acl`.
use s_com_control_plane.Base.{
  List, Option, Text, [], codes, contains, decimal, if◌then◌else◌, is_numeral, lower, none, or_else,
  some, split, text_dec, text_eq, upper, ◌++◌, ◌∷◌,
}
use s_com_control_plane.Base.Dict.{Dict, lookup}
use s_com_control_plane.Base.Int.{ℤ, pos}
use s_com_control_plane.Agent.Intent.{Field, get_or}
use s_com_control_plane.Gateway.Adapter.{RuleData, text_or, valid_actions}

-- A `rule` element. A number is `missing` where its text is absent or empty, and `bad` where `int`
-- refuses it.
pub record RuleElem : Type 0 where
  pub operation : Option Text
  pub rule_id : Option Text
  pub action : Option Text
  pub src_ip : Option Text
  pub dst_ip : Option Text
  pub protocol : Option Text
  pub src_port : Option Text
  pub dst_port : Option Text
  pub priority : Field ℤ
  pub source : Option Text
  pub comment : Option Text
  pub ttl_seconds : Field ℤ

-- `none` is the `ValueError` of `int`.
unfoldable pub rule_data : Text → RuleElem → Option RuleData
rule_data rule_id r = elim (get_or r.priority (pos 1000)) [
  | none ↦ none
  | some priority ↦ elim (get_or r.ttl_seconds (pos 0)) [
    | none ↦ none
    | some ttl_seconds ↦ some (record {
      rule_id = rule_id;
      action = upper (text_or r.action (codes "DROP"));
      src_ip = text_or r.src_ip [];
      dst_ip = text_or r.dst_ip [];
      protocol = lower (text_or r.protocol (codes "all"));
      src_port = text_or r.src_port [];
      dst_port = text_or r.dst_port [];
      priority = priority;
      source = lower (text_or r.source (codes "sdnc"));
      comment = text_or r.comment [];
      ttl_seconds = ttl_seconds;
    })
  ]
]

-- An `acl-entry` element.
pub record AclEntry : Type 0 where
  pub sequence_id : Option Text
  pub forwarding_action : Option Text
  pub source_address : Option Text
  pub destination_address : Option Text
  pub protocol : Option Text
  pub destination_port : Option Text
  pub source_port : Option Text

-- The first `acl-set` element; `name` is the text of its first `name` element, "None" if that is
-- empty, and `none` if there is no such element.
pub record AclSet : Type 0 where
  pub operation : Option Text
  pub name : Option Text
  pub entries : List AclEntry

-- `pieces[-1]`
abbrev pub last_piece : List Text → Text
last_piece [] = []
last_piece (w ∷ []) = w
last_piece (w ∷ v ∷ ws) = last_piece (v ∷ ws)

abbrev pub proto_map : Dict Text Text
proto_map =
    (codes "IP_TCP", codes "tcp")
    ∷ (codes "IP_UDP", codes "udp")
    ∷ (codes "IP_ICMP", codes "icmp")
    ∷ (codes "TCP", codes "tcp")
    ∷ (codes "UDP", codes "udp")
    ∷ (codes "ICMP", codes "icmp")
    ∷ (codes "6", codes "tcp")
    ∷ (codes "17", codes "udp")
    ∷ (codes "1", codes "icmp")
    ∷ []

-- The bridge has no REJECT: what it does not know is a DROP.
unfoldable pub known_action : Text → Text
unfolding text_dec
known_action a = if contains a valid_actions then a else codes "DROP"

unfoldable pub known_protocol : Text → Text
unfolding text_dec
known_protocol p = or_else (lookup p proto_map) (codes "all")

-- The rule of an entry of the table `table`.
unfoldable pub entry_data : Text → AclEntry → RuleData
unfolding known_action known_protocol
entry_data table e =
    let seq_id = text_or e.sequence_id (codes "1000") in
    record {
      rule_id = table ++ b'-' ∷ seq_id;
      action =
          known_action
            (upper (last_piece (split b':' (text_or e.forwarding_action (codes "DROP")))));
      src_ip = text_or e.source_address [];
      dst_ip = text_or e.destination_address [];
      protocol = known_protocol (upper (text_or e.protocol (codes "all")));
      src_port = text_or e.source_port [];
      dst_port = text_or e.destination_port [];
      priority = if is_numeral seq_id then pos (decimal seq_id) else pos 1000;
      source = codes "sdnc";
      comment = codes "oc-acl:" ++ table;
      ttl_seconds = pos 0;
    }
