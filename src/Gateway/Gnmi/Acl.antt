-- ===== src/Gateway/Gnmi/Acl.antt =====
-- `create_advanced_acl_rule` of secure-framework/gnmi/gnmiclient.py: the rule that a call writes. Its
-- nested JSON is a record with the same members; `none` is a member that is left out.
use s_com_control_plane.Base.{
  Bool, List, Option, Text, [], codes, contains, false, if◌then◌else◌, lower, map, none, or_else,
  some, suc, text_dec, text_eq, true, upper, upper_code, zero, ℕ, ◌++◌, ◌∷◌, ◌≟◌,
}
use s_com_control_plane.Base.Dict.{Dict, lookup}
use s_com_control_plane.Base.Int.{ℤ, pos, ltb_ℤ}
use s_com_control_plane.Agent.Intent.{show_ℕ}
use s_com_control_plane.Gateway.Gnmi.{
  Dial, Rpc, Write, accepted, refused, GnmiClient, Ended, returned, not_connected, raised,
  create_not_connected, create_request, create_success, create_failed, ensure_connected, logged,
  get_available_interfaces,
}

-- The arguments, `none` where they are `None`. Ports are natural numbers.
pub record Arguments : Type 0 where
  pub table_name : Text
  pub acl_type : Text
  pub priority : ℤ
  pub ip_protocol : Option Text
  pub action : Option Text
  pub src_ip : Option Text
  pub dst_ip : Option Text
  pub src_port : Option ℕ
  pub dest_port : Option ℕ
  pub description : Option Text
  pub interfaces : List Text
  pub stage : Text

pub record AclEntry : Type 0 where
  pub sequence_id : ℤ
  pub description : Text
  pub forwarding_action : Text
  pub is_ipv6 : Bool
  pub protocol : Option Text
  pub source_address : Option Text
  pub destination_address : Option Text
  pub source_port : Option ℕ
  pub destination_port : Option ℕ

pub record Binding : Type 0 where
  pub interface : Text
  pub set_name : Text
  pub set_type : Text
  pub is_egress : Bool

pub record AclConfig : Type 0 where
  pub name : Text
  pub set_type : Text
  pub entry : AclEntry
  pub bindings : List Binding

abbrev pub protocol_map : Dict Text (Option Text)
protocol_map =
    (codes "tcp", some (codes "IP_TCP"))
    ∷ (codes "udp", some (codes "IP_UDP"))
    ∷ (codes "icmp", some (codes "IP_ICMP"))
    ∷ (codes "any", none)
    ∷ []

-- A text that is neither `None` nor empty.
abbrev pub given : Option Text → Option Text
given none = none
given (some []) = none
given (some (c ∷ s)) = some (c ∷ s)

-- A port that is neither `None` nor 0.
abbrev pub given_port : Option ℕ → Option ℕ
given_port none = none
given_port (some zero) = none
given_port (some (suc n)) = some (suc n)

unfoldable pub protocol_of : Option Text → Option Text
unfolding text_dec
protocol_of p = elim (given p) [
  | none ↦ none
  | some t ↦ or_else (lookup (lower t) protocol_map) none
]

unfoldable pub action_of : Option Text → Text
unfolding text_dec
action_of a =
    let t = upper (or_else (given a) (codes "DROP")) in
    if contains t (codes "DROP" ∷ codes "ACCEPT" ∷ []) then t else codes "DROP"

-- `str.capitalize`
abbrev pub capitalize : Text → Text
capitalize [] = []
capitalize (c ∷ s) = upper_code c ∷ lower s

abbrev pub protocol_part : Option Text → Text
unfolding text_dec
protocol_part none = []
protocol_part (some t) = if lower t ≟ codes "any" then [] else b' ' ∷ upper t

abbrev pub port_part : Option ℕ → Text
port_part none = []
port_part (some n) = codes " dport " ++ show_ℕ n

-- The description that is made up where none is given.
unfoldable pub description_of : Arguments → Text
unfolding action_of protocol_part
description_of a = or_else (given a.description) (
    capitalize (action_of a.action)
    ++ (protocol_part (given a.ip_protocol) ++ port_part (given_port a.dest_port)))

-- `max(55536, priority)`
unfoldable pub sequence_of : ℤ → ℤ
sequence_of p = if ltb_ℤ (pos 55536) p then p else pos 55536

-- `port and ip_protocol in ["tcp", "udp"]`
unfoldable pub transport_port : Option Text → Option ℕ → Option ℕ
unfolding text_dec
transport_port none port = none
transport_port (some t) port =
    if contains t (codes "tcp" ∷ codes "udp" ∷ []) then given_port port else none

unfoldable pub entry_of : Arguments → AclEntry
unfolding protocol_of action_of description_of sequence_of transport_port text_dec
entry_of a = record {
  sequence_id = sequence_of a.priority;
  description = description_of a;
  forwarding_action = action_of a.action;
  is_ipv6 = a.acl_type ≟ codes "ACL_IPV6";
  protocol = protocol_of a.ip_protocol;
  source_address = given a.src_ip;
  destination_address = given a.dst_ip;
  source_port = transport_port a.ip_protocol a.src_port;
  destination_port = transport_port a.ip_protocol a.dest_port;
}

abbrev pub qualified : Text → Text
qualified acl_type = codes "openconfig-acl:" ++ acl_type

unfoldable pub binding_of : Arguments → Text → Binding
unfolding text_dec
binding_of a name = record {
  interface = name;
  set_name = a.table_name;
  set_type = qualified a.acl_type;
  is_egress = lower a.stage ≟ codes "egress";
}

unfoldable pub config_of : Arguments → List Text → AclConfig
unfolding entry_of binding_of
config_of a names = record {
  name = a.table_name;
  set_type = qualified a.acl_type;
  entry = entry_of a;
  bindings = map (binding_of a) names;
}

abbrev pub ports_or_first : List Text → List Text
ports_or_first [] = codes "Ethernet0" ∷ []
ports_or_first (n ∷ ns) = n ∷ ns

-- The interfaces to bind: those given, or those that the switch has.
unfoldable pub ports_of : List Text → Dial → Rpc (List Text) → GnmiClient → GnmiClient × List Text
unfolding get_available_interfaces
ports_of (n ∷ ns) d names c = (c, n ∷ ns)
ports_of [] d names c = let r = get_available_interfaces d names c in (r.0, ports_or_first r.1)

-- After the write: the messages name the protocol, and `None.upper()` raises.
abbrev pub after_write : Option Text → Text → GnmiClient → GnmiClient × Ended
after_write none table c = (logged (create_failed table) c, raised (codes "AttributeError"))
after_write (some p) table c = (logged (create_success table) c, returned)

-- What the call writes, and how it ends.
abbrev pub written :
    Write
    → (ip_protocol : Option Text) → (table : Text) → AclConfig
    → GnmiClient × Bool
    → GnmiClient × Option AclConfig × Ended
written rpc p table config (c, false) = (logged (create_not_connected table) c, none, not_connected)
written (refused m) p table config (c, true) =
    (logged (create_failed table) (logged (create_request table) c), none, raised m)
written accepted p table config (c, true) =
    let r = after_write p table (logged (create_request table) c) in (r.0, some config, r.1)

-- `create_advanced_acl_rule`: the attempts to connect are those of the interfaces and of the write.
unfoldable pub create_advanced_acl_rule :
    (for_ports for_write : Dial)
    → Rpc (List Text)
    → Write
    → Arguments
    → GnmiClient
    → GnmiClient × Option AclConfig × Ended
unfolding config_of ports_of ensure_connected
create_advanced_acl_rule for_ports for_write names rpc a c =
    let p = ports_of a.interfaces for_ports names c in
    written rpc a.ip_protocol a.table_name (config_of a p.1) (ensure_connected for_write p.0)

-- `create_acl_table_with_rule`
unfoldable pub create_acl_table_with_rule :
    (for_ports for_write : Dial)
    → Rpc (List Text)
    → Write
    → (table acl_type : Text) → ℕ
    → ℤ
    → Text
    → GnmiClient
    → GnmiClient × Option AclConfig × Ended
unfolding create_advanced_acl_rule
create_acl_table_with_rule for_ports for_write names rpc table acl_type port priority protocol c =
    create_advanced_acl_rule for_ports for_write names rpc
      (record {
        table_name = table;
        acl_type = acl_type;
        priority = priority;
        ip_protocol = some protocol;
        action = some (codes "DROP");
        src_ip = none;
        dst_ip = none;
        src_port = none;
        dest_port = some port;
        description = none;
        interfaces = [];
        stage = codes "ingress";
      })
      c
