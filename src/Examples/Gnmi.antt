-- ===== src/Examples/Gnmi.antt =====
-- A rule for the web ports of a switch that has not named its interfaces yet.
use s_com_control_plane.Base.{
  List, Text, [], codes, false, is_some, none, refl, some, text_dec, true, ◌&&◌, ◌∷◌, ◌≡◌,
}
use s_com_control_plane.Base.Int.{pos}
use s_com_control_plane.Gateway.Gnmi.{
  dialled, unreachable, Rpc, gives, fails, accepted, broke, new, read,
}
use s_com_control_plane.Gateway.Gnmi.Acl.{
  Arguments, AclConfig, create_advanced_acl_rule, config_of, transport_port,
}
use s_com_control_plane.Gateway.Gnmi.Laws.{
  Call, IsSound, connecting, monitoring, creating, perform_all, perform_all-IsSound,
}
use s_com_control_plane.Gateway.Gnmi.Rules.{
  AllBind, create_advanced_acl_rule-BindsTo, create_advanced_acl_rule-agrees, has_returned,
  reports_created,
}

abbrev drop_web : Arguments
drop_web = record {
  table_name = codes "WEB";
  acl_type = codes "ACL_IPV4";
  priority = pos 100;
  ip_protocol = some (codes "tcp");
  action = none;
  src_ip = some (codes "10.10.1.5");
  dst_ip = none;
  src_port = none;
  dest_port = some 80;
  description = none;
  interfaces = [];
  stage = codes "ingress";
}

abbrev of_switch : Rpc (List Text)
of_switch = gives (codes "Ethernet8" ∷ codes "Loopback0" ∷ codes "Ethernet4" ∷ [])

abbrev web_config : AclConfig
unfolding config_of
web_config = config_of drop_web (codes "Ethernet4" ∷ codes "Ethernet8" ∷ [])

web_written :
    (create_advanced_acl_rule dialled dialled of_switch accepted drop_web (new true)).1
    ≡ some web_config
unfolding create_advanced_acl_rule new
web_written = refl

web_described : web_config.entry.description ≡ codes "Drop TCP dport 80"
unfolding web_config
web_described = refl

-- The ports of a protocol in capitals are dropped.
upper_case_ports : transport_port (some (codes "TCP")) (some 80) ≡ none
unfolding transport_port text_dec
upper_case_ports = refl

-- A lost stream, then a rule that is written over a new connection.
abbrev lost_and_found : List Call
lost_and_found =
    connecting dialled
    ∷ monitoring dialled broke
    ∷ creating dialled dialled of_switch accepted drop_web
    ∷ []

-- A call that runs into its deadline costs the connection.
deadline_disconnects :
    (read {D = Text} [] dialled (fails (codes "Deadline Exceeded")) (new true)).0.connected ≡ false
unfolding read new
deadline_disconnects = refl

perform_all-IsSound_example : IsSound (perform_all lost_and_found (new true))
perform_all-IsSound_example = perform_all-IsSound true lost_and_found

create_advanced_acl_rule-BindsTo_example : AllBind drop_web web_config.bindings
create_advanced_acl_rule-BindsTo_example =
    create_advanced_acl_rule-BindsTo dialled dialled of_switch accepted drop_web (new true)
      web_config refl web_written

create_advanced_acl_rule-agrees_example :
    let r = create_advanced_acl_rule dialled unreachable of_switch accepted drop_web (new true) in
    (has_returned r.2 ≡ is_some r.1 && true) × (reports_created r.0.log ≡ has_returned r.2)
create_advanced_acl_rule-agrees_example =
    create_advanced_acl_rule-agrees dialled unreachable of_switch accepted drop_web (new true)
