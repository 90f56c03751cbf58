-- ===== src/Gateway/Adapter.antt =====
-- secure-framework/netconf_gnmi_adapter.py: an edit-config of the SDN controller becomes gNMI
-- writes of rules at the LEAF switches. The XML search (lxml) gives the elements; a text is what
-- `_text` returns. The device's answer to a write is a parameter: `none`, or the error.
use s_com_control_plane.Base.{
  Bool, List, Option, Text, [], codes, contains, false, if◌then◌else◌, none, not, some, text_dec,
  text_eq, true, ◌++◌, ◌∷◌, ◌≟◌,
}
use s_com_control_plane.Base.Dict.{values}
use s_com_control_plane.Base.Int.{ℤ}
use s_com_control_plane.Gateway.Roles.{SonicRole, OnapRole, onap_dec, onap_eq}
use s_com_control_plane.Gateway.Session.{SessionContext}
use s_com_control_plane.Gateway.Pool.{Client, Pool, get_client_for_zone, get_client_by_key}
pub mod OpenConfig
pub mod Edit
pub mod Laws
pub mod Replies

pub record RuleData : Type 0 where
  pub rule_id : Text
  pub action : Text
  pub src_ip : Text
  pub dst_ip : Text
  pub protocol : Text
  pub src_port : Text
  pub dst_port : Text
  pub priority : ℤ
  pub source : Text
  pub comment : Text
  pub ttl_seconds : ℤ

pub data Value : Type 0 where
  text : Text → Value
  number : ℤ → Value

-- One gNMI update that the device took.
pub record Push : Type 0 where
  pub host : Text
  pub path : Text
  pub body : List (Text × Value)

-- What the tamper log is told.
pub data LogEvent : Type 0 where
  agent_action_blocked : Text → LogEvent
  push_succeeded push_failed : Text → LogEvent

-- The causes of an error reply; `raised` is an exception that `handle_edit_config` catches.
pub data Problem : Type 0 where
  missing_rule_id : Problem
  invalid_action invalid_protocol invalid_source access_denied : Text → Problem
  no_connection no_connection_for_delete : Problem
  set_failed : Text → Problem
  delete_failed : List (Text × Text) → Problem
  raised : Problem

-- What the calls leave behind, newest first.
pub record Effects : Type 0 where
  pub sets : List Push
  pub deletes : List (Text × Text)
  pub log : List LogEvent

abbrev pub valid_actions : List Text
valid_actions = codes "ACCEPT" ∷ codes "DROP" ∷ codes "RETURN" ∷ []

abbrev pub valid_protocols : List Text
valid_protocols = codes "tcp" ∷ codes "udp" ∷ codes "icmp" ∷ codes "all" ∷ []

abbrev pub valid_sources : List Text
valid_sources = codes "manual" ∷ codes "sdnc" ∷ codes "agent" ∷ []

-- `s or d`
abbrev pub text_or : Option Text → Text → Text
text_or none d = d
text_or (some []) d = d
text_or (some (c ∷ s)) d = c ∷ s

unfoldable pub current_onap_role : Option SessionContext → Option OnapRole
current_onap_role none = none
current_onap_role (some c) = some c.onap_role

-- The path of a rule on the device.
abbrev pub rule_path : Text → Text
rule_path rule_id = codes "/nos-iptables:acl/rule[rule-id=" ++ (rule_id ++ codes "]")

abbrev pub with_text : Text → Text → List (Text × Value) → List (Text × Value)
with_text k [] rest = rest
with_text k (c ∷ s) rest = (k, text (c ∷ s)) ∷ rest

-- The fields that are not empty.
unfoldable pub clean : RuleData → List (Text × Value)
clean d = with_text (codes "rule-id") d.rule_id (
    with_text (codes "action") d.action (
      with_text (codes "src-ip") d.src_ip (
        with_text (codes "dst-ip") d.dst_ip (
          with_text (codes "protocol") d.protocol (
            with_text (codes "src-port") d.src_port (
              with_text (codes "dst-port") d.dst_port (
                (codes "priority", number d.priority)
                ∷ with_text (codes "source") d.source (
                    with_text (codes "comment") d.comment
                      ((codes "ttl-seconds", number d.ttl_seconds) ∷ [])))))))))

abbrev pub connected_client : Option Client → Option Client
connected_client none = none
connected_client (some c) = if c.connected then some c else none

-- `client or self.gnmi_client`, connected.
abbrev pub client_or : Option Client → Option Client → Option Client
client_or (some c) own = connected_client (some c)
client_or none own = connected_client own

-- The stamp of an agent's rule.
abbrev pub stamped : RuleData → RuleData
stamped d = record d {
  source = codes "agent";
  comment = text_or (some d.comment) (codes "agent:" ++ d.rule_id);
}

abbrev pub is_agent : Option OnapRole → Bool
unfolding onap_dec
is_agent none = false
is_agent (some r) = r ≟ OnapRole.agent

abbrev pub problem_of : Effects × List (Text × Text) → Effects × Option Problem
problem_of (e, []) = (e, none)
problem_of (e, m ∷ ms) = (e, some (delete_failed (m ∷ ms)))

abbrev pub clients_or : List Client → Option Client → List Client
clients_or (c ∷ cs) own = c ∷ cs
clients_or [] own = elim (connected_client own) [ some c ↦ c ∷ [] | none ↦ [] ]

-- The LEAFs' clients that are connected.
abbrev pub leaf_clients : List Text → Pool → List Client
unfolding get_client_by_key
leaf_clients [] p = []
leaf_clients (leaf ∷ rest) p = elim (get_client_by_key SonicRole.admin leaf p) [
  | some c ↦ c ∷ leaf_clients rest p
  | none ↦ leaf_clients rest p
]

abbrev pub pool_clients : Option Pool → List Client
unfolding leaf_clients
pool_clients none = []
pool_clients (some p) = leaf_clients (values p.leaves) p

module _ (session : Option SessionContext) (pool : Option Pool) (gnmi_client : Option Client)
    (gnmi_set : Client → RuleData → Option Text) (gnmi_delete : Client → Text → Option Text) where
  -- `_get_routed_client`; the outer `none` is an exception.
  abbrev pub routed_client : Option Pool → Text → Option (Option Client)
  unfolding get_client_for_zone
  routed_client none src_ip = some none
  routed_client (some p) src_ip =
      get_client_for_zone SonicRole.admin (text_or (some src_ip) (codes "0.0.0.0/0")) p

  -- After the gNMI set.
  abbrev pub replied : Client → RuleData → Option Text → Effects → Effects × Option Problem
  unfolding clean
  replied c d none e = (
    record e {
      sets = record { host = c.host; path = rule_path d.rule_id; body = clean d } ∷ e.sets;
      log = push_succeeded d.rule_id ∷ e.log;
    },
    none,
  )
  replied c d (some m) e = (record e { log = push_failed d.rule_id ∷ e.log }, some (set_failed m))

  abbrev pub push_through : Option Client → RuleData → Effects → Effects × Option Problem
  unfolding replied
  push_through none d e = (e, some no_connection)
  push_through (some c) d e = replied c d (gnmi_set c d) e

  abbrev pub push_with : Option (Option Client) → RuleData → Effects → Effects × Option Problem
  unfolding push_through
  push_with none d e = (e, some raised)
  push_with (some routed) d e = push_through (client_or routed gnmi_client) d e

  unfoldable pub push_rule : RuleData → Effects → Effects × Option Problem
  unfolding routed_client push_with
  push_rule d e = push_with (routed_client pool d.src_ip) d e

  abbrev pub push_as : Bool → RuleData → Effects → Effects × Option Problem
  unfolding push_rule text_dec
  push_as false d e = push_rule d e
  push_as true d e =
      if d.action ≟ codes "DROP"
      then push_rule (stamped d) e
      else (record e { log = agent_action_blocked d.action ∷ e.log }, some (access_denied d.action))

  -- `_validate_and_push`
  unfoldable pub validate_and_push : RuleData → Effects → Effects × Option Problem
  unfolding push_as is_agent current_onap_role text_dec
  validate_and_push d e =
      if not (contains d.action valid_actions)
      then (e, some (invalid_action d.action))
      else if not (contains d.protocol valid_protocols)
      then (e, some (invalid_protocol d.protocol))
      else if not (contains d.source valid_sources)
      then (e, some (invalid_source d.source))
      else push_as (is_agent (current_onap_role session)) d e

  -- The loop over the clients: what it deletes, and the errors in order.
  abbrev pub delete_all : List Client → Text → Effects → Effects × List (Text × Text)
  delete_all [] rule_id e = (e, [])
  delete_all (c ∷ cs) rule_id e = elim (gnmi_delete c rule_id) [
    | none ↦ delete_all cs rule_id (record e { deletes = (c.host, rule_id) ∷ e.deletes })
    | some m ↦ ((delete_all cs rule_id e).0, (c.host, m) ∷ (delete_all cs rule_id e).1)
  ]

  abbrev pub delete_at : List Client → Text → Effects → Effects × Option Problem
  delete_at [] rule_id e = (e, some no_connection_for_delete)
  delete_at (c ∷ cs) rule_id e = problem_of (delete_all (c ∷ cs) rule_id e)

  -- `_delete_rule`: at every LEAF.
  unfoldable pub delete_rule : Text → Effects → Effects × Option Problem
  unfolding pool_clients
  delete_rule rule_id e = delete_at (clients_or (pool_clients pool) gnmi_client) rule_id e
