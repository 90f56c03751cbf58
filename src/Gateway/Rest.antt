-- ===== src/Gateway/Rest.antt =====
-- secure-framework/sam/role_api.py: the handlers of the rules, over the connection pool. The HTTP
-- server is a library: a handler takes the parsed request and gives the reply. A text or number of
-- the JSON body is read with its type; what the device answers, and whether the tamper log could be
-- imported, are parameters.
use s_com_control_plane.Base.{
  Bool, List, Option, Text, [], codes, contains, if◌then◌else◌, is_empty, length, lower, none, not,
  some, split, starts_with, suc, text_dec, text_eq, upper, zero, ℕ, ◌&&◌, ◌++◌, ◌==◌, ◌∷◌,
}
use s_com_control_plane.Base.Dict.{Dict, values, insert}
use s_com_control_plane.Base.Int.{ℤ, pos, negsuc}
use s_com_control_plane.Agent.Intent.{show_ℕ, show_ℤ}
use s_com_control_plane.Gateway.Roles.{SonicRole}
use s_com_control_plane.Gateway.Pool.{Client, Pool, get_any_client, get_client_by_key, ip_to_leaf}
use s_com_control_plane.Gateway.Adapter.{
  RuleData, Push, Value, text_or, valid_actions, clean, rule_path,
}
use s_com_control_plane.Gateway.Adapter.OpenConfig.{last_piece}
pub mod Laws
pub mod Policies
pub mod Reads
pub mod OneUpdate

-- A port of the JSON body.
pub data Port : Type 0 where
  number : ℤ → Port
  name : Text → Port

-- The members of the JSON body: texts, and whole numbers. They are pairs, those with an underscore first, where the name has two spellings.
pub record RuleBody : Type 0 where
  pub rule_id : Option Text × Option Text
  pub action : Option Text
  pub src_ip : Option Text × Option Text
  pub dst_ip : Option Text × Option Text
  pub protocol : Option Text
  pub src_port : Option Port × Option Port
  pub dst_port : Option Port × Option Port
  pub priority : Option ℤ
  pub source : Option Text
  pub comment : Option Text
  pub ttl_seconds : Option ℤ × Option ℤ

pub data LogEvent : Type 0 where
  rule_pushed : Text → List Text → LogEvent
  rule_deleted : Text → List Text → LogEvent

-- What the calls leave behind, newest first.
pub record Effects : Type 0 where
  pub sets : List Push
  pub deletes : List (Text × Text)
  pub log : List LogEvent

-- The status of an error and its text, `errors` the ones of the devices, with status 500;
-- `pushed` has status 201, `deleted` 200; `raised` is an exception that no handler catches.
pub data Reply : Type 0 where
  error : ℕ → Text → Reply
  errors : List (Text × Text) → Reply
  pushed : Text → List Text → List (Text × Value) → List (Text × Text) → Reply
  deleted : Text → List Text → List (Text × Text) → Reply
  raised : Reply

-- `a or b or d`, of two members of the body.
abbrev pub member_or : Option Text × Option Text → Text → Text
member_or (a, b) d = text_or a (text_or b d)

abbrev pub port_or : Option Port → Text → Text
port_or none d = d
port_or (some (Port.name [])) d = d
port_or (some (Port.name (c ∷ s))) d = c ∷ s
port_or (some (Port.number (pos zero))) d = d
port_or (some (Port.number (pos (suc n)))) d = show_ℕ (suc n)
port_or (some (Port.number (negsuc n))) d = show_ℤ (negsuc n)

abbrev pub number_or : Option ℤ → ℤ → ℤ
number_or none d = d
number_or (some (pos zero)) d = d
number_or (some (pos (suc n))) d = pos (suc n)
number_or (some (negsuc n)) d = negsuc n

-- `(body.get("action") or "DROP").upper()`
abbrev pub action_of : RuleBody → Text
action_of b = upper (text_or b.action (codes "DROP"))

-- The dictionary `rule_data`.
unfoldable pub rule_data : RuleBody → RuleData
rule_data b = record {
  rule_id = member_or b.rule_id [];
  action = action_of b;
  src_ip = member_or b.src_ip [];
  dst_ip = member_or b.dst_ip [];
  protocol = lower (text_or b.protocol (codes "all"));
  src_port = port_or b.src_port.0 (port_or b.src_port.1 []);
  dst_port = port_or b.dst_port.0 (port_or b.dst_port.1 []);
  priority = number_or b.priority (pos 1000);
  source = lower (text_or b.source (codes "manual"));
  comment = text_or b.comment [];
  ttl_seconds = number_or b.ttl_seconds.0 (number_or b.ttl_seconds.1 (pos 0));
}

abbrev pub one_client : Option Client → List Client
one_client none = []
one_client (some c) = c ∷ []

-- The clients of a leaf, where the prefix has one, and else any client.
abbrev pub leaf_or_any : Option Text → Pool → List Client
unfolding get_client_by_key get_any_client
leaf_or_any none p = one_client (get_any_client SonicRole.admin p)
leaf_or_any (some leaf) p = one_client (get_client_by_key SonicRole.admin leaf p)

-- The clients of a rule; `none` is an exception of `ip_to_leaf`.
unfoldable pub rule_clients : Text → Pool → Option (List Client)
unfolding leaf_or_any ip_to_leaf
rule_clients [] p = some (leaf_or_any none p)
rule_clients (c ∷ s) p = elim (ip_to_leaf (c ∷ s)) [
  | none ↦ none
  | some leaf ↦ some (leaf_or_any leaf p)
]

abbrev pub logged : Bool → LogEvent → Effects → Effects
logged b v e = if b then record e { log = v ∷ e.log } else e

module _ (has_log : Bool) (gnmi_set : Client → RuleData → Option Text)
    (gnmi_delete : Client → Text → Option Text) where
  -- After an update that the device took.
  abbrev pub taken : Client → RuleData → Effects → Effects
  unfolding clean
  taken c d e = record e {
    sets = record { host = c.host; path = rule_path d.rule_id; body = clean d } ∷ e.sets;
  }

  -- The loop over the clients: what it writes, the hosts, and the errors.
  abbrev pub push_all :
      List Client → RuleData → Effects → Effects × (List Text × List (Text × Text))
  unfolding taken
  push_all [] d e = (e, ([], []))
  push_all (c ∷ cs) d e = elim (gnmi_set c d) [
    | none ↦ let rest = push_all cs d (taken c d e) in (rest.0, (c.host ∷ rest.1.0, rest.1.1))
    | some m ↦ let rest = push_all cs d e in (rest.0, (rest.1.0, (c.host, m) ∷ rest.1.1))
  ]

  -- After the loop.
  abbrev pub push_reply : RuleData → Effects × (List Text × List (Text × Text)) → Effects × Reply
  unfolding clean
  push_reply d (e, ([], m ∷ ms)) = (e, errors (m ∷ ms))
  push_reply d (e, ([], [])) =
      (logged has_log (rule_pushed d.rule_id []) e, pushed d.rule_id [] (clean d) [])
  push_reply d (e, (h ∷ hs, ms)) =
      (logged has_log (rule_pushed d.rule_id (h ∷ hs)) e, pushed d.rule_id (h ∷ hs) (clean d) ms)

  abbrev pub push_at : Option (List Client) → RuleData → Effects → Effects × Reply
  unfolding push_all push_reply
  push_at none d e = (e, raised)
  push_at (some []) d e = (e, error 503 (codes "No gNMI connection available"))
  push_at (some (c ∷ cs)) d e = push_reply d (push_all (c ∷ cs) d e)

  abbrev pub post_body : Pool → RuleBody → Effects → Effects × Reply
  unfolding push_at rule_clients rule_data text_dec
  post_body p b e =
      if is_empty (member_or b.rule_id [])
      then (e, error 400 (codes "rule_id required"))
      else if not (contains (action_of b) valid_actions)
      then (
        e,
        error 400
            (codes "Invalid action '" ++ (action_of b ++ codes "'. Allowed: ACCEPT, DROP, RETURN")),
      )
      else push_at (rule_clients (rule_data b).src_ip p) (rule_data b) e

  -- `_handle_post_rule`; no body is one that is missing, unreadable or an empty object.
  unfoldable pub handle_post_rule : Option Pool → Option RuleBody → Effects → Effects × Reply
  unfolding post_body
  handle_post_rule none b e = (e, error 503 (codes "gNMI pool not available"))
  handle_post_rule (some p) none e =
      (e, error 400 (codes "JSON body required: {rule_id, action, src_ip, ...}"))
  handle_post_rule (some p) (some b) e = post_body p b e

  -- After a deletion that the device took.
  abbrev pub dropped : Client → Text → Effects → Effects
  dropped c rule_id e = record e { deletes = (c.host, rule_id) ∷ e.deletes }

  -- The loop over the leaves: the deletions, the leaves, and the errors.
  abbrev pub delete_all :
      List Text → Text → Pool → Effects → Effects × (List Text × List (Text × Text))
  unfolding get_client_by_key
  delete_all [] rule_id p e = (e, ([], []))
  delete_all (leaf ∷ leaves) rule_id p e = elim (get_client_by_key SonicRole.admin leaf p) [
    | none ↦ delete_all leaves rule_id p e
    | some c ↦ elim (gnmi_delete c rule_id) [
      | none ↦
          let rest = delete_all leaves rule_id p (dropped c rule_id e) in
          (rest.0, (leaf ∷ rest.1.0, rest.1.1))
      | some m ↦
          let rest = delete_all leaves rule_id p e in (rest.0, (rest.1.0, (leaf, m) ∷ rest.1.1))
    ]
  ]

  abbrev pub delete_reply : Text → Effects × (List Text × List (Text × Text)) → Effects × Reply
  delete_reply rule_id (e, ([], m ∷ ms)) = (e, errors (m ∷ ms))
  delete_reply rule_id (e, ([], [])) =
      (logged has_log (rule_deleted rule_id []) e, deleted rule_id [] [])
  delete_reply rule_id (e, (l ∷ ls, ms)) =
      (logged has_log (rule_deleted rule_id (l ∷ ls)) e, deleted rule_id (l ∷ ls) ms)

  -- `_handle_delete_rule`
  unfoldable pub handle_delete_rule : Option Pool → Text → Effects → Effects × Reply
  unfolding delete_all
  handle_delete_rule none rule_id e = (e, error 503 (codes "gNMI pool not available"))
  handle_delete_rule (some p) rule_id e =
      delete_reply rule_id (delete_all (values p.leaves) rule_id p e)

  -- `do_DELETE`: four pieces are three slashes.
  unfoldable pub do_delete : Option Pool → Text → Effects → Effects × Reply
  unfolding handle_delete_rule
  do_delete p path e =
      if starts_with (codes "/api/rules/") path && length (split b'/' path) == 4
      then handle_delete_rule p (last_piece (split b'/' path)) e
      else (e, error 404 (codes "Not found"))
