-- ===== src/Safety/Guardrails.antt =====
-- agent/safety/guardrails.py (layer L4): addresses that are never blocked, and allowed actions.
pub mod Laws
use s_com_control_plane.Base.{
  Bool, List, Option, Text, [], before, codes, contains, false, if◌then◌else◌, is_empty, none, not,
  some, text_dec, text_eq, ◌&&◌, ◌||◌, ◌∷◌,
}
use s_com_control_plane.Net.{Address, ip_address, ip_network}
use s_com_control_plane.Topology.{in_cidr}

-- `NEVER_BLOCK`
abbrev pub never_block : List Text
never_block =
    codes "127.0.0.0/8"
    ∷ codes "10.10.6.0/24"
    ∷ codes "192.168.122.0/24"
    ∷ codes "10.1.100.1/32"
    ∷ codes "10.1.200.1/32"
    ∷ codes "10.2.100.1/32"
    ∷ codes "10.2.50.1/32"
    ∷ []

-- `frozenset(_KG_ALLOWED)`; where the import fails (`none`) only DROP is left.
abbrev pub allowed_agent_actions : Option (List Text) → List Text
allowed_agent_actions none = codes "DROP" ∷ []
allowed_agent_actions (some loaded) = loaded

-- The list that `knowledge/infra/invariants.md` gives.
abbrev pub authored_actions : List Text
authored_actions = codes "DROP" ∷ codes "log_only" ∷ []

unfoldable pub in_any : Address → List Text → Bool
in_any a [] = false
in_any a (cidr ∷ rest) = in_cidr a (ip_network cidr) || in_any a rest

abbrev protects : Option Address → Bool
protects none = false
protects (some a) = in_any a never_block

-- The prefix length of a CIDR is dropped before the test.
unfoldable pub is_protected_ip : Text → Bool
unfolding ip_address ip_network in_any
is_protected_ip ip = protects (ip_address (before b'/' ip))

pub data GuardError : Type 0 where
  never_block_src never_block_dst action_not_allowed : Text → GuardError

unfoldable pub check_never_block : Text → Text → Option GuardError
unfolding is_protected_ip
check_never_block src_ip dst_ip =
    if is_protected_ip src_ip
    then some (never_block_src src_ip)
    else if not (is_empty dst_ip) && is_protected_ip dst_ip
    then some (never_block_dst dst_ip)
    else none

unfoldable pub check_allowed_action : List Text → Text → Option GuardError
unfolding text_dec
check_allowed_action allowed action =
    if contains action allowed then none else some (action_not_allowed action)
