-- ===== src/Gateway/Pool.antt =====
-- secure-framework/nos_gnmi_pool.py: the connections to the LEAF switches, and the routing of a
-- source prefix to the LEAF of its zone. The gNMI client is a library: what its `connect` answers,
-- and whether the certificate files exist, are parameters. `_enabled` is never read and left out.
use s_com_control_plane.Base.{
  Bool, Eq, List, Option, Text, [], codes, false, if◌then◌else◌, is_some, none, some, text_dec,
  true, ◌∷◌,
}
use s_com_control_plane.Base.Dict.{Dict, lookup, insert, values}
use s_com_control_plane.Net.{Network, ip_network, subnet_of}
use s_com_control_plane.Gateway.Roles.{SonicRole, sonic_dec}
pub mod Routing

abbrev pub default_leaf1 : Text
default_leaf1 = codes "192.168.122.20"

abbrev pub default_leaf2 : Text
default_leaf2 = codes "192.168.122.21"

-- `ZONE_TO_LEAF`
abbrev pub zone_to_leaf : List (Text × Text)
zone_to_leaf =
    (codes "10.1.100.0/24", codes "192.168.122.20")
    ∷ (codes "10.1.200.0/24", codes "192.168.122.20")
    ∷ (codes "10.2.100.0/24", codes "192.168.122.21")
    ∷ (codes "10.2.50.0/24", codes "192.168.122.21")
    ∷ []

-- `net.subnet_of(zone_net)`; a malformed constant would raise.
abbrev pub within_cidr : Network → Option Network → Option Bool
within_cidr n none = none
within_cidr n (some z) = subnet_of n z

abbrev pub next : Option Bool → Text → Option (Option Text) → Option (Option Text)
next none leaf rest = none
next (some true) leaf rest = some (some leaf)
next (some false) leaf rest = rest

-- The loop of `ip_to_leaf`; the outer `none` is the `TypeError` of an IPv6 network.
unfoldable pub first_leaf : Network → List (Text × Text) → Option (Option Text)
unfolding ip_network
first_leaf n [] = some none
first_leaf n ((cidr, leaf) ∷ rest) = next (within_cidr n (ip_network cidr)) leaf (first_leaf n rest)

abbrev pub leaf_of_network : Option Network → Option (Option Text)
unfolding first_leaf
leaf_of_network none = some none
leaf_of_network (some n) = first_leaf n zone_to_leaf

unfoldable pub ip_to_leaf : Text → Option (Option Text)
unfolding ip_network leaf_of_network
ip_to_leaf src = leaf_of_network (ip_network src)

pub record Client : Type 0 where
  pub host : Text
  pub connected : Bool

pub record Key : Type 0 where
  pub role : SonicRole
  pub leaf_ip : Text

unfoldable pub key_dec : Discrete Key
key_dec = hlevel (text_dec, sonic_dec)

instance abbrev pub key_eq : Eq Key
key_eq = record { dec = key_dec }

pub record Pool : Type 0 where
  pub leaves : Dict Text Text
  pub connections : Dict Key (Option Client)

abbrev pub key : SonicRole → Text → Key
key r leaf = record { role = r; leaf_ip = leaf }

unfoldable pub new : Dict Text Text → Pool
new leaves = record { leaves = leaves; connections = [] }

-- `client and client.connected`, of what `_connections.get` gives.
abbrev pub active : Option (Option Client) → Option Client
active none = none
active (some none) = none
active (some (some c)) = if c.connected then some c else none

unfoldable pub get_client_by_key : SonicRole → Text → Pool → Option Client
unfolding key_dec
get_client_by_key r leaf p = active (lookup (key r leaf) p.connections)

abbrev pub routed : Option Text → Text
routed none = default_leaf1
routed (some leaf) = leaf

-- The outer `none` is an exception.
unfoldable pub get_client_for_zone : SonicRole → Text → Pool → Option (Option Client)
unfolding ip_to_leaf get_client_by_key
get_client_for_zone r src_prefix p = elim (ip_to_leaf src_prefix) [
  | none ↦ none
  | some leaf ↦ some (get_client_by_key r (routed leaf) p)
]

abbrev pub first_active : SonicRole → List Text → Pool → Option Client
unfolding get_client_by_key
first_active r [] p = none
first_active r (leaf ∷ rest) p = elim (get_client_by_key r leaf p) [
  | some c ↦ some c
  | none ↦ first_active r rest p
]

unfoldable pub get_any_client : SonicRole → Pool → Option Client
unfolding first_active
get_any_client r p = first_active r (values p.leaves) p

unfoldable pub is_connected : SonicRole → Text → Pool → Bool
unfolding get_client_by_key
is_connected r leaf p = is_some (get_client_by_key r leaf p)

-- The handler of a lost connection.
unfoldable pub disconnected : SonicRole → Text → Pool → Pool
unfolding key_dec
disconnected r leaf p = record p { connections = insert (key r leaf) none p.connections }

unfoldable pub close_all : Pool → Pool
close_all p = record p { connections = [] }

module _ (creds_exist : SonicRole → Bool) (connect : SonicRole → Text → Bool) where
  unfoldable pub connect_role_leaf : SonicRole → Text → Pool → Pool × Bool
  unfolding key_dec
  connect_role_leaf r leaf p =
      if creds_exist r
      then (if connect r leaf
          then (
            record p {
              connections =
                  insert (key r leaf) (some (record { host = leaf; connected = true }))
                    p.connections;
            },
            true,
          )
          else (p, false))
      else (p, false)

  -- The old client is closed and forgotten before the new one connects.
  unfoldable pub reconnect : SonicRole → Text → Pool → Pool × Bool
  unfolding connect_role_leaf disconnected key_dec
  reconnect r leaf p = elim (lookup (key r leaf) p.connections) [
    | some (some c) ↦ connect_role_leaf r leaf (disconnected r leaf p)
    | _ ↦ connect_role_leaf r leaf p
  ]

  abbrev pub connect_leaves : SonicRole → List Text → Pool → Pool
  unfolding connect_role_leaf
  connect_leaves r [] p = p
  connect_leaves r (leaf ∷ rest) p = connect_leaves r rest (connect_role_leaf r leaf p).0

  unfoldable pub connect_all : Pool → Pool
  unfolding connect_leaves
  connect_all p =
      connect_leaves SonicRole.operator (values p.leaves)
        (connect_leaves SonicRole.admin (values p.leaves) p)
