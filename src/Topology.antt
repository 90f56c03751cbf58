-- ===== src/Topology.antt =====
-- intelligence-layer/src/core/topology.py: the zones, hosts and leaf switches of the datacenter.
-- The networkx graph over the same tables is not modelled.
pub mod Laws
use s_com_control_plane.Base.{
  Bool, Eq, List, Option, Text, [], before, codes, contains, false, if◌then◌else◌, map, none, some,
  ℕ, ◌∷◌,
}
use s_com_control_plane.Net.{Address, Network, ip_address, ip_network, in_network}

pub data Zone : Type 0 where
  web db app mgt : Zone

pub data Leaf : Type 0 where
  leaf_1 leaf_2 : Leaf

unfoldable pub zone_dec : Discrete Zone
zone_dec = hlevel

instance abbrev pub zone_eq : Eq Zone
zone_eq = record { dec = zone_dec }

pub record ZoneAttrs : Type 0 where
  pub cidr : Text
  pub leaf : Leaf
  pub vlan : ℕ
  pub svi : Text

-- `ZONES`, in the order of the dict.
abbrev pub zones : List (Zone × ZoneAttrs)
zones =
    (
      web,
      record { cidr = codes "10.1.100.0/24"; leaf = leaf_1; vlan = 100; svi = codes "10.1.100.1" },
    )
    ∷ (
      db,
      record { cidr = codes "10.1.200.0/24"; leaf = leaf_1; vlan = 200; svi = codes "10.1.200.1" },
    )
    ∷ (
      app,
      record { cidr = codes "10.2.100.0/24"; leaf = leaf_2; vlan = 100; svi = codes "10.2.100.1" },
    )
    ∷ (
      mgt,
      record { cidr = codes "10.2.50.0/24"; leaf = leaf_2; vlan = 300; svi = codes "10.2.50.1" },
    )
    ∷ []

-- `HOSTS`: the address and the zone of each host.
abbrev pub hosts : List (Text × Zone)
hosts =
    (codes "10.1.100.10", web)
    ∷ (codes "10.1.200.10", db)
    ∷ (codes "10.2.100.10", app)
    ∷ (codes "10.2.50.10", mgt)
    ∷ []

pub record LeafAttrs : Type 0 where
  pub ssh_host : Text
  pub zones_of : List Zone

-- `LEAFS`
abbrev pub leafs : List (Leaf × LeafAttrs)
leafs =
    (leaf_1, record { ssh_host = codes "192.168.122.20"; zones_of = web ∷ db ∷ [] })
    ∷ (leaf_2, record { ssh_host = codes "192.168.122.21"; zones_of = app ∷ mgt ∷ [] })
    ∷ []

-- `addr in ip_network(cidr)`; a malformed constant would raise.
abbrev pub in_cidr : Address → Option Network → Bool
in_cidr a none = false
in_cidr a (some n) = in_network a n

unfoldable pub first_zone : Address → List (Zone × ZoneAttrs) → Option Zone
unfolding ip_network
first_zone a [] = none
first_zone a ((z, attrs) ∷ rest) =
    if in_cidr a (ip_network attrs.cidr) then some z else first_zone a rest

abbrev zone_of : Option Address → Option Zone
zone_of none = none
zone_of (some a) = first_zone a zones

-- The prefix length of a CIDR is dropped before the lookup.
unfoldable pub ip_to_zone : Text → Option Zone
unfolding ip_address first_zone
ip_to_zone ip = zone_of (ip_address (before b'/' ip))

abbrev first_leaf : Zone → List (Leaf × LeafAttrs) → Option Leaf
first_leaf z [] = none
first_leaf z ((l, attrs) ∷ rest) = if contains z attrs.zones_of then some l else first_leaf z rest

abbrev leaf_of_zone : Option Zone → Option Leaf
leaf_of_zone none = none
leaf_of_zone (some z) = first_leaf z leafs

unfoldable pub ip_to_leaf : Text → Option Leaf
unfolding ip_to_zone zone_dec
ip_to_leaf ip = leaf_of_zone (ip_to_zone ip)

-- `zone_svis`
pub zone_svis : List Text
zone_svis = map (λ (z : Zone × ZoneAttrs). z.1.svi) zones
