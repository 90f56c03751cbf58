-- ===== src/Gateway/Pool/Routing.antt =====
-- The gateway's routing against the topology of the agent.
use s_com_control_plane.Base.{
  Option, Text, arith, if◌then◌else◌, none, refl, some, ℕ, ◌&&◌, ◌*◌, ◌++◌, ◌-◌, ◌/◌, ◌<◌, ◌==◌,
  ◌^◌, ◌∷◌, ◌≡◌, ◌≤◌, ◌⊎◌,
}
use s_com_control_plane.Net.{net4, masked, ip_network}
use s_com_control_plane.Net.Dotted.{dotted, digits, number}
use s_com_control_plane.Net.Prefix.{ip_network-dotted_prefix}
use s_com_control_plane.Topology.{Leaf, leaf_1, leaf_2, zone_dec}
use s_com_control_plane.Topology
use s_com_control_plane.Topology.Laws.{ip_to_zone-prefix}
use s_com_control_plane.Gateway.Pool.{
  ip_to_leaf, first_leaf, leaf_of_network, zone_to_leaf, default_leaf1, default_leaf2,
}

-- The address of a LEAF.
abbrev pub leaf_host : Option Leaf → Option Text
leaf_host none = none
leaf_host (some leaf_1) = some default_leaf1
leaf_host (some leaf_2) = some default_leaf2

-- Dropping up to eight bits leaves the first three octets.
remask : (k n : ℕ) → k ≤ 8 → n / 2 ^ k * 2 ^ k / 256 ≡ n / 256
remask k n h =
    let up_to_four : (k ≡ 0) ⊎ ((k ≡ 1) ⊎ ((k ≡ 2) ⊎ ((k ≡ 3) ⊎ ((k ≡ 4) ⊎ (5 ≤ k))))) =
      ground arith in
    let up_to_eight : (k ≤ 4) ⊎ ((k ≡ 5) ⊎ ((k ≡ 6) ⊎ ((k ≡ 7) ⊎ (k ≡ 8)))) = ground arith in
    ground arith

abbrev octets_leaf : ℕ → ℕ → ℕ → Option Text
octets_leaf a b c =
    if a == 10 && b == 1 && c == 100
    then some default_leaf1
    else if a == 10 && b == 1 && c == 200
    then some default_leaf1
    else if a == 10 && b == 2 && c == 100
    then some default_leaf2
    else if a == 10 && b == 2 && c == 50
    then some default_leaf2
    else none

module _ (a b c d : ℕ) (ha : a < 256) (hb : b < 256) (hc : c < 256) (hd : d < 256) where
  first_leaf-narrow :
      (m p : ℕ)
      → 24 ≤ p
      → m / 256 ≡ number a b c d / 256
      → first_leaf (net4 m p) zone_to_leaf ≡ some (octets_leaf a b c)
  unfolding first_leaf ip_network
  first_leaf-narrow m p hp hm = ground arith

  first_leaf-wide : (m p : ℕ) → p < 24 → first_leaf (net4 m p) zone_to_leaf ≡ some none
  unfolding first_leaf ip_network
  first_leaf-wide m p hp = ground arith

  topology-octets :
      (s : Text) → leaf_host (Topology.ip_to_leaf (dotted a b c d ++ b'/' ∷ s)) ≡ octets_leaf a b c
  unfolding Topology.ip_to_leaf Topology.zone_dec
  topology-octets s = rw (ip_to_zone-prefix a b c d ha hb hc hd s) (ground arith)

  module _ (p : ℕ) (hp : p < 33) where
    routed_network :
        ip_to_leaf (dotted a b c d ++ b'/' ∷ digits p)
        ≡ first_leaf (net4 (masked 32 p (number a b c d)) p) zone_to_leaf
    unfolding ip_to_leaf leaf_of_network
    routed_network = rw (ip_network-dotted_prefix a b c d ha hb hc hd p hp) refl

    -- For an address in dotted form with a prefix length of 24 to 32, the gateway's routing names
    -- the LEAF that the agent's topology names for it, or neither names one.
    pub ip_to_leaf-agrees :
        24 ≤ p
        → ip_to_leaf (dotted a b c d ++ b'/' ∷ digits p)
          ≡ some (leaf_host (Topology.ip_to_leaf (dotted a b c d ++ b'/' ∷ digits p)))
    ip_to_leaf-agrees wide =
        rw (routed_network, topology-octets (digits p))
          (first_leaf-narrow _ p wide (remask (32 - p) (number a b c d) (omega arith)))

    -- For an address in dotted form with a prefix length below 24, the gateway's routing names no
    -- LEAF, whatever zone the address is in.
    pub ip_to_leaf-wide : p < 24 → ip_to_leaf (dotted a b c d ++ b'/' ∷ digits p) ≡ some none
    ip_to_leaf-wide h = rw routed_network (first_leaf-wide _ p h)
