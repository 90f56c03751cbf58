-- ===== src/Net.antt =====
-- The part of Python's `ipaddress` that the program calls: `ip_address(text)`,
-- `ip_network(text, strict=False)`, `address in network` and `network.subnet_of(other)`.
-- An exception (`ValueError`) is `none`.
pub mod Ipv4
pub mod Ipv6
pub mod Dotted
pub mod Prefix
use s_com_control_plane.Base.{
  Bool, List, Option, Text, [], decimal, false, if◌then◌else◌, is_numeral, leb, none, some, split,
  suc, zero, ℕ, ◌&&◌, ◌*◌, ◌-◌, ◌/◌, ◌==◌, ◌^◌, ◌∷◌, ◌≡◌,
}
use s_com_control_plane.Net.Ipv4.{parse_ipv4}
use s_com_control_plane.Net.Ipv6.{parse_ipv6}

pub data Address : Type 0 where
  v4 v6 : ℕ → Address

-- `base` is `network_address`, the lowest address of the network.
pub data Network : Type 0 where
  net4 net6 : (base prefix : ℕ) → Network

-- The first `prefix` bits of a number of `width` bits, the others cleared.
abbrev pub masked : ℕ → ℕ → ℕ → ℕ
masked width prefix n = n / 2 ^ (width - prefix) * 2 ^ (width - prefix)

unfoldable pub ip_address : Text → Option Address
unfolding parse_ipv4 parse_ipv6
ip_address s = elim (parse_ipv4 s) [
  | some n ↦ some (v4 n)
  | none ↦ elim (parse_ipv6 s) [ some n ↦ some (v6 n) | none ↦ none ]
]

pub ip_address_of_ipv4 : (s : Text) {n : ℕ} → parse_ipv4 s ≡ some n → ip_address s ≡ some (v4 n)
unfolding ip_address
ip_address_of_ipv4 s h = rw (h, ip_address)

-- A prefix length in decimal.
abbrev prefix_number : ℕ → Text → Option ℕ
prefix_number width s = if is_numeral s && leb (decimal s) width then some (decimal s) else none

-- The prefix length whose netmask is `mask`: the first of `p`, `p - 1`, … that fits.
abbrev pub prefix_of_mask : ℕ → ℕ → Option ℕ
prefix_of_mask mask zero = if mask == 0 then some 0 else none
prefix_of_mask mask (suc p) =
    let rest = prefix_of_mask mask p in
    if mask == masked 32 (suc p) (2 ^ 32 - 1) then some (suc p) else rest

abbrev mask_or_hostmask : ℕ → Option ℕ
mask_or_hostmask n = elim (prefix_of_mask n 32) [
  | some p ↦ some p
  | none ↦ prefix_of_mask (2 ^ 32 - 1 - n) 32
]

-- `IPv4Network._make_netmask`: a prefix length, a netmask or a host mask.
unfoldable pub prefix4 : Text → Option ℕ
unfolding parse_ipv4
prefix4 s = elim (prefix_number 32 s) [
  | some p ↦ some p
  | none ↦ elim (parse_ipv4 s) [ some n ↦ mask_or_hostmask n | none ↦ none ]
]

abbrev net4_of : Option ℕ → Option ℕ → Option Network
net4_of (some n) (some p) = some (net4 (masked 32 p n) p)
net4_of _ _ = none

abbrev net6_of : Option ℕ → Option ℕ → Option Network
net6_of (some n) (some p) = some (net6 (masked 128 p n) p)
net6_of _ _ = none

abbrev network4 : List Text → Option Network
network4 (a ∷ []) = net4_of (parse_ipv4 a) (some 32)
network4 (a ∷ m ∷ []) = net4_of (parse_ipv4 a) (prefix4 m)
network4 _ = none

abbrev network6 : List Text → Option Network
network6 (a ∷ []) = net6_of (parse_ipv6 a) (some 128)
network6 (a ∷ m ∷ []) = net6_of (parse_ipv6 a) (prefix_number 128 m)
network6 _ = none

-- `ip_network(s, strict=False)`: the host bits are dropped.
unfoldable pub ip_network : Text → Option Network
unfolding parse_ipv4 parse_ipv6 prefix4
ip_network s = elim (network4 (split b'/' s)) [ some n ↦ some n | none ↦ network6 (split b'/' s) ]

pub ip_network_of_pieces :
    (s a m : Text) {n p : ℕ}
    → split b'/' s ≡ a ∷ m ∷ []
    → parse_ipv4 a ≡ some n
    → prefix4 m ≡ some p
    → ip_network s ≡ some (net4 (masked 32 p n) p)
unfolding ip_network
ip_network_of_pieces s a m e ea em = rw (ip_network, e, ea, em)

-- `address in network`; an address of the other version is in no network.
abbrev pub in_network : Address → Network → Bool
in_network (v4 n) (net4 base p) = masked 32 p n == base
in_network (v6 n) (net6 base p) = masked 128 p n == base
in_network _ _ = false

-- `a.subnet_of(b)` within one version; between versions Python raises `TypeError`.
abbrev pub subnet_of : Network → Network → Option Bool
subnet_of (net4 a p) (net4 b q) = some (leb q p && (masked 32 q a == b))
subnet_of (net6 a p) (net6 b q) = some (leb q p && (masked 128 q a == b))
subnet_of _ _ = none
