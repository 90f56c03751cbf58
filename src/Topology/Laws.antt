-- ===== src/Topology/Laws.antt =====
-- The zone of an address by its octets.
use s_com_control_plane.Base.{
  Option, Text, arith, if◌then◌else◌, none, some, ℕ, ◌&&◌, ◌++◌, ◌<◌, ◌==◌, ◌∷◌, ◌≡◌,
}
use s_com_control_plane.Net.{v4, ip_address, ip_address_of_ipv4}
use s_com_control_plane.Net.Dotted.{
  number, dotted, parse_ipv4-dotted, before-dotted, before-dotted_prefix,
}
use s_com_control_plane.Topology.{Zone, web, db, app, mgt, ip_to_zone, first_zone, zones}

-- The table of the zones, with no text and no network in sight.
abbrev pub zone_of_octets : ℕ → ℕ → ℕ → Option Zone
zone_of_octets a b c =
    if a == 10 && b == 1 && c == 100
    then some web
    else if a == 10 && b == 1 && c == 200
    then some db
    else if a == 10 && b == 2 && c == 100
    then some app
    else if a == 10 && b == 2 && c == 50
    then some mgt
    else none

module _ (a b c d : ℕ) (ha : a < 256) (hb : b < 256) (hc : c < 256) (hd : d < 256) where
  first_zone-octets : first_zone (v4 (number a b c d)) zones ≡ zone_of_octets a b c
  unfolding first_zone
  first_zone-octets = ground arith

  pub ip_address-dotted : ip_address (dotted a b c d) ≡ some (v4 (number a b c d))
  ip_address-dotted = rw (ip_address_of_ipv4 _ (parse_ipv4-dotted a b c d ha hb hc hd))

  -- The zone of an address in dotted form is that of the table.
  pub ip_to_zone-dotted : ip_to_zone (dotted a b c d) ≡ zone_of_octets a b c
  unfolding ip_to_zone
  ip_to_zone-dotted = rw (before-dotted a b c d ha hb hc hd, ip_address-dotted) first_zone-octets

  -- The zone of an address in dotted form with a prefix length, of whatever text, is that of the
  -- table of octets.
  pub ip_to_zone-prefix :
      (s : Text) → ip_to_zone (dotted a b c d ++ b'/' ∷ s) ≡ zone_of_octets a b c
  unfolding ip_to_zone
  ip_to_zone-prefix s =
      rw (before-dotted_prefix a b c d ha hb hc hd s, ip_address-dotted) first_zone-octets
