-- ===== src/Safety/Guardrails/Laws.antt =====
-- What is protected, by octets.
use s_com_control_plane.Base.{
  Bool, List, Text, [], arith, codes, false, ℕ, ◌&&◌, ◌++◌, ◌<◌, ◌==◌, ◌||◌, ◌∷◌, ◌≡◌,
}
use s_com_control_plane.Net.{v4, ip_network}
use s_com_control_plane.Net.Dotted.{dotted, number, before-dotted, before-dotted_prefix}
use s_com_control_plane.Topology.Laws.{ip_address-dotted}
use s_com_control_plane.Safety.Guardrails.{in_any, never_block, is_protected_ip, in_cidr}

-- The protected addresses, with no text and no network in sight.
abbrev pub some_of : List Bool → Bool
some_of [] = false
some_of (b ∷ bs) = b || some_of bs

abbrev pub protected_octets : ℕ → ℕ → ℕ → ℕ → Bool
protected_octets a b c d = some_of (
    (a == 127)
    ∷ (a == 10 && b == 10 && c == 6)
    ∷ (a == 192 && b == 168 && c == 122)
    ∷ (a == 10 && b == 1 && c == 100 && d == 1)
    ∷ (a == 10 && b == 1 && c == 200 && d == 1)
    ∷ (a == 10 && b == 2 && c == 100 && d == 1)
    ∷ (a == 10 && b == 2 && c == 50 && d == 1)
    ∷ [])

module _ (a b c d : ℕ) (ha : a < 256) (hb : b < 256) (hc : c < 256) (hd : d < 256) where
  in_loopback : in_cidr (v4 (number a b c d)) (ip_network (codes "127.0.0.0/8")) ≡ (a == 127)
  unfolding ip_network
  in_loopback = ground arith

  in_management :
      in_cidr (v4 (number a b c d)) (ip_network (codes "10.10.6.0/24"))
      ≡ (a == 10 && b == 10 && c == 6)
  unfolding ip_network
  in_management = ground arith

  in_control :
      in_cidr (v4 (number a b c d)) (ip_network (codes "192.168.122.0/24"))
      ≡ (a == 192 && b == 168 && c == 122)
  unfolding ip_network
  in_control = ground arith

  in_web_gateway :
      in_cidr (v4 (number a b c d)) (ip_network (codes "10.1.100.1/32"))
      ≡ (a == 10 && b == 1 && c == 100 && d == 1)
  unfolding ip_network
  in_web_gateway = ground arith

  in_db_gateway :
      in_cidr (v4 (number a b c d)) (ip_network (codes "10.1.200.1/32"))
      ≡ (a == 10 && b == 1 && c == 200 && d == 1)
  unfolding ip_network
  in_db_gateway = ground arith

  in_app_gateway :
      in_cidr (v4 (number a b c d)) (ip_network (codes "10.2.100.1/32"))
      ≡ (a == 10 && b == 2 && c == 100 && d == 1)
  unfolding ip_network
  in_app_gateway = ground arith

  in_mgt_gateway :
      in_cidr (v4 (number a b c d)) (ip_network (codes "10.2.50.1/32"))
      ≡ (a == 10 && b == 2 && c == 50 && d == 1)
  unfolding ip_network
  in_mgt_gateway = ground arith

  in_any-octets : in_any (v4 (number a b c d)) never_block ≡ protected_octets a b c d
  unfolding in_any
  in_any-octets = rw (
    in_loopback, in_management, in_control, in_web_gateway, in_db_gateway, in_app_gateway,
    in_mgt_gateway,
  )

  pub is_protected_ip-dotted : is_protected_ip (dotted a b c d) ≡ protected_octets a b c d
  unfolding is_protected_ip
  is_protected_ip-dotted =
      rw (before-dotted a b c d ha hb hc hd, ip_address-dotted a b c d ha hb hc hd) in_any-octets

  -- An address in dotted form with a prefix length, of whatever text, is protected exactly if the
  -- table of octets says so.
  pub is_protected_ip-prefix :
      (s : Text) → is_protected_ip (dotted a b c d ++ b'/' ∷ s) ≡ protected_octets a b c d
  unfolding is_protected_ip
  is_protected_ip-prefix s =
      rw (before-dotted_prefix a b c d ha hb hc hd s, ip_address-dotted a b c d ha hb hc hd)
        in_any-octets
