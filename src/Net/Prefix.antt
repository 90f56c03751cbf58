-- ===== src/Net/Prefix.antt =====
-- `ip_network` on dotted quads with a prefix length, and `strip` on texts with no white space.
use mathlib.Core.List.{reverse, reverse-append, reverse-reverse}
use s_com_control_plane.Base.{
  Bool, Text, [], arith, false, is_space, length, lstrip, not, refl, some, strip, true, ℕ, ◌&&◌,
  ◌++◌, ◌<◌, ◌∷◌, ◌≡◌, ◌≢◌,
}
use s_com_control_plane.Net.{net4, masked, ip_network, prefix4, ip_network_of_pieces}
use s_com_control_plane.Net.Dotted.{
  dotted, digits, number, parse_ipv4-dotted, split-dotted_prefix, passes_under, passes_at,
  reads_back, reads_back-eq,
}

module _ (p : ℕ → Bool) where
  abbrev every : Text → Bool
  every [] = true
  every (c ∷ s) = p c && every s

  every-append : (s t : Text) → every s ≡ true → every t ≡ true → every (s ++ t) ≡ true
  every-append [] t h k = k
  every-append (c ∷ s) t h k = ground (arith, every-append s t)

  every-reverse : (s : Text) → every s ≡ true → every (reverse s) ≡ true
  every-reverse [] h = refl
  every-reverse (c ∷ s) h =
      rw (reverse-append (c ∷ []) s)
        (every-append (reverse s) (c ∷ []) (every-reverse s (ground arith)) (ground arith))

abbrev no_space : ℕ → Bool
no_space c = not (is_space c)

abbrev solid : Text → Bool
solid = every no_space

solid-append : (s t : Text) → solid s ≡ true → solid t ≡ true → solid (s ++ t) ≡ true
solid-append = every-append no_space

solid-reverse : (s : Text) → solid s ≡ true → solid (reverse s) ≡ true
solid-reverse = every-reverse no_space

solid_head : (b r : Bool) → not b && r ≡ true → b ≡ false
solid_head true r h = cc
solid_head false r h = refl

lstrip-solid : (s : Text) → solid s ≡ true → lstrip s ≡ s
lstrip-solid [] h = refl
lstrip-solid (c ∷ s) h = rw (solid_head (is_space c) (solid s) h)

strip-solid : (s : Text) → solid s ≡ true → strip s ≡ s
strip-solid s h =
    rw (lstrip-solid s h, lstrip-solid (reverse s) (solid-reverse s h)) (reverse-reverse s)

solid_table : passes_under 256 (λ n. solid (digits n)) ≡ true
unfolding passes_under digits
solid_table = refl

prefix_table : passes_under 33 (λ p. reads_back (prefix4 (digits p)) p) ≡ true
unfolding passes_under digits prefix4
prefix_table = refl

prefix4-digits : (p : ℕ) → p < 33 → prefix4 (digits p) ≡ some p
prefix4-digits p h =
    reads_back-eq _ p (passes_at (λ p. reads_back (prefix4 (digits p)) p) 33 h prefix_table)

solid-digits : (n : ℕ) → n < 256 → solid (digits n) ≡ true
solid-digits n h = passes_at (λ n. solid (digits n)) 256 h solid_table

module _ (a b c d : ℕ) (ha : a < 256) (hb : b < 256) (hc : c < 256) (hd : d < 256) where
  solid-dotted : solid (dotted a b c d) ≡ true
  unfolding dotted
  solid-dotted = solid-append (digits a) _ (solid-digits a ha) (
      solid-append (digits b) _ (solid-digits b hb)
        (solid-append (digits c) _ (solid-digits c hc) (solid-digits d hd)))

  pub strip-dotted : strip (dotted a b c d) ≡ dotted a b c d
  strip-dotted = strip-solid _ solid-dotted

  module _ (p : ℕ) (hp : p < 33) where
    pub strip-dotted_prefix :
        strip (dotted a b c d ++ b'/' ∷ digits p) ≡ dotted a b c d ++ b'/' ∷ digits p
    strip-dotted_prefix =
        strip-solid _ (solid-append (dotted a b c d) _ solid-dotted (solid-digits p (omega arith)))

    -- The network of a dotted quad with a prefix length, its host bits cleared.
    pub ip_network-dotted_prefix :
        ip_network (dotted a b c d ++ b'/' ∷ digits p)
        ≡ some (net4 (masked 32 p (number a b c d)) p)
    ip_network-dotted_prefix =
        ip_network_of_pieces _ _ _ (split-dotted_prefix a b c d ha hb hc hd p (omega arith))
          (parse_ipv4-dotted a b c d ha hb hc hd) (prefix4-digits p hp)

pub not_empty_dotted : (a b c d : ℕ) → length (dotted a b c d) ≢ 0
unfolding dotted digits
not_empty_dotted a b c d h = ground arith
