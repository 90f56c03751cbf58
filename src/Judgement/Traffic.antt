-- ===== src/Judgement/Traffic.antt =====
-- intelligence-layer/src/core/baselines.py: the normal flows. The catalogue is read from Markdown at
-- startup and is an argument.
use s_com_control_plane.Base.{
  Bool, List, Option, Text, [], any, arith, before, codes, contains, if◌then◌else◌, is_some, none,
  refl, some, text_dec, text_eq, ℕ, ◌&&◌, ◌==◌, ◌∷◌, ◌≟◌, ◌≡◌,
}

pub record TrafficPattern : Type 0 where
  pub name : Text
  pub src_ip : Text
  pub dst_ip : Text
  pub dst_port : ℕ
  pub proto : Text

-- The tests of one round of `match_baseline`, in their order.
unfoldable pub matches : Text → Text → ℕ → Text → TrafficPattern → Bool
unfolding text_dec
matches src dst port proto p =
    (p.proto ≟ proto)
    && (p.dst_port == port)
    && (p.src_ip ≟ src)
    && contains p.dst_ip (codes "rotating" ∷ dst ∷ [])

abbrev pub first_match : (TrafficPattern → Bool) → List TrafficPattern → Option TrafficPattern
first_match test [] = none
first_match test (p ∷ ps) = if test p then some p else first_match test ps

unfoldable pub match_baseline : List TrafficPattern → Text → Text → ℕ → Text → Option TrafficPattern
unfolding matches
match_baseline patterns src_ip dst_ip dst_port proto =
    first_match (matches (before b'/' src_ip) (before b'/' dst_ip) dst_port proto) patterns

first_match-is_some :
    (test : TrafficPattern → Bool) (ps : List TrafficPattern)
    → is_some (first_match test ps) ≡ any test ps
first_match-is_some test [] = refl
first_match-is_some test (p ∷ ps) = ground (arith, first_match-is_some test ps)

-- A flow is normal exactly if some pattern has its protocol, its port and its source, and its
-- destination or a rotating one; prefix lengths of the flow do not count.
pub match_baseline-is_some :
    (ps : List TrafficPattern) (src_ip dst_ip : Text) (port : ℕ) (proto : Text)
    → is_some (match_baseline ps src_ip dst_ip port proto)
      ≡ any (matches (before b'/' src_ip) (before b'/' dst_ip) port proto) ps
unfolding match_baseline
match_baseline-is_some ps src_ip dst_ip port proto =
    first_match-is_some (matches (before b'/' src_ip) (before b'/' dst_ip) port proto) ps
