-- ===== src/Agent/Tools/Impact/Laws.antt =====
-- A targeted block breaks no flow that a block of the whole source would leave.
use s_com_control_plane.Base.{
  Bool, Bool-cases, List, Option, Text, [], arith, before, codes, contains, false, if◌then◌else◌,
  inl, inr, keep, none, refl, some, subst, text_dec, text_eq, true, ℕ, ◌&&◌, ◌==◌, ◌∷◌, ◌≟◌, ◌≡◌,
  ◌⊎◌,
}
use s_com_control_plane.Base.Dict.{Dict}
use s_com_control_plane.Judgement.Traffic.{TrafficPattern, matches, first_match, match_baseline}
use s_com_control_plane.Agent.Tools.Impact.{Asset, simulate_block_impact, bare_or_empty}

-- Standing in a list.
abbrev pub Among : TrafficPattern → List TrafficPattern → Type 0
Among p [] = ⊥
Among p (x ∷ xs) = (x ≡ p) ⊎ Among p xs

first_match-Among :
    (test wanted : TrafficPattern → Bool) (ps : List TrafficPattern) (p : TrafficPattern)
    → ((x : TrafficPattern) → test x ≡ true → wanted x ≡ true)
    → first_match test ps ≡ some p
    → Among p (keep wanted ps) × (test p ≡ true)
first_match-Among test wanted [] p sub h = cc
first_match-Among test wanted (x ∷ xs) p sub h = elim (Bool-cases (test x)) [
  | inl hit ↦
      let same : some x ≡ some p = rw hit at h in
      let e : x ≡ p = cc in (rw (sub x hit) (inl e), subst (λ y. test y ≡ true) e hit)
  | inr miss ↦
      let later = first_match-Among test wanted xs p sub (rw miss at h) in
      (further (wanted x) later.0, later.1)
]
  where
    further :
        (b : Bool)
        → Among p (keep wanted xs)
        → Among p (if b then x ∷ keep wanted xs else keep wanted xs)
    further true m = inr m
    further false m = m

before-before : (s : Text) → before b'/' (before b'/' s) ≡ before b'/' s
before-before [] = refl
before-before (c ∷ s) = ground (arith, before-before s)

tests_third : (a b c d : Bool) → (a && b && c && d) ≡ true → c ≡ true
tests_third true true true d h = refl
tests_third true true false d h = h
tests_third true false c d h = cc
tests_third false b c d h = cc

matches-source :
    (src dst : Text) (port : ℕ) (proto : Text) (x : TrafficPattern)
    → matches src dst port proto x ≡ true
    → (x.src_ip ≟ src) ≡ true
unfolding matches
matches-source src dst port proto x hit =
    tests_third (x.proto ≟ proto) (x.dst_port == port) (x.src_ip ≟ src)
      (contains x.dst_ip (codes "rotating" ∷ dst ∷ [])) hit

guarded :
    (b : Bool) (o : Option TrafficPattern) (p : TrafficPattern)
    → (if b then o else none) ≡ some p
    → o ≡ some p
guarded true o p h = h
guarded false o p h = cc

-- A normal flow that a targeted block would break is one of those that a block of the whole source
-- breaks.
pub simulate_block_impact-targeted :
    (assets : Dict Text Asset) (all : List TrafficPattern) (src_ip dst_ip : Text) (dst_port : ℕ)
    (p : TrafficPattern)
    → (simulate_block_impact assets all src_ip dst_ip dst_port).targeted ≡ some p
    → Among p (simulate_block_impact assets all src_ip dst_ip dst_port).outbound_flows_broken
unfolding simulate_block_impact match_baseline text_dec
simulate_block_impact-targeted assets all src_ip dst_ip dst_port p h =
    (first_match-Among
      (matches (before b'/' (before b'/' src_ip)) (before b'/' (bare_or_empty dst_ip)) dst_port
        (codes "tcp"))
      (λ b. b.src_ip ≟ before b'/' src_ip) all p
      (λ x hit.
        matches-source (before b'/' src_ip) (before b'/' (bare_or_empty dst_ip)) dst_port
          (codes "tcp") x (rw (before-before src_ip) at hit))
      (guarded _ _ p h)).0
