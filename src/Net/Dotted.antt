-- ===== src/Net/Dotted.antt =====
-- Dotted quads as the program writes them, against the parser of `ip_address`.
use s_com_control_plane.Base.{
  Bool, Option, Text, [], ap, arith, before, false, if◌then◌else◌, ltb, none, refl, some, split,
  suc, true, zero, ℕ, ◌%◌, ◌&&◌, ◌*◌, ◌++◌, ◌+◌, ◌/◌, ◌<◌, ◌==◌, ◌∙◌, ◌∷◌, ◌≡◌,
}
use s_com_control_plane.Net.Ipv4.{parse_octet, from_pieces, parse_ipv4}

-- A number below 1000 in decimal.
unfoldable pub digits : ℕ → Text
digits n =
    if ltb n 10
    then (n + b'0') ∷ []
    else if ltb n 100
    then (n / 10 + b'0') ∷ (n % 10 + b'0') ∷ []
    else (n / 100 + b'0') ∷ (n / 10 % 10 + b'0') ∷ (n % 10 + b'0') ∷ []

unfoldable pub dotted : ℕ → ℕ → ℕ → ℕ → Text
unfolding digits
dotted a b c d = digits a ++ b'.' ∷ (digits b ++ b'.' ∷ (digits c ++ b'.' ∷ digits d))

abbrev absent : ℕ → Text → Bool
absent c [] = true
absent c (x ∷ s) = (if x == c then false else true) && absent c s

split-piece :
    (sep : ℕ) (w s : Text) → absent sep w ≡ true → split sep (w ++ sep ∷ s) ≡ w ∷ split sep s
split-piece sep [] s h = ground arith
split-piece sep (c ∷ w) s h = ground (arith, split-piece sep w s)

split-last : (sep : ℕ) (w : Text) → absent sep w ≡ true → split sep w ≡ w ∷ []
split-last sep [] h = refl
split-last sep (c ∷ w) h = ground (arith, split-last sep w)

before-absent : (sep : ℕ) (w : Text) → absent sep w ≡ true → before sep w ≡ w
before-absent sep [] h = refl
before-absent sep (c ∷ w) h = ground (arith, before-absent sep w)

before-append : (sep : ℕ) (w s : Text) → absent sep w ≡ true → before sep (w ++ sep ∷ s) ≡ w
before-append sep [] s h = ground arith
before-append sep (c ∷ w) s h = ground (arith, before-append sep w s)

absent-append :
    (sep : ℕ) (w s : Text) → absent sep w ≡ true → absent sep s ≡ true → absent sep (w ++ s) ≡ true
absent-append sep [] s h k = k
absent-append sep (c ∷ w) s h k = ground (arith, absent-append sep w s)

-- The octet is read back, and holds neither a dot nor a slash.
abbrev pub reads_back : Option ℕ → ℕ → Bool
reads_back (some m) n = m == n
reads_back none n = false

abbrev octet_ok : ℕ → Bool
octet_ok n =
    reads_back (parse_octet (digits n)) n && (absent b'.' (digits n) && absent b'/' (digits n))

-- The test passes at each number under the bound, which a computation can find out.
unfoldable pub passes_under : ℕ → (ℕ → Bool) → Bool
passes_under zero test = true
passes_under (suc bound) test = if test bound then passes_under bound test else false

pub passes_at :
    (test : ℕ → Bool) (bound : ℕ) {k : ℕ}
    → k < bound
    → passes_under bound test ≡ true
    → test k ≡ true
unfolding passes_under
passes_at test zero under passed = absurd (omega arith)
passes_at test (suc bound) {k} under passed = ground (arith, passes_at test bound {k = k})

octet_table : passes_under 256 octet_ok ≡ true
unfolding passes_under digits
octet_table = refl

and_left : (a b : Bool) → a && b ≡ true → a ≡ true
and_left a b h = ground arith

and_right : (a b : Bool) → a && b ≡ true → b ≡ true
and_right a b h = ground arith

pub reads_back-eq : (o : Option ℕ) (n : ℕ) → reads_back o n ≡ true → o ≡ some n
reads_back-eq (some m) n h = ground arith
reads_back-eq none n h = cc

module _ (n : ℕ) (h : n < 256) where
  checked : octet_ok n ≡ true
  checked = passes_at octet_ok 256 h octet_table

  parse_octet-digits : parse_octet (digits n) ≡ some n
  parse_octet-digits = reads_back-eq _ n (and_left _ _ checked)

  no_dot : absent b'.' (digits n) ≡ true
  no_dot = and_left _ _ (and_right _ _ checked)

  no_slash : absent b'/' (digits n) ≡ true
  no_slash = and_right _ _ (and_right _ _ checked)

-- An address as a number.
abbrev pub number : ℕ → ℕ → ℕ → ℕ → ℕ
number a b c d = ((a * 256 + b) * 256 + c) * 256 + d

split_quad :
    (sep : ℕ) (u v w x : Text)
    → absent sep u ≡ true
    → absent sep v ≡ true
    → absent sep w ≡ true
    → absent sep x ≡ true
    → split sep (u ++ sep ∷ (v ++ sep ∷ (w ++ sep ∷ x))) ≡ u ∷ v ∷ w ∷ x ∷ []
split_quad sep u v w x hu hv hw hx =
    split-piece sep u _ hu
    ∙ ap (◌∷◌ u) (
        split-piece sep v _ hv
        ∙ ap (◌∷◌ v) (split-piece sep w x hw ∙ ap (◌∷◌ w) (split-last sep x hx)))

module _ (a b c d : ℕ) (ha : a < 256) (hb : b < 256) (hc : c < 256) (hd : d < 256) where
  -- The dotted quad is read as its four octets.
  pub parse_ipv4-dotted : parse_ipv4 (dotted a b c d) ≡ some (number a b c d)
  unfolding parse_ipv4 dotted
  parse_ipv4-dotted =
      ap from_pieces (
        split_quad b'.' (digits a) (digits b) (digits c) (digits d) (no_dot a ha) (no_dot b hb)
          (no_dot c hc) (no_dot d hd))
      ∙ rw (
        parse_octet-digits a ha,
        parse_octet-digits b hb,
        parse_octet-digits c hc,
        parse_octet-digits d hd,
      )

  dotted_no_slash : absent b'/' (dotted a b c d) ≡ true
  unfolding dotted
  dotted_no_slash = absent-append b'/' (digits a) _ (no_slash a ha) (
      absent-append b'/' (digits b) _ (no_slash b hb)
        (absent-append b'/' (digits c) _ (no_slash c hc) (no_slash d hd)))

  pub before-dotted : before b'/' (dotted a b c d) ≡ dotted a b c d
  before-dotted = before-absent b'/' _ dotted_no_slash

  pub before-dotted_prefix : (s : Text) → before b'/' (dotted a b c d ++ b'/' ∷ s) ≡ dotted a b c d
  before-dotted_prefix s = before-append b'/' _ s dotted_no_slash

  pub split-dotted : split b'/' (dotted a b c d) ≡ dotted a b c d ∷ []
  split-dotted = split-last b'/' _ dotted_no_slash

  pub split-dotted_prefix :
      (n : ℕ)
      → n < 256
      → split b'/' (dotted a b c d ++ b'/' ∷ digits n) ≡ dotted a b c d ∷ digits n ∷ []
  split-dotted_prefix n h =
      split-piece b'/' _ _ dotted_no_slash
      ∙ ap (◌∷◌ (dotted a b c d)) (split-last b'/' _ (no_slash n h))
