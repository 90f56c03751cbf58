-- ===== src/Gateway/Netconf/Texts.antt =====
-- Printed numbers, white space, and the first place of a separator.
use s_com_control_plane.Base.{
  All, Bool-cases, Option, Text, [], ap, arith, decimal, decimal_from, false, inl, inr, is_digit,
  is_space, length, lstrip, ltb, none, refl, some, starts_with, strip, subst, suc, sym, true, zero,
  ℕ, ◌%◌, ◌&&◌, ◌++◌, ◌+◌, ◌/◌, ◌<◌, ◌==◌, ◌∙◌, ◌∷◌, ◌≡◌, ◌≢◌, ◌≤◌,
}
use mathlib.Core.List.{reverse, reverse-append, reverse-reverse}
use s_com_control_plane.Base.Slices.{drop}
use s_com_control_plane.Agent.Intent.{show_from, show_ℕ}
use s_com_control_plane.Gateway.Netconf.{
  strip_underscores, well_placed, signed_int, split_once, under_head, unsigned, int, at_least,
}

abbrev pub AreDigits : Text → Type 0
AreDigits s = All (λ c. is_digit c ≡ true) s

show_from-AreDigits :
    (fuel n : ℕ) (rest : Text) → AreDigits rest → AreDigits (show_from fuel n rest)
show_from-AreDigits zero n rest h = h
show_from-AreDigits (suc fuel) n rest h = elim (Bool-cases (ltb n 10)) [
  | inl t ↦ rw t (ground arith, h)
  | inr f ↦ rw f (show_from-AreDigits fuel (n / 10) ((n % 10 + b'0') ∷ rest) (ground arith, h))
]

pub show_ℕ-AreDigits : (n : ℕ) → AreDigits (show_ℕ n)
show_ℕ-AreDigits n = show_from-AreDigits (n + 1) n [] tt

length-show_from :
    (fuel n : ℕ) (rest : Text) → 0 < fuel → length rest < length (show_from fuel n rest)
length-show_from zero n rest h = absurd (omega arith)
length-show_from (suc zero) n rest h = ground arith
length-show_from (suc (suc fuel)) n rest h =
    ground (arith, length-show_from (suc fuel) (n / 10) ((n % 10 + b'0') ∷ rest))

pub length-show_ℕ : (n : ℕ) → 0 < length (show_ℕ n)
length-show_ℕ n = length-show_from (n + 1) n [] (omega arith)

decimal-show_from :
    (fuel n : ℕ) (rest : Text)
    → n < fuel
    → decimal_from 0 (show_from fuel n rest) ≡ decimal_from n rest
decimal-show_from zero n rest h = absurd (omega arith)
decimal-show_from (suc fuel) n rest h = elim (Bool-cases (ltb n 10)) [
  | inl t ↦ rw t (ap (λ m. decimal_from m rest) (omega arith))
  | inr f ↦ rw f (
      decimal-show_from fuel (n / 10) ((n % 10 + b'0') ∷ rest) (ground arith)
      ∙ ap (λ m. decimal_from m rest) (omega arith))
]

-- A printed number reads as itself.
pub decimal-show_ℕ : (n : ℕ) → decimal (show_ℕ n) ≡ n
decimal-show_ℕ n = decimal-show_from (n + 1) n [] (omega arith)

digit_not_space : (c : ℕ) → is_digit c ≡ true → is_space c ≡ false
digit_not_space c h = ground arith

lstrip-digits : (s : Text) → AreDigits s → lstrip s ≡ s
lstrip-digits [] h = refl
lstrip-digits (c ∷ s) h = rw (digit_not_space c h.0) refl

All-join : (P : ℕ → Type 0) (xs ys : Text) → All P xs → All P ys → All P (xs ++ ys)
All-join P [] ys h k = k
All-join P (x ∷ xs) ys h k = (h.0, All-join P xs ys h.1 k)

reverse-AreDigits : (s : Text) → AreDigits s → AreDigits (reverse s)
reverse-AreDigits [] h = tt
reverse-AreDigits (c ∷ s) h =
    subst AreDigits (sym (reverse-append (c ∷ []) s))
      (All-join (λ c. is_digit c ≡ true) (reverse s) (c ∷ []) (reverse-AreDigits s h.1) (h.0, tt))

pub strip-digits : (s : Text) → AreDigits s → strip s ≡ s
strip-digits s h =
    rw (lstrip-digits s h, lstrip-digits (reverse s) (reverse-AreDigits s h)) (reverse-reverse s)

well_placed-digits : (s : Text) → AreDigits s → well_placed true s ≡ true
well_placed-digits [] h = refl
well_placed-digits (c ∷ s) h = ground (arith, h.0, well_placed-digits s h.1)

strip_underscores-digits : (s : Text) → AreDigits s → strip_underscores s ≡ s
strip_underscores-digits [] h = refl
strip_underscores-digits (c ∷ s) h =
    let other : (c == b'_') ≡ false = ground (arith, h.0) in
    rw other (ap (◌∷◌ c) (strip_underscores-digits s h.1))

unsigned-digits : (c : ℕ) (s : Text) → AreDigits (c ∷ s) → unsigned (c ∷ s) ≡ some (decimal (c ∷ s))
unfolding unsigned
unsigned-digits c s h =
    let placed : well_placed false (c ∷ s) ≡ true = ground (arith, h.0, well_placed-digits s h.1) in
    rw (placed, strip_underscores-digits (c ∷ s) h) refl

-- `int` of digits.
pub int-digits :
    (c : ℕ) (s : Text) → AreDigits (c ∷ s) → int (c ∷ s) ≡ some (at_least (decimal (c ∷ s)))
unfolding int
int-digits c s h =
    let minus : (c == b'-') ≡ false = ground (arith, h.0) in
    let plus : (c == b'+') ≡ false = ground (arith, h.0) in
    ap signed_int (strip-digits (c ∷ s) h) ∙ (rw (minus, plus, unsigned-digits c s h) refl)

starts_with-append :
    (sep p q : Text) → length sep ≤ length p → starts_with sep (p ++ q) ≡ starts_with sep p
starts_with-append [] p q h = refl
starts_with-append (a ∷ sep) [] q h = absurd (omega arith)
starts_with-append (a ∷ sep) (b ∷ p) q h =
    ap (λ z. (a == b) && z) (starts_with-append sep p q (omega arith))

length-starts_with : (sep p : Text) → starts_with sep p ≡ true → length sep ≤ length p
length-starts_with [] p h = omega arith
length-starts_with (a ∷ sep) [] h = cc
length-starts_with (a ∷ sep) (b ∷ p) h = ground (arith, length-starts_with sep p)

drop-join : (n : ℕ) (p q : Text) → n ≤ length p → drop n (p ++ q) ≡ drop n p ++ q
drop-join zero p q h = refl
drop-join (suc n) [] q h = absurd (omega arith)
drop-join (suc n) (c ∷ p) q h = drop-join n p q (omega arith)

none-ne-some : (x y : Text) → ◌≢◌ {A = Option (Text × Text)} none (some (x, y))
none-ne-some x y h = cc

pair_of_some : (a b : Text × Text) → some a ≡ some b → a ≡ b
pair_of_some a b h = cc

under_head-some :
    (c : ℕ) (o : Option (Text × Text)) (x y : Text)
    → under_head c o ≡ some (x, y)
    → (x' : Text) × (o ≡ some (x', y)) × (x ≡ c ∷ x')
under_head-some c none x y h = cc
under_head-some c (some (a, b)) x y h = (a, cc, cc)

length-split_once : (sep p x y : Text) → split_once sep p ≡ some (x, y) → length sep ≤ length p
unfolding split_once
length-split_once sep [] x y h = elim (Bool-cases (starts_with sep [])) [
  | inl t ↦ length-starts_with sep [] t
  | inr f ↦ absurd (none-ne-some x y (rw f at h))
]
length-split_once sep (c ∷ p) x y h = elim (Bool-cases (starts_with sep (c ∷ p))) [
  | inl t ↦ length-starts_with sep (c ∷ p) t
  | inr f ↦
      let tail = under_head-some c (split_once sep p) x y (rw f at h) in
      omega (arith, length-split_once sep p tail.0 y tail.1)
]

split_once_nil : (q : Text) → split_once [] q ≡ some ([], q)
unfolding split_once
split_once_nil [] = refl
split_once_nil (c ∷ q) = refl

-- A separator stays where it is when text follows.
pub split_once-append :
    (sep p q x y : Text)
    → split_once sep p ≡ some (x, y)
    → split_once sep (p ++ q) ≡ some (x, y ++ q)
unfolding split_once
split_once-append [] [] q x y h =
    split_once_nil q ∙ ap (λ z. some (z.0, z.1 ++ q)) (pair_of_some ([], []) (x, y) h)
split_once-append (a ∷ sep) [] q x y h = cc
split_once-append sep (c ∷ p) q x y h = elim (Bool-cases (starts_with sep (c ∷ p))) [
  | inl t ↦
      let long = length-starts_with sep (c ∷ p) t in
      let same : starts_with sep (c ∷ (p ++ q)) ≡ true =
        starts_with-append sep (c ∷ p) q long ∙ t in
      rw (same, drop-join (length sep) (c ∷ p) q long)
        (ap (λ z. some (z.0, z.1 ++ q)) (pair_of_some _ _ (rw t at h)))
  | inr f ↦
      let tail = under_head-some c (split_once sep p) x y (rw f at h) in
      let long = length-split_once sep p tail.0 y tail.1 in
      let same : starts_with sep (c ∷ (p ++ q)) ≡ false =
        starts_with-append sep (c ∷ p) q (omega (arith, long)) ∙ f in
      rw (same, split_once-append sep p q tail.0 y tail.1, tail.2) refl
]
