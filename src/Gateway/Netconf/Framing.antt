-- ===== src/Gateway/Netconf/Framing.antt =====
-- A message that was sent in chunked framing, at the receiver.
use s_com_control_plane.Base.{
  Text, [], ap, arith, codes, decimal, false, is_infix, length, length-append, refl, some,
  starts_with, suc, zero, ℕ, ◌++◌, ◌+◌, ◌-◌, ◌==◌, ◌∙◌, ◌∷◌, ◌≡◌, ◌≤◌,
}
use s_com_control_plane.Base.Slices.{drop, take}
use s_com_control_plane.Gateway.Netconf.{
  after_chunk, after_header, decode_round, follow, at_least, decode_chunks, end_of_chunks,
  find_newline, go_on, int, newline, next_chunk, split_once, text, utf8_length,
}
use s_com_control_plane.Gateway.Netconf.Texts.{AreDigits, int-digits}

-- A text that has no "##" in it.
abbrev pub HasNoDoubleHash : Text → Type 0
HasNoDoubleHash t = is_infix (codes "##") t ≡ false

-- Before the end marker, no place has one.
marker_at_end :
    (c : ℕ) (s : Text)
    → HasNoDoubleHash (c ∷ s)
    → starts_with end_of_chunks (c ∷ (s ++ end_of_chunks)) ≡ false
marker_at_end c [] h = ground arith
marker_at_end c (d ∷ []) h = ground arith
marker_at_end c (d ∷ e ∷ s) h = ground arith

pub split_once_marker :
    (s : Text) → HasNoDoubleHash s → split_once end_of_chunks (s ++ end_of_chunks) ≡ some (s, [])
unfolding split_once
split_once_marker [] h = refl
split_once_marker (c ∷ s) h =
    let tail : HasNoDoubleHash s = ground arith in
    rw (marker_at_end c s h, split_once_marker s tail) refl

drop_past : (xs : Text) (y : ℕ) (ys : Text) → drop (suc (length xs)) (xs ++ (y ∷ ys)) ≡ ys
drop_past [] y ys = refl
drop_past (x ∷ xs) y ys = drop_past xs y ys

drop_over : (n : ℕ) (xs : Text) → length xs ≤ n → drop n xs ≡ []
drop_over zero [] h = refl
drop_over zero (x ∷ xs) h = absurd (omega arith)
drop_over (suc n) [] h = refl
drop_over (suc n) (x ∷ xs) h = drop_over n xs (omega arith)

take_front : (xs ys : Text) → take (length xs) (xs ++ ys) ≡ xs
take_front [] ys = refl
take_front (x ∷ xs) ys = ap (◌∷◌ x) (take_front xs ys)

take_over : (n : ℕ) (xs : Text) → length xs ≤ n → take n xs ≡ xs
take_over zero [] h = refl
take_over zero (x ∷ xs) h = absurd (omega arith)
take_over (suc n) [] h = refl
take_over (suc n) (x ∷ xs) h = ap (◌∷◌ x) (take_over n xs (omega arith))

find_newline-digits :
    (d r : Text) (pos : ℕ)
    → AreDigits d
    → find_newline (d ++ (newline ∷ r)) pos ≡ some (pos + length d)
unfolding find_newline
find_newline-digits [] r pos h = ap some (omega arith)
find_newline-digits (c ∷ d) r pos h =
    let other : (c == newline) ≡ false = ground (arith, h.0) in
    rw other (find_newline-digits d r (pos + 1) h.1 ∙ ap some (omega arith))

pub length-utf8_length : (s : Text) → length s ≤ utf8_length s
length-utf8_length [] = omega arith
length-utf8_length (c ∷ s) = ground (arith, length-utf8_length s)

-- One chunk whose size is at least that of its text.
abbrev pub chunk : Text → Text → Text
chunk d r = b'#' ∷ (d ++ (newline ∷ r))

find_newline-chunk :
    (c : ℕ) (d r : Text)
    → AreDigits (c ∷ d)
    → find_newline (chunk (c ∷ d) r) 0 ≡ some (suc (length (c ∷ d)))
unfolding find_newline
find_newline-chunk c d r digits =
    find_newline-digits (c ∷ d) r (0 + 1) digits ∙ ap some (omega arith)

body-chunk : (d r : Text) (s : ℕ) → s ≡ suc (suc (length d)) → drop s (chunk d r) ≡ r
body-chunk d r s e = ap (λ z. drop z (chunk d r)) e ∙ drop_past d newline r

end-chunk : (d r : Text) (s : ℕ) → length d + 2 + length r ≤ s → drop s (chunk d r) ≡ []
end-chunk d r s h = drop_over s (chunk d r) (omega (arith, length-append d (newline ∷ r)))

after_chunk-chunk :
    (d r : Text) (s n : ℕ)
    → s ≡ suc (suc (length d))
    → length r ≤ n
    → after_chunk (chunk d r) s (some (at_least n)) [] ≡ go_on (s + n) r
after_chunk-chunk d r s n e long =
    rw (end-chunk d r (s + n) (omega (arith, e, long)), body-chunk d r s e, take_over n r long) refl

after_header-chunk :
    (c : ℕ) (d r : Text) (end : ℕ)
    → AreDigits (c ∷ d)
    → end ≡ suc (length (c ∷ d))
    → length r ≤ decimal (c ∷ d)
    → after_header (chunk (c ∷ d) r) 0 (some end) [] ≡ go_on (end + 1 + decimal (c ∷ d)) r
unfolding after_header
after_header-chunk c d r end digits e long =
    let width : end - (0 + 1) ≡ length (c ∷ d) = omega (arith, e) in
    ap (λ z. after_chunk (chunk (c ∷ d) r) (end + 1) (int z) [])
      (ap (λ z. take z ((c ∷ d) ++ (newline ∷ r))) width ∙ take_front (c ∷ d) (newline ∷ r))
    ∙ (ap (λ z. after_chunk (chunk (c ∷ d) r) (end + 1) z []) (int-digits c d digits)
        ∙ after_chunk-chunk (c ∷ d) r (end + 1) (decimal (c ∷ d)) (omega (arith, e)) long)

pub decode_chunks-chunk :
    (fuel c : ℕ) (d r : Text)
    → AreDigits (c ∷ d)
    → length r ≤ decimal (c ∷ d)
    → decode_chunks (suc (suc fuel)) (chunk (c ∷ d) r) 0 [] ≡ text r
unfolding decode_chunks decode_round next_chunk
decode_chunks-chunk fuel c d r digits long =
    let msg = chunk (c ∷ d) r in
    let end : ℕ = suc (length (c ∷ d)) in
    let found : find_newline msg 0 ≡ some end = find_newline-chunk c d r digits in
    ap (λ z. follow (decode_chunks (suc fuel) msg) [] (after_header msg 0 z [])) found
    ∙ (ap (follow (decode_chunks (suc fuel) msg) []) (after_header-chunk c d r end digits refl long)
        ∙ ap (decode_round (decode_chunks fuel msg) msg (end + 1 + decimal (c ∷ d)) r)
            (end-chunk (c ∷ d) r (end + 1 + decimal (c ∷ d)) (omega (arith, long))))
