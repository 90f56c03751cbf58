-- ===== src/Gateway/Netconf/Pieces.antt =====
-- A response in chunked framing, at a receiver that gets it in any pieces.
use s_com_control_plane.Base.{
  Bool, Bool-cases, List, Option, Option-cases, Text, [], any, ap, append_assoc, append_nil, arith,
  codes, decimal, false, inl, inr, is_empty, leb, length, ltb, map, none, refl, some, strip, subst,
  suc, sym, true, zero, ℕ, ◌++◌, ◌<◌, ◌∙◌, ◌∷◌, ◌≡◌, ◌≢◌, ◌≤◌,
}
use s_com_control_plane.Agent.Intent.{show_ℕ}
use s_com_control_plane.Gateway.Netconf.{
  Connection, Recv, decode, segment, after_header, decode_round, find_newline, int, next_chunk,
  signed_int, unsigned, decode_chunks, unfinished, stuck, message, end_of_chunks, end_of_message,
  extract, extract_plain, extract_chunked, of_decoded, framed, newline, receive, receive_message,
  split_once, strip_newlines, utf8_length, on_extract,
}
use s_com_control_plane.Gateway.Netconf.Texts.{
  AreDigits, decimal-show_ℕ, show_ℕ-AreDigits, length-show_ℕ, split_once-append,
}
use s_com_control_plane.Gateway.Netconf.Framing.{
  HasNoDoubleHash, chunk, split_once_marker, decode_chunks-chunk, length-utf8_length,
}

-- A connection after hello, with NETCONF 1.1.
abbrev pub chunked : Text → Connection
chunked b = record { running = true; buffer = b; use_chunked = true; hello_complete = true }

framed-chunk :
    (r : Text)
    → framed (chunked []) r ≡ (newline ∷ chunk (show_ℕ (utf8_length r)) r) ++ end_of_chunks
unfolding framed
framed-chunk r =
    ap (λ z. newline ∷ b'#' ∷ z)
      (sym (append_assoc (show_ℕ (utf8_length r)) (newline ∷ r) end_of_chunks))

digits_then :
    (d : Text) (r : Text) → AreDigits d → HasNoDoubleHash r → HasNoDoubleHash (d ++ (newline ∷ r))
digits_then [] r a h = ground arith
digits_then (c ∷ []) r a h = ground (arith, a.0, h)
digits_then (c ∷ e ∷ d) r a h = ground (arith, a.0, digits_then (e ∷ d) r a.1 h)

message-HasNoDoubleHash :
    (d r : Text)
    → 0 < length d
    → AreDigits d
    → HasNoDoubleHash r
    → HasNoDoubleHash (newline ∷ chunk d r)
message-HasNoDoubleHash [] r some_digits a h = absurd (omega arith)
message-HasNoDoubleHash (c ∷ d) r some_digits a h = ground (arith, a.0, digits_then (c ∷ d) r a h)

-- The buffer with the whole message.
extract_whole :
    (fuel : ℕ) (d r : Text)
    → 0 < length d
    → AreDigits d
    → HasNoDoubleHash r
    → length r ≤ decimal d
    → extract (suc (suc fuel)) (chunked ((newline ∷ chunk d r) ++ end_of_chunks))
      ≡ some (message (strip r), [])
unfolding extract strip_newlines
extract_whole fuel [] r some_digits a h long = absurd (omega arith)
extract_whole fuel (c ∷ d) r some_digits a h long =
    let sent = (newline ∷ chunk (c ∷ d) r) ++ end_of_chunks in
    ap (λ z. extract_chunked (suc (suc fuel)) z sent)
      (split_once_marker (newline ∷ chunk (c ∷ d) r)
        (message-HasNoDoubleHash (c ∷ d) r some_digits a h))
    ∙ ap (λ z. some (of_decoded z, [])) (decode_chunks-chunk fuel c d r a long)

abbrev pub HasNone : Text → Text → Type 0
HasNone sep s = split_once sep s ≡ none

-- What the socket gives: a piece of the text, or a timeout.
abbrev pub event_of : Option Text → Recv
event_of none = Recv.timeout
event_of (some t) = segment t

-- Text of ASCII characters, whose bytes are its code points.
abbrev pub IsAscii : Text → Type 0
IsAscii t = any (leb 128) t ≡ false

IsAscii-uncons : (c : ℕ) (t : Text) → IsAscii (c ∷ t) → (ltb c 128 ≡ true) × IsAscii t
IsAscii-uncons c t h = ground arith

decode-IsAscii : (t : Text) → IsAscii t → decode t ≡ t
unfolding decode
decode-IsAscii [] h = refl
decode-IsAscii (c ∷ t) h =
    let (small, rest) = IsAscii-uncons c t h in rw small (ap (◌∷◌ c) (decode-IsAscii t rest))

any-append :
    (p : ℕ → Bool) (s t : Text) → any p (s ++ t) ≡ false → (any p s ≡ false) × (any p t ≡ false)
any-append p [] t h = (refl, h)
any-append p (c ∷ s) t h = elim (Bool-cases (p c)) [
  | inl found ↦ cc (rw found at h)
  | inr other ↦ rw other (any-append p s t (rw other at h))
]

abbrev pub joined : List (Option Text) → Text
joined [] = []
joined (none ∷ os) = joined os
joined (some t ∷ os) = t ++ joined os

append_is_nil : (x y : Text) → x ++ y ≡ [] → y ≡ []
append_is_nil [] y h = h
append_is_nil (c ∷ x) y h = cc

some-second : (o p : Text × Text) → some o ≡ some p → o.1 ≡ p.1
some-second o p h = ap (λ (z : Text × Text). z.1) (some_same o p h)
  where
    some_same : (o p : Text × Text) → some o ≡ some p → o ≡ p
    some_same o p h = cc

none-ne-some : (y : Text × Text) → ◌≢◌ {A = Option (Text × Text)} none (some y)
none-ne-some y h = cc

-- A part of the text that is not all of it has no separator that the text has only at its end.
part-HasNone :
    (sep b q a : Text) → split_once sep (b ++ q) ≡ some (a, []) → 0 < length q → HasNone sep b
part-HasNone sep b q a h long = elim (Option-cases (split_once sep b)) [
  | inl n ↦ n
  | inr found ↦
      let e = sym (split_once-append sep b q found.0.0 found.0.1 found.1) ∙ h in
      let nil : q ≡ [] = append_is_nil found.0.1 q (some-second _ _ e) in
      absurd (omega (arith, long, ap length nil))
]

part-HasNone_of_none : (sep b q : Text) → HasNone sep (b ++ q) → HasNone sep b
part-HasNone_of_none sep b q h = elim (Option-cases (split_once sep b)) [
  | inl n ↦ n
  | inr found ↦ absurd (
      none-ne-some (found.0.0, found.0.1 ++ q)
        (sym h ∙ split_once-append sep b q found.0.0 found.0.1 found.1))
]

extract_part :
    (fuel : ℕ) (b q a : Text)
    → split_once end_of_chunks (b ++ q) ≡ some (a, [])
    → HasNone end_of_message (b ++ q)
    → 0 < length q
    → extract fuel (chunked b) ≡ none
unfolding extract
extract_part fuel b q a h plain long =
    ap (λ z. extract_chunked fuel z b) (part-HasNone end_of_chunks b q a h long)
    ∙ ap (extract_plain fuel) (part-HasNone_of_none end_of_message b q plain)

empty_is_nil : (x : Text) → is_empty x ≡ true → x ≡ []
empty_is_nil [] h = refl
empty_is_nil (c ∷ x) h = cc

nonempty : (x : Text) → is_empty x ≡ false → 0 < length x
nonempty [] h = cc
nonempty (c ∷ x) h = omega arith

receive_pieces :
    (fuel : ℕ) (os : List (Option Text)) (b s a m : Text)
    → extract fuel (chunked s) ≡ some (message m, [])
    → split_once end_of_chunks s ≡ some (a, [])
    → HasNone end_of_message s
    → b ++ joined os ≡ s
    → 0 < length (joined os)
    → IsAscii (joined os)
    → (receive fuel (chunked b) (map event_of os)).received ≡ message m
unfolding receive
receive_pieces fuel [] b s a m whole chunks plain e long ascii = absurd (omega arith)
receive_pieces fuel (none ∷ os) b s a m whole chunks plain e long ascii =
    receive_pieces fuel os b s a m whole chunks plain e long ascii
receive_pieces fuel (some t ∷ os) b s a m whole chunks plain e long ascii =
    let es = map event_of os in
    let again = receive fuel (chunked (b ++ t)) es in
    let (ascii_now, ascii_later) = any-append (leb 128) t (joined os) ascii in
    let split : (b ++ t) ++ joined os ≡ s = append_assoc b t (joined os) ∙ e in
    subst
      (λ u.
        (on_extract (chunked (b ++ u)) es (receive fuel (chunked (b ++ u)) es)
          (extract fuel (chunked (b ++ u)))).received
        ≡ message m)
      (sym (decode-IsAscii t ascii_now))
      (elim (Bool-cases (is_empty (joined os))) [
        | inl done ↦
            let all : b ++ t ≡ s =
              sym (append_nil (b ++ t))
              ∙ (ap (◌++◌ (b ++ t)) (sym (empty_is_nil (joined os) done)) ∙ split) in
            ap (λ z. (on_extract (chunked (b ++ t)) es again z).received)
              (ap (λ z. extract fuel (chunked z)) all ∙ whole)
        | inr more ↦
            let left : 0 < length (joined os) = nonempty (joined os) more in
            ap (λ z. (on_extract (chunked (b ++ t)) es again z).received)
              (extract_part fuel (b ++ t) (joined os) a
                (ap (split_once end_of_chunks) split ∙ chunks)
                (ap (split_once end_of_message) split ∙ plain) left)
            ∙ receive_pieces fuel os (b ++ t) s a m whole chunks plain split left ascii_later
      ])

-- A response of ASCII text that has no "##", sent in chunked framing with no "]]>]]>" in the text
-- sent, is what a receiver with an empty buffer gets, without the white space around it, in whatever
-- pieces the bytes arrive and whatever timeouts come between; two rounds of fuel are enough.
pub receive_message-framed :
    (fuel : ℕ) (r : Text) (os : List (Option Text))
    → HasNoDoubleHash r
    → HasNone end_of_message (framed (chunked []) r)
    → IsAscii (framed (chunked []) r)
    → joined os ≡ framed (chunked []) r
    → (receive_message (suc (suc fuel)) (chunked []) (map event_of os)).received ≡ message (strip r)
unfolding receive_message
receive_message-framed fuel r os hash plain ascii pieces =
    let n : ℕ = utf8_length r in
    let d = show_ℕ n in
    let s = (newline ∷ chunk d r) ++ end_of_chunks in
    let sent = framed-chunk r in
    let all : joined os ≡ s = pieces ∙ sent in
    let whole =
      extract_whole fuel d r (length-show_ℕ n) (show_ℕ-AreDigits n) hash
        (rw (decimal-show_ℕ n) (length-utf8_length r)) in
    receive_pieces (suc (suc fuel)) os [] s (newline ∷ chunk d r) (strip r) whole
      (split_once_marker (newline ∷ chunk d r)
        (message-HasNoDoubleHash d r (length-show_ℕ n) (show_ℕ-AreDigits n) hash))
      (ap (split_once end_of_message) (sym sent) ∙ plain) all (rw all (omega arith))
      (rw pieces ascii)

decode_chunks-unfinished :
    (fuel : ℕ) → decode_chunks fuel (codes "#-4" ++ (newline ∷ [])) 0 [] ≡ unfinished
unfolding decode_chunks decode_round next_chunk after_header find_newline int signed_int unsigned
decode_chunks-unfinished zero = refl
decode_chunks-unfinished (suc fuel) = decode_chunks-unfinished fuel

-- A receiver in NETCONF 1.1 that gets a chunk of size -4, and then the end of chunks, never comes
-- to an end: no fuel is enough, whatever comes later.
pub receive_message-stuck :
    (fuel : ℕ) (es : List Recv)
    → (receive_message fuel
        (chunked [])
        (segment (newline ∷ (codes "#-4" ++ (newline ∷ end_of_chunks))) ∷ es)).received
      ≡ stuck
unfolding receive_message receive extract decode
receive_message-stuck fuel es = ap of_decoded (decode_chunks-unfinished fuel)
