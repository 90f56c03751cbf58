-- ===== src/Net/Ipv6.antt =====
-- `IPv6Address._ip_int_from_string`, with the scope identifier split off first.
use s_com_control_plane.Base.{
  Bool, List, Option, Text, [], false, if◌then◌else◌, leb, length, ltb, none, some, split, true, ℕ,
  ◌%◌, ◌&&◌, ◌*◌, ◌+◌, ◌-◌, ◌/◌, ◌==◌, ◌^◌, ◌||◌, ◌∷◌,
}
use s_com_control_plane.Net.Ipv4.{parse_ipv4}

abbrev hex_value : ℕ → Option ℕ
hex_value c =
    if leb b'0' c && leb c b'9'
    then some (c - b'0')
    else if leb b'a' c && leb c b'f'
    then some (c - 87)
    else if leb b'A' c && leb c b'F'
    then some (c - 55)
    else none

abbrev hex_step : Option ℕ → ℕ → Option ℕ
hex_step none n = none
hex_step (some d) n = some (n * 16 + d)

abbrev hex_from : Option ℕ → Text → Option ℕ
hex_from none s = none
hex_from (some n) [] = some n
hex_from (some n) (c ∷ s) = hex_from (hex_step (hex_value c) n) s

-- A piece of at most four hexadecimal digits; `int` refuses the empty one.
abbrev parse_hextet : Text → Option ℕ
parse_hextet [] = none
parse_hextet (c ∷ s) = if ltb 4 (length (c ∷ s)) then none else hex_from (some 0) (c ∷ s)

-- The pieces, the dotted tail of `::ffff:10.0.0.1` replaced by its two halves.
pub data Piece : Type 0 where
  word : Text → Piece
  half : ℕ → Piece

abbrev is_empty : Piece → Bool
is_empty (word []) = true
is_empty _ = false

abbrev has_dot : Text → Bool
has_dot [] = false
has_dot (c ∷ s) = c == b'.' || has_dot s

abbrev cons_piece : Text → Option (List Piece) → Option (List Piece)
cons_piece w none = none
cons_piece w (some ps) = some (word w ∷ ps)

abbrev dotted_tail : Text → Option (List Piece)
dotted_tail w =
    if has_dot w
    then elim (parse_ipv4 w) [
      | some n ↦ some (half (n / 2 ^ 16) ∷ half (n % 2 ^ 16) ∷ [])
      | none ↦ none
    ]
    else some (word w ∷ [])

abbrev to_pieces : List Text → Option (List Piece)
to_pieces [] = some []
to_pieces (w ∷ []) = dotted_tail w
to_pieces (w ∷ v ∷ ws) = cons_piece w (to_pieces (v ∷ ws))

abbrev value_of : Piece → Option ℕ
value_of (word w) = parse_hextet w
value_of (half n) = some n

abbrev join : Option ℕ → Option ℕ → Option ℕ
join (some n) (some d) = some (n * 2 ^ 16 + d)
join _ _ = none

abbrev words_from : Option ℕ → List Piece → Option ℕ
words_from n [] = n
words_from n (p ∷ ps) = words_from (join n (value_of p)) ps

-- The pieces before and after the first empty one.
abbrev before_empty : List Piece → List Piece
before_empty [] = []
before_empty (p ∷ ps) = let rest = before_empty ps in if is_empty p then [] else p ∷ rest

abbrev after_empty : List Piece → Option (List Piece)
after_empty [] = none
after_empty (p ∷ ps) = let rest = after_empty ps in if is_empty p then some ps else rest

abbrev any_empty : List Piece → Bool
any_empty [] = false
any_empty (p ∷ ps) = is_empty p || any_empty ps

-- The inner part without its last piece, and the last piece.
abbrev init : List Piece → List Piece
init [] = []
init (p ∷ []) = []
init (p ∷ q ∷ ps) = p ∷ init (q ∷ ps)

abbrev last : List Piece → Piece
last [] = word []
last (p ∷ []) = p
last (p ∷ q ∷ ps) = last (q ∷ ps)

abbrev shift : ℕ → Option ℕ → Option ℕ
shift n (some v) = some (v * 2 ^ (16 * n))
shift n none = none

abbrev plus : Option ℕ → Option ℕ → Option ℕ
plus (some a) (some b) = some (a + b)
plus _ _ = none

abbrev compressed : List Piece → List Piece → Option ℕ
compressed hi lo =
    if leb (length hi + length lo) 7
    then plus (shift (8 - length hi) (words_from (some 0) hi)) (words_from (some 0) lo)
    else none

-- The first piece stands before the others unless it is the outer half of a leading `::`.
abbrev with_first : Piece → List Piece → List Piece
with_first p [] = if is_empty p then [] else p ∷ []
with_first p (x ∷ xs) = p ∷ x ∷ xs

abbrev at_ends : Piece → List Piece → List Piece → Option ℕ
at_ends first mid lo =
    if is_empty first && ltb 0 (length mid) then none else compressed (with_first first mid) lo

abbrev whole : List Piece → Option ℕ
whole ps = if length ps == 8 then words_from (some 0) ps else none

module _ (first : Piece) (inner : List Piece) (final : Piece) where
  abbrev snoc_final : List Piece → List Piece
  snoc_final [] = final ∷ []
  snoc_final (p ∷ ps) = p ∷ snoc_final ps

  -- The pieces after the `::`, none of them if the text ends with it.
  abbrev tail_pieces : List Piece → List Piece
  tail_pieces [] = if is_empty final then [] else final ∷ []
  tail_pieces (p ∷ ps) = snoc_final (p ∷ ps)

  abbrev joined : Option ℕ
  joined = elim (after_empty inner) [
    | none ↦ whole (first ∷ snoc_final inner)
    | some later ↦
        if any_empty later || (is_empty final && ltb 0 (length later))
        then none
        else at_ends first (before_empty inner) (tail_pieces later)
  ]

abbrev from_parts : List Piece → Option ℕ
from_parts (p ∷ q ∷ r ∷ ps) =
    if ltb 9 (length (p ∷ q ∷ r ∷ ps)) then none else joined p (init (q ∷ r ∷ ps)) (last (r ∷ ps))
from_parts _ = none

abbrev from_some : Option (List Piece) → Option ℕ
from_some none = none
from_some (some ps) = from_parts ps

-- Fewer than three pieces are refused before the dotted tail is read.
abbrev from_texts : List Text → Option ℕ
from_texts (u ∷ v ∷ w ∷ ws) = from_some (to_pieces (u ∷ v ∷ w ∷ ws))
from_texts _ = none

-- `address%scope`: the scope is not empty and holds no second `%`.
abbrev scoped : List Text → Option ℕ
scoped (a ∷ []) = from_texts (split b':' a)
scoped (a ∷ (c ∷ s) ∷ []) = from_texts (split b':' a)
scoped _ = none

abbrev has_slash : Text → Bool
has_slash [] = false
has_slash (c ∷ s) = c == b'/' || has_slash s

unfoldable pub parse_ipv6 : Text → Option ℕ
unfolding parse_ipv4
parse_ipv6 s = if has_slash s then none else scoped (split b'%' s)
