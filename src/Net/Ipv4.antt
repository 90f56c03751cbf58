-- ===== src/Net/Ipv4.antt =====
-- `IPv4Address._ip_int_from_string`.
use s_com_control_plane.Base.{
  List, Option, Text, [], all_digits, decimal, if◌then◌else◌, length, ltb, none, not, some, split,
  ℕ, ◌&&◌, ◌*◌, ◌+◌, ◌==◌, ◌∷◌,
}

-- One to three digits, no leading zero, at most 255.
abbrev pub parse_octet : Text → Option ℕ
parse_octet [] = none
parse_octet (c ∷ s) =
    if not (all_digits (c ∷ s))
    then none
    else if ltb 3 (length (c ∷ s))
    then none
    else if c == b'0' && ltb 0 (length s)
    then none
    else if ltb 255 (decimal (c ∷ s))
    then none
    else some (decimal (c ∷ s))

abbrev pub quad : Option ℕ → Option ℕ → Option ℕ → Option ℕ → Option ℕ
quad (some a) (some b) (some c) (some d) = some (((a * 256 + b) * 256 + c) * 256 + d)
quad _ _ _ _ = none

abbrev pub from_pieces : List Text → Option ℕ
from_pieces (a ∷ b ∷ c ∷ d ∷ []) =
    quad (parse_octet a) (parse_octet b) (parse_octet c) (parse_octet d)
from_pieces _ = none

unfoldable pub parse_ipv4 : Text → Option ℕ
parse_ipv4 s = from_pieces (split b'.' s)
