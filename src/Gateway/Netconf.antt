-- ===== src/Gateway/Netconf.antt =====
-- secure-framework/netconf/netconf_session.py: the framing of NETCONF messages. Run has the dispatch
-- of a request and the loop of a session.
--
-- The socket is the list of what `recv` does; a segment is its bytes, decoded by itself. The loop that
-- joins the chunks of a message can run for ever, so it takes fuel, and tells when that is used up.
-- The loading of YANG modules, the XML of hello and of replies, and the output on the console are
-- left out.
use s_com_control_plane.Base.{
  Bool, List, Option, Text, [], codes, decimal, false, if◌then◌else◌, is_digit, leb, length, ltb,
  none, some, starts_with, strip, suc, true, zero, ℕ, ◌&&◌, ◌*◌, ◌++◌, ◌+◌, ◌-◌, ◌==◌, ◌∷◌,
}
use s_com_control_plane.Base.Slices.{drop, take}
use s_com_control_plane.Agent.Intent.{show_ℕ}
pub mod Texts
pub mod Framing
pub mod Run
pub mod Pieces

pub record Connection : Type 0 where
  pub running : Bool
  pub buffer : Text
  pub use_chunked : Bool
  pub hello_complete : Bool

-- `data.decode("utf-8", errors="ignore")`, byte by byte: what a character still needs. A byte that does
-- not go on with a character starts anew, and what was read of the character is lost.
pub data Utf8 : Type 0 where
  ready : Utf8
  needs : (bytes value lowest highest : ℕ) → Utf8

abbrev pub on_lead : ℕ → Text × Utf8
on_lead b =
    if ltb b 128
    then (b ∷ [], ready)
    else if ltb b 194
    then ([], ready)
    else if ltb b 224
    then ([], needs 1 (b - 192) 128 191)
    else if ltb b 240
    then ([], needs 2 (b - 224) (if b == 224 then 160 else 128) (if b == 237 then 159 else 191))
    else if ltb b 245
    then ([], needs 3 (b - 240) (if b == 240 then 144 else 128) (if b == 244 then 143 else 191))
    else ([], ready)

abbrev pub on_byte : Utf8 → ℕ → Text × Utf8
on_byte ready b = on_lead b
on_byte (needs bytes value lowest highest) b =
    if leb lowest b && leb b highest
    then if bytes == 1
      then ((value * 64 + (b - 128)) ∷ [], ready)
      else ([], needs (bytes - 1) (value * 64 + (b - 128)) 128 191)
    else on_lead b

abbrev pub decode_from : Utf8 → List ℕ → Text
decode_from u [] = []
decode_from u (b ∷ bs) = let r = on_byte u b in r.0 ++ decode_from r.1 bs

unfoldable pub decode : List ℕ → Text
decode bs = decode_from ready bs

-- What one call of `recv` does.
pub data Recv : Type 0 where
  segment : List ℕ → Recv
  timeout : Recv
  eof : Recv
  fails : Recv

-- `s.split(sep, 1)`, if the separator is there.
abbrev pub under_head : ℕ → Option (Text × Text) → Option (Text × Text)
under_head c none = none
under_head c (some (a, b)) = some (c ∷ a, b)

unfoldable pub split_once : Text → Text → Option (Text × Text)
split_once sep [] = if starts_with sep [] then some ([], []) else none
split_once sep (c ∷ s) =
    if starts_with sep (c ∷ s)
    then some ([], drop (length sep) (c ∷ s))
    else under_head c (split_once sep s)

abbrev pub newline : ℕ
newline = 10

abbrev pub end_of_chunks : Text
end_of_chunks = newline ∷ b'#' ∷ b'#' ∷ newline ∷ []

abbrev pub end_of_message : Text
end_of_message = codes "]]>]]>"

-- `s.lstrip("\n")`
unfoldable pub strip_newlines : Text → Text
strip_newlines [] = []
strip_newlines (c ∷ s) = let rest = strip_newlines s in if c == newline then rest else c ∷ s

-- `int(s)`: white space around it, a sign, digits with single underscores between them. `none` is
-- the ValueError.
pub data Size : Type 0 where
  at_least : ℕ → Size
  below : ℕ → Size

abbrev strip_underscores : Text → Text
strip_underscores [] = []
strip_underscores (c ∷ s) = if c == b'_' then strip_underscores s else c ∷ strip_underscores s

-- Digits, with no underscore at either end or after another.
abbrev well_placed : Bool → Text → Bool
well_placed after_digit [] = after_digit
well_placed after_digit (c ∷ s) =
    if c == b'_' then after_digit && well_placed false s else is_digit c && well_placed true s

unfoldable pub unsigned : Text → Option ℕ
unsigned s = if well_placed false s then some (decimal (strip_underscores s)) else none

abbrev pub signed_by : (ℕ → Size) → Option ℕ → Option Size
signed_by sign none = none
signed_by sign (some n) = some (sign n)

abbrev pub negated : ℕ → Size
negated n = if n == 0 then at_least 0 else below n

abbrev pub signed_int : Text → Option Size
unfolding unsigned
signed_int [] = none
signed_int (c ∷ s) =
    if c == b'-'
    then signed_by negated (unsigned s)
    else if c == b'+'
    then signed_by at_least (unsigned s)
    else signed_by at_least (unsigned (c ∷ s))

unfoldable pub int : Text → Option Size
unfolding signed_int
int s = signed_int (strip s)

-- `msg.find("\n", pos)`
unfoldable pub find_newline : Text → ℕ → Option ℕ
find_newline [] pos = none
find_newline (c ∷ s) pos =
    let rest = find_newline s (pos + 1) in if c == newline then some pos else rest

-- The loop over the chunks: the text they hold; the fuel was used up; or a negative size led to a
-- place before the message, which is not followed further.
pub data Decoded : Type 0 where
  text : Text → Decoded
  unfinished : Decoded
  before_start : Decoded

-- What the size in a header makes of the place and the text so far: `none` breaks off the loop.
pub data Next : Type 0 where
  break_off : Next
  go_on : ℕ → Text → Next
  jump_before : Next

-- After the chunk: `if pos < len(msg) and msg[pos] == "\n": pos += 1`.
abbrev pub past_newline : Text → ℕ → ℕ
past_newline [] pos = pos
past_newline (c ∷ s) pos = if c == newline then pos + 1 else pos

abbrev pub after_chunk : Text → ℕ → Option Size → Text → Next
after_chunk msg start none decoded = break_off
after_chunk msg start (some (at_least n)) decoded =
    go_on (past_newline (drop (start + n) msg) (start + n)) (decoded ++ take n (drop start msg))
after_chunk msg start (some (below n)) decoded =
    if leb n start
    then go_on (past_newline (drop (start - n) msg) (start - n)) decoded
    else jump_before

-- The header at `pos`, whose newline is at `end`.
abbrev pub after_header : Text → ℕ → Option ℕ → Text → Next
unfolding int
after_header msg pos none decoded = break_off
after_header msg pos (some end) decoded =
    after_chunk msg (end + 1) (int (take (end - (pos + 1)) (drop (pos + 1) msg))) decoded

abbrev pub next_chunk : Text → ℕ → Text → Next
unfolding find_newline after_header
next_chunk msg pos decoded = after_header msg pos (find_newline (drop pos msg) pos) decoded

abbrev pub follow : (ℕ → Text → Decoded) → Text → Next → Decoded
follow go decoded break_off = text decoded
follow go decoded jump_before = before_start
follow go decoded (go_on pos' decoded') = go pos' decoded'

-- One round of the loop, of the text from `pos` on.
abbrev pub decode_round : (ℕ → Text → Decoded) → Text → ℕ → Text → Text → Decoded
unfolding next_chunk
decode_round go msg pos decoded [] = text decoded
decode_round go msg pos decoded (c ∷ s) =
    if c == b'#' then follow go decoded (next_chunk msg pos decoded) else go (pos + 1) decoded

unfoldable pub decode_chunks : ℕ → Text → ℕ → Text → Decoded
unfolding decode_round
decode_chunks zero msg pos decoded = unfinished
decode_chunks (suc fuel) msg pos decoded =
    decode_round (decode_chunks fuel msg) msg pos decoded (drop pos msg)

-- The end of `receive_message`, or that it still waits for the socket.
pub data Received : Type 0 where
  message : Text → Received
  closed : Received
  waiting : Received
  stuck : Received
  lost : Received

abbrev pub of_decoded : Decoded → Received
of_decoded (text t) = message (strip t)
of_decoded unfinished = stuck
of_decoded before_start = lost

module _ (fuel : ℕ) where
  -- A message that the buffer holds, and what is left of the buffer.
  abbrev pub extract_plain : Option (Text × Text) → Option (Received × Text)
  extract_plain none = none
  extract_plain (some (msg, rest)) = some (message (strip msg), rest)

  abbrev pub extract_chunked : Option (Text × Text) → Text → Option (Received × Text)
  unfolding decode_chunks strip_newlines split_once
  extract_chunked none b = extract_plain (split_once end_of_message b)
  extract_chunked (some (msg, rest)) b =
      some (of_decoded (decode_chunks fuel (strip_newlines msg) 0 []), rest)

  unfoldable pub extract : Connection → Option (Received × Text)
  unfolding extract_chunked split_once
  extract c =
      if c.use_chunked && c.hello_complete
      then extract_chunked (split_once end_of_chunks c.buffer) c.buffer
      else extract_plain (split_once end_of_message c.buffer)

-- What `receive_message` leaves: the connection, the answer, and what the socket still has to do.
pub record Reception : Type 0 where
  pub connection : Connection
  pub received : Received
  pub later : List Recv

abbrev pub reception : Connection → Received → List Recv → Reception
reception c r es = record { connection = c; received = r; later = es }

-- With a message the buffer loses it; without one the socket is read again.
abbrev pub on_extract : Connection → List Recv → Reception → Option (Received × Text) → Reception
on_extract c es again none = again
on_extract c es again (some (r, rest)) = reception (record c { buffer = rest }) r es

unfoldable pub receive : ℕ → Connection → List Recv → Reception
unfolding extract decode
receive fuel c [] = reception c waiting []
receive fuel c (timeout ∷ es) = receive fuel c es
receive fuel c (eof ∷ es) = reception c closed es
receive fuel c (fails ∷ es) = reception c closed es
receive fuel c (segment bs ∷ es) =
    let c' = record c { buffer = c.buffer ++ decode bs } in
    on_extract c' es (receive fuel c' es) (extract fuel c')

unfoldable pub receive_message : ℕ → Connection → List Recv → Reception
unfolding receive
receive_message fuel c es = if c.running then receive fuel c es else reception c closed es

-- The bytes of a text in UTF-8.
abbrev pub utf8_size : ℕ → ℕ
utf8_size c = if ltb c 128 then 1 else if ltb c 2048 then 2 else if ltb c 65536 then 3 else 4

abbrev pub utf8_length : Text → ℕ
utf8_length [] = 0
utf8_length (c ∷ s) = utf8_size c + utf8_length s

-- What `send_response` hands to the socket.
unfoldable pub framed : Connection → Text → Text
framed c response =
    if c.use_chunked && c.hello_complete
    then newline ∷ b'#' ∷ (show_ℕ (utf8_length response) ++ (newline ∷ (response ++ end_of_chunks)))
    else response ++ (newline ∷ end_of_message)

-- `send_response`, where the socket takes the text or raises.
unfoldable pub send_response : Bool → Connection → Connection
send_response sends c = if sends then c else record c { running = false }
