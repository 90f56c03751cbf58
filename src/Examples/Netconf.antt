-- ===== src/Examples/Netconf.antt =====
-- A reply in NETCONF 1.1.
use s_com_control_plane.Base.{
  List, Option, Text, [], codes, false, map, none, refl, some, strip, ◌++◌, ◌∷◌, ◌≡◌,
}
use s_com_control_plane.Gateway.Netconf.{
  message, framed, receive_message, stuck, segment, newline, end_of_message, end_of_chunks,
  split_once, decode,
}
use s_com_control_plane.Gateway.Netconf.Run.{Request, Session}
use s_com_control_plane.Gateway.Netconf.Pieces.{
  HasNone, IsAscii, chunked, event_of, joined, receive_message-framed, receive_message-stuck,
}

abbrev reply : Text
reply = codes "<ok/>"

abbrev pieces : List (Option Text)
pieces =
    some (newline ∷ codes "#5") ∷ none ∷ some (newline ∷ codes "<ok/>") ∷ some end_of_chunks ∷ []

reply-framed : joined pieces ≡ framed (chunked []) reply
unfolding framed
reply-framed = refl

reply-HasNone : HasNone end_of_message (framed (chunked []) reply)
unfolding framed split_once
reply-HasNone = refl

reply-IsAscii : IsAscii (framed (chunked []) reply)
unfolding framed
reply-IsAscii = refl

-- The two bytes of é, together and apart.
e_acute : decode (195 ∷ 169 ∷ []) ≡ 233 ∷ []
unfolding decode
e_acute = refl

e_acute_lost : decode (195 ∷ []) ++ decode (169 ∷ []) ≡ []
unfolding decode
e_acute_lost = refl

receive_message-framed_example :
    (receive_message 2 (chunked []) (map event_of pieces)).received ≡ message (strip reply)
receive_message-framed_example =
    receive_message-framed 0 reply pieces refl reply-HasNone reply-IsAscii reply-framed

receive_message-stuck_example :
    (receive_message 1000
      (chunked [])
      (segment (newline ∷ (codes "#-4" ++ (newline ∷ end_of_chunks))) ∷ [])).received
    ≡ stuck
receive_message-stuck_example = receive_message-stuck 1000 []

abbrev quiet : Session
quiet = record { connection = chunked []; idle_count = 0; requests = [] }

abbrev empty_request : Text → Request
empty_request m = record {
  unparsable = false;
  get_config = false;
  get = false;
  monitoring = false;
  edit_config = false;
  get_schema = false;
  lock = false;
  unlock = false;
  commit = false;
  close = false;
}
