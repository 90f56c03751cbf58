-- ===== src/Gateway/Netconf/Run/Idle.antt =====
-- A session whose client is silent.
use s_com_control_plane.Base.{Bool, List, Text, [], refl, suc, true, zero, ℕ, ◌∷◌, ◌≡◌}
use s_com_control_plane.Gateway.Netconf.{
  Connection, Recv, reception, receive, receive_message, waiting,
}
use s_com_control_plane.Gateway.Netconf.Run.{Request, Session, run_loop, waits}

-- So many timeouts of `recv`, with no data.
abbrev pub timeouts : ℕ → List Recv
timeouts zero = []
timeouts (suc n) = Recv.timeout ∷ timeouts n

receive-timeouts :
    (fuel : ℕ) (c : Connection) (n : ℕ) → receive fuel c (timeouts n) ≡ reception c waiting []
unfolding receive
receive-timeouts fuel c zero = refl
receive-timeouts fuel c (suc n) = receive-timeouts fuel c n

-- A running session whose socket only times out waits on, with its idle count as it was, however
-- many timeouts there are: they do not count towards the limit of 60.
pub run_loop-timeouts :
    (fuel : ℕ) (parse : Text → Request) (sends : Text → Bool) (rounds n : ℕ) (s : Session)
    → s.connection.running ≡ true
    → run_loop fuel parse sends (suc rounds) (timeouts n) s ≡ waits s
unfolding run_loop receive_message
run_loop-timeouts fuel parse sends rounds n s running =
    simp (running, receive-timeouts fuel s.connection n)
