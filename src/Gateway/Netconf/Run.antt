-- ===== src/Gateway/Netconf/Run.antt =====
-- secure-framework/netconf/netconf_session.py: the dispatch of a request, and the loop of a session.
use s_com_control_plane.Base.{
  Bool, List, Text, [], codes, false, if◌then◌else◌, is_empty, is_infix, leb, suc, true, zero, ℕ,
  ◌&&◌, ◌++◌, ◌+◌, ◌||◌, ◌∷◌,
}
use s_com_control_plane.Gateway.Netconf.{
  Connection, Recv, Received, message, closed, waiting, stuck, lost, receive_message, send_response,
}
pub mod Idle

-- The client's hello, in `run`.
unfoldable pub negotiate : Text → Connection → Connection
negotiate hello c = record c {
  use_chunked = c.use_chunked || is_infix (codes "urn:ietf:params:netconf:base:1.1") hello;
  hello_complete = true;
}

-- Which elements a request has; `unparsable` is an exception of the XML parser.
pub record Request : Type 0 where
  pub unparsable : Bool
  pub get_config : Bool
  pub get : Bool
  pub monitoring : Bool
  pub edit_config : Bool
  pub get_schema : Bool
  pub lock : Bool
  pub unlock : Bool
  pub commit : Bool
  pub close : Bool

-- The branches of `handle_rpc`.
pub data Operation : Type 0 where
  reply_error read_config list_schemas read_state write_config send_schema : Operation
  acknowledge end_session : Operation

unfoldable pub operation_of : Request → Operation
operation_of r =
    if r.unparsable
    then reply_error
    else if r.get_config
    then read_config
    else if r.get && r.monitoring
    then list_schemas
    else if r.get
    then read_state
    else if r.edit_config
    then write_config
    else if r.get_schema
    then send_schema
    else if r.lock || r.unlock
    then acknowledge
    else if r.commit
    then acknowledge
    else if r.close
    then end_session
    else acknowledge

-- `handle_rpc`: the reply was sent or not, and `close-session` ends the session.
abbrev pub ended : Operation → Connection → Connection
ended reply_error c = c
ended read_config c = c
ended list_schemas c = c
ended read_state c = c
ended write_config c = c
ended send_schema c = c
ended acknowledge c = c
ended end_session c = record c { running = false }

unfoldable pub handle_rpc : Bool → Request → Connection → Connection
unfolding operation_of send_response
handle_rpc sends r c = ended (operation_of r) (send_response sends c)

-- How the loop of `run` stands.
pub record Session : Type 0 where
  pub connection : Connection
  pub idle_count : ℕ
  pub requests : List Text

-- `waits` is a session whose socket has nothing to do yet, `hangs` one in an endless loop; what
-- follows a jump before the start of a message, or the last of the rounds, is not modelled.
pub data Loop : Type 0 where
  over : Session → Loop
  waits : Session → Loop
  hangs : Session → Loop
  unfollowed : Session → Loop

abbrev pub max_idle : ℕ
max_idle = 60

-- The messages of a session are taken one by one; `rounds` bounds them, since each takes something
-- that the socket does. `parse` reads the XML, `sends` tells whether the reply to a message goes out.
module _ (fuel : ℕ) (parse : Text → Request) (sends : Text → Bool) where
  abbrev pub served : Text → Session → Session
  unfolding handle_rpc
  served m s = record s {
    connection = handle_rpc (sends m) (parse m) s.connection;
    idle_count = 0;
    requests = s.requests ++ (m ∷ []);
  }

  abbrev pub idle : Session → Session
  idle s = record s { idle_count = s.idle_count + 1 }

  -- An empty message counts as idle, up to a limit; any other is served.
  abbrev pub on_message : (Session → Loop) → Text → Session → Loop
  unfolding served
  on_message go m s =
      if is_empty m
      then if leb max_idle (s.idle_count + 1) then over (idle s) else go (idle s)
      else go (served m s)

  abbrev pub on_received : (Session → Loop) → Session → Received → Loop
  unfolding on_message
  on_received go s closed = over s
  on_received go s lost = unfollowed s
  on_received go s waiting = waits s
  on_received go s stuck = hangs s
  on_received go s (message m) = on_message go m s

  unfoldable pub run_loop : ℕ → List Recv → Session → Loop
  unfolding receive_message on_received
  run_loop zero es s = unfollowed s
  run_loop (suc rounds) es s =
      let r = receive_message fuel s.connection es in
      if s.connection.running
      then on_received (run_loop rounds r.later) (record s { connection = r.connection }) r.received
      else over s
