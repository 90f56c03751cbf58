-- ===== src/Pipeline/Consumer.antt =====
-- intelligence-layer/src/pipeline/consumer.py: the stream of events of the IDS, its reconnection, and
-- the polling of flows. Parameters: what json makes of a payload, whether there is an events store,
-- what Redis says of the trigger, the end of each connection, and the order of a set. A store takes
-- what it is given: the code catches what a push raises, and goes on without the event. The task's
-- cancellation and the callback's exceptions, which are caught, are left out. An event keeps what
-- `from_raw` makes of it, `none` for an exception.
use s_com_control_plane.Base.{
  Bool, List, Option, Text, [], codes, contains, false, if◌then◌else◌, is_empty, min, none, not,
  or_else, some, starts_with, strip, text_dec, text_eq, true, ℕ, ◌&&◌, ◌*◌, ◌++◌, ◌∷◌,
}
use s_com_control_plane.Base.Slices.{drop, last}
use s_com_control_plane.Models.{SuricataAlert}
use s_com_control_plane.Pipeline.Aggregator.{FlowEvent}
use s_com_control_plane.Pipeline.Window.{FlowWindow, push}
use s_com_control_plane.Pipeline.Dispatcher.{Trigger, trigger_enabled}
pub mod Streams
pub mod Delays
pub mod Polling

-- A JSON object; `kind` and `event_type` are its members `type` and `event_type`.
pub record Event : Type 0 where
  pub kind : Option Text
  pub event_type : Option Text
  pub has_alert : Bool
  pub has_src_ip : Bool
  pub flow : Option FlowEvent
  pub alert : Option SuricataAlert

pub data Decoded : Type 0 where
  malformed other_value : Decoded
  object : Event → Decoded

-- What a line leads to: nothing, a flow, an alert, or an exception.
pub data Kind : Type 0 where
  skipped broken : Kind
  flow_line alert_line : Event → Kind

-- What the consumer has handed on, in order: to the events store, to the flow window, and to the
-- agent.
pub record Stream : Type 0 where
  pub flows : List Event
  pub violations : List Event
  pub window : Option (FlowWindow FlowEvent)
  pub dispatched : List SuricataAlert

-- Whether a member is one of some texts.
abbrev pub is_one_of : Option Text → List Text → Bool
unfolding text_dec
is_one_of none ts = false
is_one_of (some t) ts = contains t ts

-- The payload of a line; `none` is one that is passed over.
unfoldable pub payload_of : Text → Option Text
payload_of line =
    let p = strip (drop 6 line) in
    if starts_with (codes "data: ") line && not (is_empty p) then some p else none

unfoldable pub kind_of : Decoded → Kind
unfolding is_one_of
kind_of malformed = skipped
kind_of other_value = broken
kind_of (object e) =
    if is_one_of e.kind (codes "connected" ∷ codes "heartbeat" ∷ [])
    then skipped
    else if is_one_of e.event_type (codes "flow" ∷ [])
    then flow_line e
    else if e.has_alert && e.has_src_ip
    then alert_line e
    else skipped

unfoldable pub kind_of_payload : (Text → Decoded) → Option Text → Kind
unfolding kind_of
kind_of_payload decode none = skipped
kind_of_payload decode (some p) = kind_of (decode p)

-- The push on a window, whose exception is caught.
abbrev pub push_caught : FlowEvent → FlowWindow FlowEvent → FlowWindow FlowEvent
unfolding push
push_caught f w = or_else (push f w) w

abbrev pub push_window :
    Option FlowEvent → Option (FlowWindow FlowEvent) → Option (FlowWindow FlowEvent)
unfolding push_caught
push_window none w = w
push_window (some f) none = none
push_window (some f) (some w) = some (push_caught f w)

module _ (decode : Text → Decoded) (has_store : Bool) (trigger : Trigger) where
  abbrev pub mirror_flow : Event → Stream → Stream
  mirror_flow e s = if has_store then record s { flows = s.flows ++ (e ∷ []) } else s

  abbrev pub mirror_violation : Event → Stream → Stream
  mirror_violation e s = if has_store then record s { violations = s.violations ++ (e ∷ []) } else s

  abbrev pub on_flow : Event → Stream → Stream
  unfolding push_window
  on_flow e s = let s' = mirror_flow e s in record s' { window = push_window e.flow s'.window }

  -- An alert, after it is mirrored. Where the trigger is off, the log line reads
  -- `alert.signature_id`, which no alert has: an exception.
  abbrev pub on_alert : Option SuricataAlert → Stream → Stream × Bool
  unfolding trigger_enabled
  on_alert none s = (s, true)
  on_alert (some a) s =
      if trigger_enabled trigger
      then (record s { dispatched = s.dispatched ++ (a ∷ []) }, false)
      else (s, true)

  -- A line of the stream: the state after it, and whether it raised.
  abbrev pub on_kind : Kind → Stream → Stream × Bool
  unfolding on_flow on_alert
  on_kind skipped s = (s, false)
  on_kind broken s = (s, true)
  on_kind (flow_line e) s = (on_flow e s, false)
  on_kind (alert_line e) s = on_alert e.alert (mirror_violation e s)

  unfoldable pub line_kind : Text → Kind
  unfolding payload_of kind_of_payload
  line_kind line = kind_of_payload decode (payload_of line)

  -- `_consume`, over the lines of one connection: whether an exception ended it.
  unfoldable pub consume : List Text → Stream → Stream × Bool
  unfolding line_kind on_kind
  consume [] s = (s, false)
  consume (line ∷ lines) s =
      let r = on_kind (line_kind line) s in elim r.1 [ true ↦ r | false ↦ consume lines r.0 ]

-- `_run_loop`: the delay slept after each connection, from whether an exception ended it.
unfoldable pub sleeps : (base longest delay : ℕ) → List Bool → List ℕ
sleeps base longest delay [] = []
sleeps base longest delay (raised ∷ rest) =
    let now = if raised then delay else base in
    now ∷ sleeps base longest (min (now * 2) longest) rest

unfoldable pub run_loop : (base longest : ℕ) → List Bool → List ℕ
unfolding sleeps
run_loop base longest ends = sleeps base longest base ends
