-- ===== src/Examples/Stream.antt =====
-- A connection with one alert, and a poll with one flow twice.
use s_com_control_plane.Base.{
  All, List, Text, [], any, arith, codes, false, length, map, none, refl, some, text_dec, text_eq,
  true, ◌+◌, ◌∷◌, ◌≡◌, ◌≤◌,
}
use s_com_control_plane.Base.Dict.{occurrences}
use s_com_control_plane.Pipeline.Dispatcher.{Trigger, trigger_enabled}
use s_com_control_plane.Pipeline.Consumer.{
  Decoded, object, Stream, consume, run_loop, line_kind, payload_of, kind_of,
}
use s_com_control_plane.Pipeline.Consumer.Streams.{
  Sound, OnStep, ends_off, events_of, kinds, consume-off, consume-on,
}
use s_com_control_plane.Pipeline.Consumer.Delays.{backoff, run_loop-backoff}
use s_com_control_plane.Pipeline.Consumer.Polling.{
  FlowRecord, Poller, flow_key, ingest_all, due, stored_keys, ingest_all-due,
}
use s_com_control_plane.Examples.Agent.{web_alert}

abbrev decode : Text → Decoded
decode _ = object (record {
  kind = none;
  event_type = some (codes "alert");
  has_alert = true;
  has_src_ip = true;
  flow = none;
  alert = some web_alert;
})

abbrev lines : List Text
lines = codes "data: {}" ∷ codes ": comment" ∷ codes "data: {}" ∷ []

abbrev fresh : Stream
fresh = record { flows = []; violations = []; window = none; dispatched = [] }

abbrev off : Trigger
off = Trigger.value (codes "0")

off_disabled : trigger_enabled off ≡ false
unfolding trigger_enabled text_dec
off_disabled = refl

unset_enabled : trigger_enabled Trigger.unset ≡ true
unfolding trigger_enabled
unset_enabled = refl

consume-off_example :
    ((consume decode true off lines fresh).0.dispatched ≡ fresh.dispatched)
    × (length (consume decode true off lines fresh).0.violations ≤ length fresh.violations + 1)
    × ((consume decode true off lines fresh).1 ≡ any ends_off (kinds decode true off lines))
consume-off_example = consume-off decode true off lines fresh off_disabled

lines-Sound : All Sound (kinds decode true Trigger.unset lines)
unfolding line_kind payload_of kind_of text_dec
lines-Sound = (refl, (tt, (refl, tt)))

consume-on_example :
    OnStep decode true Trigger.unset
      (events_of (kinds decode true Trigger.unset lines))
      fresh
      (consume decode true Trigger.unset lines fresh)
consume-on_example = consume-on decode true Trigger.unset lines fresh unset_enabled lines-Sound

run_loop-backoff_example :
    (run_loop 3 60 (true ∷ true ∷ false ∷ true ∷ [])
      ≡ backoff 3 60 0 (true ∷ true ∷ false ∷ true ∷ []))
    × All (λ d. (3 ≤ d) × (d ≤ 60)) (run_loop 3 60 (true ∷ true ∷ false ∷ true ∷ []))
run_loop-backoff_example = run_loop-backoff 3 60 (true ∷ true ∷ false ∷ true ∷ []) (omega arith)

abbrev one_flow : FlowRecord
one_flow = record {
  timestamp = codes "t1";
  src_ip = codes "10.1.100.10";
  src_port = codes "40000";
  dest_ip = codes "10.1.200.10";
  dest_port = codes "5432";
  event = none;
}

abbrev poller : Poller
poller = record { seen = []; stored = []; window = none }

ingest_all-due_example :
    occurrences
      (flow_key one_flow)
      (stored_keys true (λ s. s) (ingest_all true (λ s. s) (one_flow ∷ one_flow ∷ []) poller))
    ≡ occurrences (flow_key one_flow) (stored_keys true (λ s. s) poller)
      + due true (λ s. s) (flow_key one_flow) poller.seen (map flow_key (one_flow ∷ one_flow ∷ []))
ingest_all-due_example =
    ingest_all-due true (λ s. s) (one_flow ∷ one_flow ∷ []) poller (flow_key one_flow) refl
      (omega arith)
