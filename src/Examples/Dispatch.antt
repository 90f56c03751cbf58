-- ===== src/Examples/Dispatch.antt =====
-- A window with one suspicious pair.
use s_com_control_plane.Base.{
  Bool, List, Text, [], any, codes, false, none, refl, some, text_dec, text_eq, true, ℕ_discrete,
  ◌&&◌, ◌||◌, ◌∷◌, ◌≡◌,
}
use s_com_control_plane.Base.Dict.{occurrences, one_if}
use s_com_control_plane.Pipeline.Aggregator.{suspect_score, summarize, FlowEvent, aggregate_flows}
use s_com_control_plane.Pipeline.Classifier.{classify_batch, Answer, Item}
use s_com_control_plane.Pipeline.Dispatcher.{
  heuristic_suspects, pair_key, FlowBatchDispatcher, Trigger, llama_results, on_window_close,
  trigger_enabled,
}
use s_com_control_plane.Pipeline.Dispatcher.Keys.{is_flagged, scores}
use s_com_control_plane.Pipeline.Dispatcher.Laws.{dispatched_keys, occurrences-on_window_close}

abbrev admin_flow : FlowEvent
admin_flow = record {
  flow_id = 7;
  src_ip = codes "10.1.100.10";
  dest_ip = codes "10.1.200.10";
  dest_port = 22;
  proto = codes "TCP";
  app_proto = codes "ssh";
  pkts_toserver = 3;
  pkts_toclient = 2;
  bytes_toserver = 300;
  bytes_toclient = 200;
  flow_state = codes "new";
}

abbrev dispatcher : FlowBatchDispatcher
dispatcher = record {
  ip_to_zone = none;
  suspect_threshold = 2;
  has_fast_llm = true;
  last_window_stats = record {
    flows_in_window = 0;
    ip_pairs_total = 0;
    ip_pairs_suspect_heuristic = 0;
    ip_pairs_suspect_llama = 0;
    ip_pairs_suspect = 0;
    dispatched = 0;
    agent_calls_skipped = 0;
    llama_called = false;
    window_end = [];
  };
}

abbrev reply : Answer
reply =
    Answer.items
      (Item.dict (some (codes "10.1.100.10→10.1.200.10:22")) (some (codes "NORMAL")) none none ∷ [])

abbrev same_order : List Text → List Text
same_order ks = ks

abbrev all_taken : Text → Bool
all_taken k = true

abbrev key : Text
key = codes "10.1.100.10→10.1.200.10:22"

occurrences-on_window_close_example :
    occurrences key (
      dispatched_keys (
        on_window_close Trigger.unset reply same_order all_taken
          (admin_flow ∷ [])
          []
          []
          dispatcher))
    ≡ one_if (
        trigger_enabled Trigger.unset
        && (any (scores 2 key) (aggregate_flows [] [] none (admin_flow ∷ []))
            || any
                (is_flagged
                  (llama_results reply dispatcher (aggregate_flows [] [] none (admin_flow ∷ [])))
                  key)
                (aggregate_flows [] [] none (admin_flow ∷ []))))
occurrences-on_window_close_example =
    occurrences-on_window_close Trigger.unset reply same_order all_taken (λ j ks. refl)
      (admin_flow ∷ []) [] [] dispatcher key

-- The heuristic is enough: the classifier cannot take the pair off.
dispatched_once :
    dispatched_keys
      (on_window_close Trigger.unset reply same_order all_taken (admin_flow ∷ []) [] [] dispatcher)
    ≡ key ∷ []
unfolding on_window_close aggregate_flows text_dec heuristic_suspects suspect_score summarize
    ℕ_discrete pair_key classify_batch
dispatched_once = refl
