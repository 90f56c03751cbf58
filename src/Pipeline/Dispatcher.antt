-- ===== src/Pipeline/Dispatcher.antt =====
-- intelligence-layer/src/pipeline/flow_batch_dispatcher.py: which pairs of a window go to the agent,
-- as synthetic alerts. The signature text, the raw record and logging are left out.
--
-- The parameters of `on_window_close` are what Redis says of the trigger, what the LLM answers,
-- the order in which Python walks through the set of the suspects, and whether the callback takes
-- the alert of a pair or raises.
use s_com_control_plane.Base.{
  Bool, List, Option, Text, [], codes, contains, false, if◌then◌else◌, is_some, keep, leb, length,
  map, min, none, not, some, starts_with, suc, text_dec, text_eq, true, ℕ, ◌&&◌, ◌++◌, ◌+◌, ◌||◌,
  ◌∷◌, ◌≟◌,
}
use s_com_control_plane.Base.Dict.{Dict, keys, lookup, insert}
use s_com_control_plane.Models.{SuricataAlert}
use s_com_control_plane.Agent.Intent.{show_ℕ}
use s_com_control_plane.Pipeline.Aggregator.{
  FlowEvent, AggregatedIpPair, aggregate_flows, suspect_score,
}
use s_com_control_plane.Pipeline.Classifier.{Answer, Classification, classify_batch}
pub mod Keys
pub mod Laws
pub mod Synthetic

-- `_pair_key`
unfoldable pub first_port : AggregatedIpPair → ℕ
first_port p = elim p.unique_dst_ports [ [] ↦ 0 | n ∷ ns ↦ n ]

unfoldable pub pair_key : AggregatedIpPair → Text
unfolding first_port
pair_key p = p.src_ip ++ (codes "→" ++ (p.dest_ip ++ (codes ":" ++ show_ℕ (first_port p))))

abbrev label_of : Option Classification → Text
label_of none = []
label_of (some c) = c.label

abbrev high_signal_labels : List Text
high_signal_labels = codes "SUSPECT_content" ∷ codes "SUSPECT_lateral" ∷ codes "SUSPECT_exfil" ∷ []

abbrev mid_signal_labels : List Text
mid_signal_labels = codes "SUSPECT_burst" ∷ codes "SUSPECT_scan" ∷ codes "SUSPECT_c2_beacon" ∷ []

unfoldable pub synthetic_severity : ℕ → Text → ℕ
unfolding text_dec
synthetic_severity score label =
    if leb 6 score || (label ≟ codes "SUSPECT_content")
    then 1
    else if leb 4 score || contains label high_signal_labels
    then 2
    else if leb 2 score || contains label mid_signal_labels
    then 3
    else 4

abbrev synthetic_sid_base : ℕ
synthetic_sid_base = 9900000

-- `_build_synthetic_alert`
unfoldable pub build_synthetic_alert : AggregatedIpPair → ℕ → Option Classification → SuricataAlert
unfolding synthetic_severity first_port
build_synthetic_alert p score cls = record {
  src_ip = p.src_ip;
  dest_ip = p.dest_ip;
  src_port = 0;
  dest_port = first_port p;
  proto = if leb p.udp_flow_count p.tcp_flow_count then codes "tcp" else codes "udp";
  sid = synthetic_sid_base + min score 99;
  severity = synthetic_severity score (label_of cls);
}

-- What `_trigger_enabled` finds.
pub data Trigger : Type 0 where
  no_redis unreachable unset : Trigger
  value : Text → Trigger

unfoldable pub trigger_enabled : Trigger → Bool
unfolding text_dec
trigger_enabled Trigger.no_redis = true
trigger_enabled Trigger.unreachable = true
trigger_enabled Trigger.unset = true
trigger_enabled (Trigger.value v) = contains v (codes "1" ∷ codes "true" ∷ [])

abbrev pub Scored : Type 0
Scored = Dict Text (AggregatedIpPair × ℕ)

abbrev pub Suspected : Type 0
Suspected = Dict Text (AggregatedIpPair × Classification)

abbrev pub put_scored : ℕ → AggregatedIpPair → Scored → Scored
unfolding text_dec
put_scored threshold p d =
    if leb threshold (suspect_score p) then insert (pair_key p) (p, suspect_score p) d else d

unfoldable pub heuristic_suspects : ℕ → List AggregatedIpPair → Scored → Scored
unfolding put_scored
heuristic_suspects threshold [] d = d
heuristic_suspects threshold (p ∷ ps) d = heuristic_suspects threshold ps (put_scored threshold p d)

abbrev pub put_suspected : Option Classification → AggregatedIpPair → Suspected → Suspected
unfolding text_dec
put_suspected none p d = d
put_suspected (some c) p d =
    if starts_with (codes "SUSPECT") c.label then insert (pair_key p) (p, c) d else d

unfoldable pub llama_suspects :
    Dict Text Classification → List AggregatedIpPair → Suspected → Suspected
unfolding put_suspected text_dec
llama_suspects results [] d = d
llama_suspects results (p ∷ ps) d =
    llama_suspects results ps (put_suspected (lookup (pair_key p) results) p d)

-- `set(a) | set(b)` of the keys of two dictionaries, without an order.
unfoldable pub union_keys : Scored → Suspected → List Text
unfolding text_dec
union_keys h l = keys h ++ keep (λ k. not (contains k (keys h))) (keys l)

-- The pair of a suspect, its score and its classification.
abbrev pub chosen :
    Option (AggregatedIpPair × ℕ)
    → Option (AggregatedIpPair × Classification)
    → Option (AggregatedIpPair × ℕ × Option Classification)
chosen (some (p, s)) none = some (p, s, none)
chosen (some (p, s)) (some (q, c)) = some (p, s, some c)
chosen none (some (q, c)) = some (q, 0, some c)
chosen none none = none

abbrev pub alert_of : Option (AggregatedIpPair × ℕ × Option Classification) → Option SuricataAlert
unfolding build_synthetic_alert
alert_of none = none
alert_of (some (p, s, c)) = some (build_synthetic_alert p s c)

-- The alert of a suspect. `none` is the exception for a key of neither dictionary.
unfoldable pub suspect_alert : Scored → Suspected → Text → Option SuricataAlert
unfolding alert_of text_dec
suspect_alert h l k = alert_of (chosen (lookup k h) (lookup k l))

pub record WindowStats : Type 0 where
  pub flows_in_window : ℕ
  pub ip_pairs_total : ℕ
  pub ip_pairs_suspect_heuristic : ℕ
  pub ip_pairs_suspect_llama : ℕ
  pub ip_pairs_suspect : ℕ
  pub dispatched : ℕ
  pub agent_calls_skipped : ℕ
  pub llama_called : Bool
  pub window_end : Text

pub record FlowBatchDispatcher : Type 0 where
  pub ip_to_zone : Option (Text → Option Text)
  pub suspect_threshold : ℕ
  pub has_fast_llm : Bool
  pub last_window_stats : WindowStats

-- What a window does: the statistics, the suspects in the order of their dispatch, each with the
-- alert that the callback is called with.
pub record Outcome : Type 0 where
  pub stats : WindowStats
  pub calls : List (Text × Option SuricataAlert)

abbrev pub is_nonempty {ℓ} : {A : Type ℓ} → List A → Bool
is_nonempty [] = false
is_nonempty (x ∷ xs) = true

-- The alerts that the callback took.
abbrev pub count_taken : (Text → Bool) → List (Text × Option SuricataAlert) → ℕ
count_taken takes [] = 0
count_taken takes ((k, a) ∷ cs) =
    let rest = count_taken takes cs in if is_some a && takes k then suc rest else rest

unfoldable pub llama_results :
    Answer → FlowBatchDispatcher → List AggregatedIpPair → Dict Text Classification
llama_results answer d pairs =
    if d.has_fast_llm && is_nonempty pairs then classify_batch answer else []

abbrev pub dispatch_to : Scored → Suspected → List Text → List (Text × Option SuricataAlert)
unfolding suspect_alert
dispatch_to h l = map (λ k. (k, suspect_alert h l k))

module _ (trigger : Trigger) (answer : Answer) (order : List Text → List Text)
    (takes : Text → Bool) where
  abbrev stats_before : List FlowEvent → List AggregatedIpPair → Scored → Text → WindowStats
  stats_before flows pairs h window_end = record {
    flows_in_window = length flows;
    ip_pairs_total = length pairs;
    ip_pairs_suspect_heuristic = length h;
    ip_pairs_suspect_llama = 0;
    ip_pairs_suspect = 0;
    dispatched = 0;
    agent_calls_skipped = 0;
    llama_called = false;
    window_end = window_end;
  }

  -- Steps 5 and 6, on the statistics so far.
  abbrev pub dispatch : Scored → Suspected → WindowStats → Outcome
  unfolding dispatch_to union_keys
  dispatch h l s =
      let calls = dispatch_to h l (order (union_keys h l)) in
      record {
        stats = record s {
          ip_pairs_suspect_llama = length l;
          ip_pairs_suspect = length (union_keys h l);
          dispatched = count_taken takes calls;
        };
        calls = calls;
      }

  -- Steps 3 to 6, of the pairs and those that the heuristic suspects.
  abbrev pub judge :
      FlowBatchDispatcher → List FlowEvent → List AggregatedIpPair → Scored → Text → Outcome
  unfolding dispatch trigger_enabled llama_results llama_suspects
  judge d flows pairs h window_end =
      let s = stats_before flows pairs h window_end in
      let results = llama_results answer d pairs in
      if trigger_enabled trigger
      then dispatch h (llama_suspects results pairs [])
          (record s { llama_called = is_nonempty results })
      else record { stats = record s { agent_calls_skipped = length h }; calls = [] }

  -- `on_window_close`; an empty window leaves everything as it is.
  unfoldable pub on_window_close : List FlowEvent → Text → Text → FlowBatchDispatcher → Outcome
  unfolding judge
  on_window_close [] window_start window_end d = record { stats = d.last_window_stats; calls = [] }
  on_window_close (f ∷ fs) window_start window_end d =
      let pairs = aggregate_flows window_start window_end d.ip_to_zone (f ∷ fs) in
      judge d (f ∷ fs) pairs (heuristic_suspects d.suspect_threshold pairs []) window_end
