-- ===== src/Pipeline/Dispatcher/Laws.antt =====
-- What a window hands to the agent.
use s_com_control_plane.Base.{
  Bool, Bool-cases, List, Option, Text, [], any, ap, arith, inl, inr, map, refl, text_eq, ◌&&◌,
  ◌||◌, ◌∙◌, ◌∷◌, ◌≡◌,
}
use s_com_control_plane.Base.Dict.{occurrences, one_if}
use s_com_control_plane.Models.{SuricataAlert}
use s_com_control_plane.Pipeline.Aggregator.{FlowEvent, AggregatedIpPair, aggregate_flows, fill}
use s_com_control_plane.Pipeline.Classifier.{Answer}
use s_com_control_plane.Pipeline.Dispatcher.{
  FlowBatchDispatcher, Outcome, Scored, Suspected, Trigger, dispatch_to, heuristic_suspects, judge,
  llama_results, llama_suspects, on_window_close, trigger_enabled, union_keys,
}
use s_com_control_plane.Pipeline.Dispatcher.Keys.{
  heuristic_suspects-Once, is_flagged, llama_suspects-Once, lookup-heuristic_suspects,
  lookup-llama_suspects, occurrences-union_keys, scores,
}

-- The keys of the pairs that the callback is called for.
abbrev pub dispatched_keys : Outcome → List Text
dispatched_keys o = map (λ (c : Text × Option SuricataAlert). c.0) o.calls

module _ (trigger : Trigger) (answer : Answer) (order : List Text → List Text) (takes : Text → Bool)
    (order_all : (j : Text) (ks : List Text) → occurrences j (order ks) ≡ occurrences j ks) where
  keys-dispatch_to :
      (h : Scored) (l : Suspected) (ks : List Text)
      → map (λ (c : Text × Option SuricataAlert). c.0) (dispatch_to h l ks) ≡ ks
  unfolding dispatch_to
  keys-dispatch_to h l [] = refl
  keys-dispatch_to h l (k ∷ ks) = ap (◌∷◌ k) (keys-dispatch_to h l ks)

  occurrences-judge :
      (d : FlowBatchDispatcher) (fs : List FlowEvent) (ps : List AggregatedIpPair) (until k : Text)
      → occurrences k (
          dispatched_keys (
            judge trigger answer order takes d fs ps
              (heuristic_suspects d.suspect_threshold ps [])
              until))
        ≡ one_if (
            trigger_enabled trigger
            && (any (scores d.suspect_threshold k) ps
                || any (is_flagged (llama_results answer d ps) k) ps))
  unfolding judge
  occurrences-judge d fs ps until k = elim (Bool-cases (trigger_enabled trigger)) [
    | inr off ↦ rw off refl
    | inl on ↦
        let results = llama_results answer d ps in
        let h : Scored = heuristic_suspects d.suspect_threshold ps [] in
        let l : Suspected = llama_suspects results ps [] in
        rw on (
          ap (occurrences k) (keys-dispatch_to h l (order (union_keys h l)))
          ∙ (order_all k (union_keys h l)
              ∙ (occurrences-union_keys h l k
                    (heuristic_suspects-Once d.suspect_threshold k ps [] refl)
                    (llama_suspects-Once results k ps [] refl)
                  ∙ (rw
                      (
                        lookup-heuristic_suspects d.suspect_threshold k ps [],
                        lookup-llama_suspects results k ps [],
                      )
                      refl))))
  ]

  -- Where the trigger is on, the callback is called once for each key of a pair of the window that
  -- the heuristic scores from the threshold up or that the classifier labels SUSPECT, and for no
  -- other key; where the trigger is off, it is not called. This holds for any walk through the
  -- suspects that visits each as often as it stands there.
  pub occurrences-on_window_close :
      (fs : List FlowEvent) (from until : Text) (d : FlowBatchDispatcher) (k : Text)
      → occurrences k (dispatched_keys (on_window_close trigger answer order takes fs from until d))
        ≡ one_if (
            trigger_enabled trigger
            && (any (scores d.suspect_threshold k) (aggregate_flows from until d.ip_to_zone fs)
                || any
                    (is_flagged
                      (llama_results answer d (aggregate_flows from until d.ip_to_zone fs))
                      k)
                    (aggregate_flows from until d.ip_to_zone fs)))
  unfolding on_window_close aggregate_flows fill
  occurrences-on_window_close [] from until d k = ground arith
  occurrences-on_window_close (f ∷ fs) from until d k =
      occurrences-judge d (f ∷ fs) (aggregate_flows from until d.ip_to_zone (f ∷ fs)) until k
