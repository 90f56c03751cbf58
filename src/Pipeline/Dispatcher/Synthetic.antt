-- ===== src/Pipeline/Dispatcher/Synthetic.antt =====
-- The alerts that a window hands to the agent.
use s_com_control_plane.Base.{
  All, Bool, Bool-cases, List, Option, Text, [], arith, codes, false, inl, inr, is_some, leb, none,
  refl, some, starts_with, text_dec, text_eq, true, ℕ, ◌++◌, ◌<◌, ◌||◌, ◌∷◌, ◌≡◌, ◌≤◌,
}
use s_com_control_plane.Base.Dict.{
  Dict, All-insert, All-lookup, All-occurring, IfSome, lookup, occurrences, one_if,
}
use s_com_control_plane.Models.{SuricataAlert}
use s_com_control_plane.Agent.Intent.{show_ℕ}
use s_com_control_plane.Pipeline.Aggregator.{
  FlowEvent, AggregatedIpPair, aggregate_flows, suspect_score,
}
use s_com_control_plane.Pipeline.Classifier.{Answer, Classification}
use s_com_control_plane.Pipeline.Dispatcher.{
  FlowBatchDispatcher, Scored, Suspected, Trigger, alert_of, build_synthetic_alert, chosen,
  dispatch_to, heuristic_suspects, judge, label_of, llama_results, llama_suspects, on_window_close,
  pair_key, put_scored, put_suspected, suspect_alert, synthetic_severity, trigger_enabled,
  union_keys,
}
use s_com_control_plane.Pipeline.Dispatcher.Keys.{
  Once, heuristic_suspects-Once, llama_suspects-Once, occurrences-union_keys,
}

-- The key of an alert's addresses and port.
abbrev pub alert_key : SuricataAlert → Text
alert_key a = a.src_ip ++ (codes "→" ++ (a.dest_ip ++ (codes ":" ++ show_ℕ a.dest_port)))

-- An alert for a key, with a severity of Suricata's scale and a signature number of the range that
-- is kept for the alerts of flows.
abbrev pub IsSynthetic : Text → Option SuricataAlert → Type 0
IsSynthetic k none = ⊥
IsSynthetic k (some a) =
    (alert_key a ≡ k) × (1 ≤ a.severity) × (a.severity ≤ 4) × (9900000 ≤ a.sid) × (a.sid ≤ 9900099)

severity_range :
    (score : ℕ) (label : Text)
    → (1 ≤ synthetic_severity score label) × (synthetic_severity score label ≤ 4)
unfolding synthetic_severity text_dec
severity_range score label = ground arith

build-IsSynthetic :
    (p : AggregatedIpPair) (s : ℕ) (c : Option Classification)
    → IsSynthetic (pair_key p) (some (build_synthetic_alert p s c))
unfolding build_synthetic_alert pair_key
build-IsSynthetic p s c =
    let r = severity_range s (label_of c) in (refl, r.0, r.1, omega arith, omega arith)

-- The pairs of a dictionary stand under their keys.
abbrev Under : {V : Type 0} → Text → AggregatedIpPair × V → Type 0
Under k e = k ≡ pair_key e.0

put_scored-Under :
    (th : ℕ) (p : AggregatedIpPair) (d : Scored)
    → All (λ (r : Text × (AggregatedIpPair × ℕ)). Under r.0 r.1) d
    → All (λ (r : Text × (AggregatedIpPair × ℕ)). Under r.0 r.1) (put_scored th p d)
unfolding put_scored
put_scored-Under th p d h = elim (Bool-cases (leb th (suspect_score p))) [
  | inl high ↦ rw high (All-insert (λ k v. Under k v) (pair_key p) (p, suspect_score p) d h refl)
  | inr low ↦ rw low h
]

heuristic_suspects-Under :
    (th : ℕ) (ps : List AggregatedIpPair) (d : Scored)
    → All (λ (r : Text × (AggregatedIpPair × ℕ)). Under r.0 r.1) d
    → All (λ (r : Text × (AggregatedIpPair × ℕ)). Under r.0 r.1) (heuristic_suspects th ps d)
unfolding heuristic_suspects
heuristic_suspects-Under th [] d h = h
heuristic_suspects-Under th (p ∷ ps) d h =
    heuristic_suspects-Under th ps (put_scored th p d) (put_scored-Under th p d h)

put_suspected-Under :
    (c : Option Classification) (p : AggregatedIpPair) (d : Suspected)
    → All (λ (r : Text × (AggregatedIpPair × Classification)). Under r.0 r.1) d
    → All (λ (r : Text × (AggregatedIpPair × Classification)). Under r.0 r.1) (put_suspected c p d)
unfolding put_suspected
put_suspected-Under none p d h = h
put_suspected-Under (some c) p d h = elim (Bool-cases (starts_with (codes "SUSPECT") c.label)) [
  | inl high ↦ rw high (All-insert (λ k v. Under k v) (pair_key p) (p, c) d h refl)
  | inr low ↦ rw low h
]

llama_suspects-Under :
    (results : Dict Text Classification) (ps : List AggregatedIpPair) (d : Suspected)
    → All (λ (r : Text × (AggregatedIpPair × Classification)). Under r.0 r.1) d
    → All
        (λ (r : Text × (AggregatedIpPair × Classification)). Under r.0 r.1)
        (llama_suspects results ps d)
unfolding llama_suspects text_dec
llama_suspects-Under results [] d h = h
llama_suspects-Under results (p ∷ ps) d h =
    llama_suspects-Under results ps (put_suspected (lookup (pair_key p) results) p d)
      (put_suspected-Under (lookup (pair_key p) results) p d h)

alert_of-IsSynthetic :
    (k : Text) (a : Option (AggregatedIpPair × ℕ)) (b : Option (AggregatedIpPair × Classification))
    → IfSome (Under k) a
    → IfSome (Under k) b
    → (is_some a || is_some b) ≡ true
    → IsSynthetic k (alert_of (chosen a b))
unfolding alert_of
alert_of-IsSynthetic k none none u v h = cc
alert_of-IsSynthetic k none (some (q, c)) u v h = rw v (build-IsSynthetic q 0 (some c))
alert_of-IsSynthetic k (some (p, s)) none u v h = rw u (build-IsSynthetic p s none)
alert_of-IsSynthetic k (some (p, s)) (some (q, c)) u v h = rw u (build-IsSynthetic p s (some c))

one_if_pos : (b : Bool) → 0 < one_if b → b ≡ true
one_if_pos true h = refl
one_if_pos false h = absurd (omega arith)

module _ (trigger : Trigger) (answer : Answer) (order : List Text → List Text) (takes : Text → Bool)
    (order_all : (j : Text) (ks : List Text) → occurrences j (order ks) ≡ occurrences j ks) where
  All-dispatch_to :
      (h : Scored) (l : Suspected) (ks : List Text)
      → All (λ (k : Text). IsSynthetic k (suspect_alert h l k)) ks
      → All (λ (c : Text × Option SuricataAlert). IsSynthetic c.0 c.1) (dispatch_to h l ks)
  unfolding dispatch_to
  All-dispatch_to h l [] a = tt
  All-dispatch_to h l (k ∷ ks) a = (a.0, All-dispatch_to h l ks a.1)

  member_of :
      (h : Scored) (l : Suspected) (k : Text)
      → Once k h
      → Once k l
      → 0 < occurrences k (order (union_keys h l))
      → (is_some (lookup k h) || is_some (lookup k l)) ≡ true
  member_of h l k ph pl m =
      one_if_pos (is_some (lookup k h) || is_some (lookup k l))
        (omega (arith, order_all k (union_keys h l), occurrences-union_keys h l k ph pl))

  judge-IsSynthetic :
      (d : FlowBatchDispatcher) (fs : List FlowEvent) (ps : List AggregatedIpPair) (until : Text)
      → All
          (λ (c : Text × Option SuricataAlert). IsSynthetic c.0 c.1)
          (judge trigger answer order takes d fs ps
            (heuristic_suspects d.suspect_threshold ps [])
            until).calls
  unfolding judge suspect_alert
  judge-IsSynthetic d fs ps until = elim (Bool-cases (trigger_enabled trigger)) [
    | inr off ↦ rw off tt
    | inl on ↦
        let results = llama_results answer d ps in
        let h : Scored = heuristic_suspects d.suspect_threshold ps [] in
        let l : Suspected = llama_suspects results ps [] in
        rw on (
          All-dispatch_to h l (order (union_keys h l)) (
            All-occurring (λ (k : Text). IsSynthetic k (suspect_alert h l k))
              (order (union_keys h l))
              (λ k m.
                alert_of-IsSynthetic k (lookup k h) (lookup k l)
                  (All-lookup (λ k v. Under k v) k h
                    (heuristic_suspects-Under d.suspect_threshold ps [] tt))
                  (All-lookup (λ k v. Under k v) k l (llama_suspects-Under results ps [] tt))
                  (member_of h l k (heuristic_suspects-Once d.suspect_threshold k ps [] refl)
                    (llama_suspects-Once results k ps [] refl) m))))
  ]

  -- Each alert that a window hands to the agent has the addresses and the port of its key, a
  -- severity from 1 to 4, and a signature number from 9900000 to 9900099; none fails for want of a
  -- pair. This holds for any walk through the suspects that visits each as often as it stands
  -- there.
  pub on_window_close-IsSynthetic :
      (fs : List FlowEvent) (from until : Text) (d : FlowBatchDispatcher)
      → All
          (λ (c : Text × Option SuricataAlert). IsSynthetic c.0 c.1)
          (on_window_close trigger answer order takes fs from until d).calls
  unfolding on_window_close
  on_window_close-IsSynthetic [] from until d = tt
  on_window_close-IsSynthetic (f ∷ fs) from until d =
      judge-IsSynthetic d (f ∷ fs) (aggregate_flows from until d.ip_to_zone (f ∷ fs)) until
