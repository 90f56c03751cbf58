-- ===== src/Pipeline/Aggregator/Totals.antt =====
-- Sums over the buckets and the summaries of a window.
use s_com_control_plane.Base.{
  Bool, Bool-cases, List, Option, Text, [], arith, false, if◌then◌else◌, inl, inr, keep, length,
  map, or_else, refl, sum, sym, true, ℕ, ◌++◌, ◌+◌, ◌∙◌, ◌∷◌, ◌≟◌, ◌≡◌,
}
use s_com_control_plane.Base.Dict.{Dict, lookup, insert}
use s_com_control_plane.Pipeline.Aggregator.{
  FlowEvent, IpPair, AggregatedIpPair, pair_dec, pair_of, has_both, put, put_if, fill, summarize,
  aggregate_flows, pair_eq,
}

module _ (g : FlowEvent → ℕ) where
  abbrev measure : List FlowEvent → ℕ
  measure fs = sum (map g fs)

  -- The sum over the buckets.
  abbrev total : Dict IpPair (List FlowEvent) → ℕ
  total [] = 0
  total ((k, fs) ∷ d) = measure fs + total d

  measure-append :
      (fs : List FlowEvent) (f : FlowEvent) → measure (fs ++ (f ∷ [])) ≡ measure fs + g f
  measure-append [] f = omega arith
  measure-append (x ∷ fs) f = omega (arith, measure-append fs f)

  total-insert :
      (k : IpPair) (v : List FlowEvent) (d : Dict IpPair (List FlowEvent))
      → total (insert k v d) + measure (or_else (lookup k d) []) ≡ total d + measure v
  unfolding pair_dec
  total-insert k v [] = omega arith
  total-insert k v ((j, fs) ∷ d) = elim (Bool-cases (k ≟ j)) [
    | inl same ↦ rw same (omega arith)
    | inr other ↦ rw other (omega (arith, total-insert k v d))
  ]

  total-put : (f : FlowEvent) (d : Dict IpPair (List FlowEvent)) → total (put f d) ≡ total d + g f
  unfolding put
  total-put f d = omega (
    arith,
    total-insert (pair_of f) (or_else (lookup (pair_of f) d) [] ++ (f ∷ [])) d,
    measure-append (or_else (lookup (pair_of f) d) []) f,
  )

  total-put_if :
      (b : Bool) (f : FlowEvent) (d : Dict IpPair (List FlowEvent))
      → total (put_if b f d) ≡ total d + (if b then g f else 0)
  unfolding put_if
  total-put_if true f d = total-put f d
  total-put_if false f d = omega arith

  total-fill :
      (fs : List FlowEvent) (d : Dict IpPair (List FlowEvent))
      → total (fill fs d) ≡ total d + measure (keep has_both fs)
  unfolding fill
  total-fill [] d = omega arith
  total-fill (f ∷ fs) d = elim (Bool-cases (has_both f)) [
    | inl h ↦ rw h (omega (arith, total-fill fs (put_if true f d), total-put_if true f d))
    | inr h ↦ rw h (omega (arith, total-fill fs (put_if false f d), total-put_if false f d))
  ]

  -- A sum that the summary of each bucket carries, over all summaries.
  sum-summaries :
      (start end : Text) (zone_of : Option (Text → Option Text)) (h : AggregatedIpPair → ℕ)
      → ((b : IpPair × List FlowEvent) → h (summarize start end zone_of b) ≡ measure b.1)
      → (d : Dict IpPair (List FlowEvent))
      → sum (map h (map (summarize start end zone_of) d)) ≡ total d
  sum-summaries start end zone_of h e [] = refl
  sum-summaries start end zone_of h e ((k, fs) ∷ d) =
      omega (arith, e (k, fs), sum-summaries start end zone_of h e d)

  aggregated-total :
      (start end : Text) (zone_of : Option (Text → Option Text)) (h : AggregatedIpPair → ℕ)
      → ((b : IpPair × List FlowEvent) → h (summarize start end zone_of b) ≡ measure b.1)
      → (fs : List FlowEvent)
      → sum (map h (aggregate_flows start end zone_of fs)) ≡ measure (keep has_both fs)
  unfolding aggregate_flows
  aggregated-total start end zone_of h e fs =
      omega (arith, sum-summaries start end zone_of h e (fill fs []), total-fill fs [])

measure_one : (fs : List FlowEvent) → length fs ≡ measure (λ _. 1) fs
measure_one [] = refl
measure_one (f ∷ fs) = omega (arith, measure_one fs)

-- Over all pairs of a window, the counts of flows and the sums of packets and bytes are those of
-- the flows that have both addresses: none is lost and none counted twice.
pub aggregate_flows-conserves :
    (start end : Text) (zone_of : Option (Text → Option Text)) (fs : List FlowEvent)
    → (sum (map (λ (p : AggregatedIpPair). p.flow_count) (aggregate_flows start end zone_of fs))
        ≡ length (keep has_both fs))
      × (sum (
            map
              (λ (p : AggregatedIpPair). p.pkts_toserver_sum)
              (aggregate_flows start end zone_of fs))
          ≡ sum (map (λ (f : FlowEvent). f.pkts_toserver) (keep has_both fs)))
      × (sum (
            map
              (λ (p : AggregatedIpPair). p.pkts_toclient_sum)
              (aggregate_flows start end zone_of fs))
          ≡ sum (map (λ (f : FlowEvent). f.pkts_toclient) (keep has_both fs)))
      × (sum (
            map
              (λ (p : AggregatedIpPair). p.bytes_toserver_sum)
              (aggregate_flows start end zone_of fs))
          ≡ sum (map (λ (f : FlowEvent). f.bytes_toserver) (keep has_both fs)))
      × (sum (
            map
              (λ (p : AggregatedIpPair). p.bytes_toclient_sum)
              (aggregate_flows start end zone_of fs))
          ≡ sum (map (λ (f : FlowEvent). f.bytes_toclient) (keep has_both fs)))
unfolding summarize
aggregate_flows-conserves start end zone_of fs = (
  aggregated-total (λ _. 1) start end zone_of _ (λ b. measure_one b.1) fs
      ∙ sym (measure_one (keep has_both fs)),
  aggregated-total _ start end zone_of _ (λ b. refl) fs,
  aggregated-total _ start end zone_of _ (λ b. refl) fs,
  aggregated-total _ start end zone_of _ (λ b. refl) fs,
  aggregated-total _ start end zone_of _ (λ b. refl) fs,
)
