-- ===== src/Pipeline/Aggregator/Grouping.antt =====
-- The buckets that the first loop of `aggregate_flows` fills.
use s_com_control_plane.Base.{
  Bool-cases, List, [], ap, append_assoc, append_nil, eq_of_≟, if◌then◌else◌, inl, inr, keep,
  or_else, refl, sym, ◌&&◌, ◌++◌, ◌∙◌, ◌∷◌, ◌≟◌, ◌≡◌,
}
use s_com_control_plane.Base.Dict.{Dict, lookup, lookup-insert}
use s_com_control_plane.Pipeline.Aggregator.{
  FlowEvent, IpPair, pair_dec, pair_of, has_both, put, put_if, fill, pair_eq,
}

-- The bucket of a pair.
abbrev pub bucket : IpPair → Dict IpPair (List FlowEvent) → List FlowEvent
unfolding pair_dec
bucket k d = or_else (lookup k d) []

-- The flows of a pair, as they arrived.
abbrev pub flows_of : IpPair → List FlowEvent → List FlowEvent
unfolding pair_dec
flows_of k = keep (λ (f : FlowEvent). has_both f && (k ≟ pair_of f))

bucket-put :
    (k : IpPair) (f : FlowEvent) (d : Dict IpPair (List FlowEvent))
    → bucket k (put f d) ≡ (if k ≟ pair_of f then bucket k d ++ (f ∷ []) else bucket k d)
unfolding put bucket
bucket-put k f d = elim (Bool-cases (k ≟ pair_of f)) [
  | inl same ↦
      rw (lookup-insert k (pair_of f) (bucket (pair_of f) d ++ (f ∷ [])) d, same)
        (ap (λ q. bucket q d ++ (f ∷ [])) (sym (eq_of_≟ k (pair_of f) same)))
  | inr other ↦ rw (lookup-insert k (pair_of f) (bucket (pair_of f) d ++ (f ∷ [])) d, other) refl
]

bucket-fill :
    (k : IpPair) (fs : List FlowEvent) (d : Dict IpPair (List FlowEvent))
    → bucket k (fill fs d) ≡ bucket k d ++ flows_of k fs
unfolding fill put_if flows_of
bucket-fill k [] d = sym (append_nil (bucket k d))
bucket-fill k (f ∷ fs) d = elim (Bool-cases (has_both f)) [
  | inr h ↦ rw h (bucket-fill k fs d)
  | inl h ↦ elim (Bool-cases (k ≟ pair_of f)) [
    | inl same ↦
        rw (h, same)
          (bucket-fill k fs (put f d)
            ∙ (ap (λ b. b ++ flows_of k fs) (rw same at (bucket-put k f d))
                ∙ append_assoc (bucket k d) (f ∷ []) (flows_of k fs)))
    | inr other ↦
        rw (h, other)
          (bucket-fill k fs (put f d)
            ∙ ap (λ b. b ++ flows_of k fs) (rw other at (bucket-put k f d)))
  ]
]

-- After the first loop, the bucket of a pair holds the flows of that pair, as they arrived.
bucket-fill_empty : (k : IpPair) (fs : List FlowEvent) → bucket k (fill fs []) ≡ flows_of k fs
unfolding bucket
bucket-fill_empty k fs = bucket-fill k fs []
