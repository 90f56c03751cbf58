-- ===== src/Pipeline/Dispatcher/Keys.antt =====
-- The keys of the two dictionaries of suspects, and of their union.
use s_com_control_plane.Base.{
  Bool, Bool-cases, List, Option, Text, [], any, arith, codes, contains, false, inl, inr, is_some,
  keep, leb, none, not, some, starts_with, text_dec, text_eq, ℕ, ◌&&◌, ◌||◌, ◌∷◌, ◌≟◌, ◌≡◌,
}
use s_com_control_plane.Base.Dict.{
  Dict, contains-keys, keys, keys_once-insert, lookup, lookup-insert, occurrences,
  occurrences-append, occurrences-keep, one_if,
}
use s_com_control_plane.Pipeline.Aggregator.{AggregatedIpPair, suspect_score}
use s_com_control_plane.Pipeline.Classifier.{Classification}
use s_com_control_plane.Pipeline.Dispatcher.{
  Scored, Suspected, heuristic_suspects, llama_suspects, pair_key, put_scored, put_suspected,
  union_keys,
}

-- A pair of this key that the heuristic suspects.
abbrev pub scores : ℕ → Text → AggregatedIpPair → Bool
unfolding text_dec
scores threshold k p = (k ≟ pair_key p) && leb threshold (suspect_score p)

-- A pair of this key that the classifier suspects.
abbrev pub flagged : Option Classification → Bool
flagged none = false
flagged (some c) = starts_with (codes "SUSPECT") c.label

abbrev pub is_flagged : Dict Text Classification → Text → AggregatedIpPair → Bool
unfolding text_dec
is_flagged results k p = (k ≟ pair_key p) && flagged (lookup (pair_key p) results)

-- Each key that is in a dictionary stands in it once.
abbrev pub Once {ℓ} : {V : Type ℓ} → Text → Dict Text V → Type 0
unfolding text_dec
Once k d = occurrences k (keys d) ≡ one_if (is_some (lookup k d))

lookup-put_scored :
    (th : ℕ) (k : Text) (p : AggregatedIpPair) (d : Scored)
    → is_some (lookup k (put_scored th p d)) ≡ (is_some (lookup k d) || scores th k p)
unfolding put_scored scores
lookup-put_scored th k p d = elim (Bool-cases (leb th (suspect_score p))) [
  | inl high ↦ rw high (ground (arith, lookup-insert k (pair_key p) (p, suspect_score p) d))
  | inr low ↦ rw low (ground arith)
]

put_scored-Once :
    (th : ℕ) (k : Text) (p : AggregatedIpPair) (d : Scored) → Once k d → Once k (put_scored th p d)
unfolding put_scored Once
put_scored-Once th k p d h = elim (Bool-cases (leb th (suspect_score p))) [
  | inl high ↦ rw high (keys_once-insert k (pair_key p) (p, suspect_score p) d h)
  | inr low ↦ rw low h
]

pub lookup-heuristic_suspects :
    (th : ℕ) (k : Text) (ps : List AggregatedIpPair) (d : Scored)
    → is_some (lookup k (heuristic_suspects th ps d))
      ≡ (is_some (lookup k d) || any (scores th k) ps)
unfolding heuristic_suspects text_dec
lookup-heuristic_suspects th k [] d = ground arith
lookup-heuristic_suspects th k (p ∷ ps) d =
    ground
      (arith, lookup-heuristic_suspects th k ps (put_scored th p d), lookup-put_scored th k p d)

pub heuristic_suspects-Once :
    (th : ℕ) (k : Text) (ps : List AggregatedIpPair) (d : Scored)
    → Once k d
    → Once k (heuristic_suspects th ps d)
unfolding heuristic_suspects
heuristic_suspects-Once th k [] d h = h
heuristic_suspects-Once th k (p ∷ ps) d h =
    heuristic_suspects-Once th k ps (put_scored th p d) (put_scored-Once th k p d h)

lookup-put_suspected :
    (c : Option Classification) (k : Text) (p : AggregatedIpPair) (d : Suspected)
    → is_some (lookup k (put_suspected c p d))
      ≡ (is_some (lookup k d) || ((k ≟ pair_key p) && flagged c))
unfolding put_suspected text_dec
lookup-put_suspected none k p d = ground arith
lookup-put_suspected (some c) k p d = elim (Bool-cases (starts_with (codes "SUSPECT") c.label)) [
  | inl high ↦ rw high (ground (arith, lookup-insert k (pair_key p) (p, c) d))
  | inr low ↦ rw low (ground arith)
]

put_suspected-Once :
    (c : Option Classification) (k : Text) (p : AggregatedIpPair) (d : Suspected)
    → Once k d
    → Once k (put_suspected c p d)
unfolding put_suspected Once
put_suspected-Once none k p d h = h
put_suspected-Once (some c) k p d h = elim (Bool-cases (starts_with (codes "SUSPECT") c.label)) [
  | inl high ↦ rw high (keys_once-insert k (pair_key p) (p, c) d h)
  | inr low ↦ rw low h
]

pub lookup-llama_suspects :
    (results : Dict Text Classification) (k : Text) (ps : List AggregatedIpPair) (d : Suspected)
    → is_some (lookup k (llama_suspects results ps d))
      ≡ (is_some (lookup k d) || any (is_flagged results k) ps)
unfolding llama_suspects text_dec is_flagged
lookup-llama_suspects results k [] d = ground arith
lookup-llama_suspects results k (p ∷ ps) d = ground (
  arith,
  lookup-llama_suspects results k ps (put_suspected (lookup (pair_key p) results) p d),
  lookup-put_suspected (lookup (pair_key p) results) k p d,
)

pub llama_suspects-Once :
    (results : Dict Text Classification) (k : Text) (ps : List AggregatedIpPair) (d : Suspected)
    → Once k d
    → Once k (llama_suspects results ps d)
unfolding llama_suspects
llama_suspects-Once results k [] d h = h
llama_suspects-Once results k (p ∷ ps) d h =
    llama_suspects-Once results k ps (put_suspected (lookup (pair_key p) results) p d)
      (put_suspected-Once (lookup (pair_key p) results) k p d h)

-- A key of either dictionary stands once in the union.
pub occurrences-union_keys :
    (h : Scored) (l : Suspected) (k : Text)
    → Once k h
    → Once k l
    → occurrences k (union_keys h l) ≡ one_if (is_some (lookup k h) || is_some (lookup k l))
unfolding union_keys Once text_dec
occurrences-union_keys h l k ph pl = ground (
  arith,
  occurrences-append k (keys h) (keep (λ k. not (contains k (keys h))) (keys l)),
  occurrences-keep k (λ k. not (contains k (keys h))) (keys l),
  contains-keys k h,
)
