-- ===== src/Agent/Consistency/Sources.antt =====
-- The sources that the answers of a vote name.
use s_com_control_plane.Base.{
  All, Bool, List, Option, Text, [], ap, arith, false, if◌then◌else◌, leb, length, ltb, none, refl,
  some, text_dec, text_eq, true, ℕ, ◌*◌, ◌∷◌, ◌≡◌, ◌≤◌,
}
use s_com_control_plane.Base.Dict.{occurrences, values}
use s_com_control_plane.Agent.Consistency.{
  Reply, RunResult, Votes, all_results, best_from, count_votes, counter, decide, do_runs,
  dominant_count, evaluate_uncertainty, last_of, maximum, named, results_of, self_consistency_vote,
  src_ips,
}
use s_com_control_plane.Agent.Consistency.Winner.{passed}
use s_com_control_plane.Agent.Consistency.Tally.{
  counter-Counts, most_common, names, occurrences-named, total, total-count_votes, total-names,
  total_ones,
}

last_test :
    (a b c : Bool)
    → a ≡ false
    → (if a then true else if b then false else if c then false else true) ≡ true
    → c ≡ false
last_test a b c p h = ground arith

share_of_passed :
    (too_uncertain : List ℕ → Bool) (rs : List RunResult)
    → 2 ≤ length rs
    → evaluate_uncertainty too_uncertain rs ≡ true
    → 67 * length rs ≤ dominant_count rs * 100
unfolding evaluate_uncertainty
share_of_passed too_uncertain rs two h =
    let several : leb (length rs) 1 ≡ false = ground arith in
    let few =
      last_test (leb (length rs) 1) _ (ltb (dominant_count rs * 100) (67 * length rs)) several h in
    ground arith

dominant-eq : (rs : List RunResult) → dominant_count rs ≡ maximum (values (counter (src_ips rs) []))
unfolding dominant_count
dominant-eq rs = refl

-- How many answers name a source.
abbrev pub count_naming : Text → List RunResult → ℕ
unfolding text_dec
count_naming s rs = occurrences s (src_ips rs)

share_of_decided :
    (too_uncertain : List ℕ → Bool) (min_agree : ℕ) (rs : List RunResult) (r : RunResult)
    (d : Votes)
    → count_votes rs [] ≡ d
    → decide too_uncertain min_agree d ≡ some r
    → 2 ≤ length rs
    → (s : Text) × (67 * length rs ≤ 100 * count_naming s rs)
unfolding decide count_naming
share_of_decided too_uncertain min_agree rs r [] e h two = cc
share_of_decided too_uncertain min_agree rs r (v ∷ vs) e h two =
    let all : List RunResult = all_results (v ∷ vs) in
    let same_length : length all ≡ length rs = omega (
      arith,
      total_ones all,
      total_ones rs,
      total-count_votes (λ r. 1) rs [],
      ap (λ d. total (λ r. 1) (all_results d)) e,
    ) in
    let p =
      passed (ltb (length (best_from v vs).1) min_agree) (evaluate_uncertainty too_uncertain all)
        (last_of (best_from v vs).1) r h in
    let share = share_of_passed too_uncertain all (omega (arith, same_length, two)) p.1 in
    let c =
      most_common (src_ips all) (counter (src_ips all) [])
        (counter-Counts (src_ips all) [] (src_ips all) [] (λ k. omega arith) tt) in
    (
      c.0,
      omega (
        arith,
        share,
        same_length,
        dominant-eq all,
        c.1,
        total-names c.0 all,
        total-names c.0 rs,
        total-count_votes (names c.0) rs [],
        ap (λ d. total (names c.0) (all_results d)) e,
      ),
    )

-- If a vote with at least two answers gives one, there is a source that at least 67 % of the
-- answers name.
self_consistency_vote-source :
    (too_uncertain : List ℕ → Bool) (chat : ℕ → ℕ → Reply) (n_runs min_agree max_retries : ℕ)
    (r : RunResult)
    → self_consistency_vote too_uncertain chat n_runs min_agree max_retries ≡ some r
    → 2 ≤ length (results_of (do_runs chat n_runs 0 max_retries))
    → (s : Text) × (67 * length (results_of (do_runs chat n_runs 0 max_retries))
        ≤ 100 * count_naming s (results_of (do_runs chat n_runs 0 max_retries)))
unfolding self_consistency_vote
self_consistency_vote-source too_uncertain chat n_runs min_agree max_retries r h two =
    let rs = results_of (do_runs chat n_runs 0 max_retries) in
    share_of_decided too_uncertain min_agree rs r (count_votes rs []) refl h two

occurrences-named_one :
    (s : Text) (o : Option Text)
    → (occurrences s (named o []) ≤ 1) × (occurrences s (named o []) ≡ 1 → o ≡ some s)
unfolding text_dec
occurrences-named_one s none = (omega arith, λ h. absurd (omega arith))
occurrences-named_one s (some t) = ground arith

count_naming-le : (s : Text) (rs : List RunResult) → count_naming s rs ≤ length rs
unfolding count_naming
count_naming-le s [] = omega arith
count_naming-le s (r ∷ rs) = omega (
  arith,
  occurrences-named s r.src_ip (src_ips rs),
  (occurrences-named_one s r.src_ip).0,
  count_naming-le s rs,
)

All-naming :
    (s : Text) (rs : List RunResult)
    → length rs ≤ count_naming s rs
    → All (λ (r : RunResult). r.src_ip ≡ some s) rs
unfolding count_naming
All-naming s [] h = tt
All-naming s (r ∷ rs) h =
    let one = occurrences-named_one s r.src_ip in
    let split = occurrences-named s r.src_ip (src_ips rs) in
    let rest = count_naming-le s rs in
    (one.1 (omega (arith, one.0, split, rest)), All-naming s rs (omega (arith, one.0, split, rest)))

-- If a vote with two or three answers gives one, all of them name the same source.
pub self_consistency_vote-same_source :
    (too_uncertain : List ℕ → Bool) (chat : ℕ → ℕ → Reply) (n_runs min_agree max_retries : ℕ)
    (r : RunResult)
    → self_consistency_vote too_uncertain chat n_runs min_agree max_retries ≡ some r
    → 2 ≤ length (results_of (do_runs chat n_runs 0 max_retries))
    → length (results_of (do_runs chat n_runs 0 max_retries)) ≤ 3
    → (s : Text) × All
        (λ (x : RunResult). x.src_ip ≡ some s)
        (results_of (do_runs chat n_runs 0 max_retries))
self_consistency_vote-same_source too_uncertain chat n_runs min_agree max_retries r h two three =
    let rs = results_of (do_runs chat n_runs 0 max_retries) in
    let share =
      self_consistency_vote-source too_uncertain chat n_runs min_agree max_retries r h two in
    (share.0, All-naming share.0 rs (omega (arith, share.1, two, three)))
