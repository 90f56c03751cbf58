-- ===== src/Agent/Consistency/Winner.antt =====
-- The answer that wins the vote.
use s_com_control_plane.Base.{
  All, Bool, Bool-cases, List, Option, Text, [], ap, arith, eq_of_≟, false, if◌then◌else◌, inl, inr,
  length, length-append, ltb, none, or_else, refl, some, subst, suc, sym, text_dec, text_eq, true,
  ℕ, ≟-refl, ◌++◌, ◌+◌, ◌∙◌, ◌∷◌, ◌≟◌, ◌≡◌, ◌≤◌,
}
use s_com_control_plane.Base.Dict.{All-insert, All-lookup, IfSome, lookup, lookup-insert}
use s_com_control_plane.Agent.Consistency.{
  Reply, RunResult, Votes, action_of, add_vote, all_results, best_from, count_votes, decide,
  do_runs, evaluate_uncertainty, last_of, results_of, self_consistency_vote, votes_for,
}

-- How many answers have an action.
abbrev pub count_of : Text → List RunResult → ℕ
unfolding text_dec
count_of a [] = 0
count_of a (r ∷ rs) = if a ≟ action_of r then suc (count_of a rs) else count_of a rs

-- All votes of an entry are for its action, and no more than there are answers with it.
abbrev IsEntry : (Text → ℕ) → Text → List RunResult → Type 0
IsEntry count a v = All (λ (r : RunResult). action_of r ≡ a) v × (length v ≤ count a)

All-append :
    (P : RunResult → Type 0) (xs : List RunResult) (y : RunResult)
    → All P xs
    → P y
    → All P (xs ++ (y ∷ []))
All-append P [] y h p = (p, tt)
All-append P (x ∷ xs) y h p = (h.0, All-append P xs y h.1 p)

-- The count after one more answer.
abbrev more : RunResult → (Text → ℕ) → Text → ℕ
unfolding text_dec
more r count a = if a ≟ action_of r then suc (count a) else count a

All-weaken :
    (count count' : Text → ℕ) (d : Votes)
    → ((a : Text) → count a ≤ count' a)
    → All (λ (e : Text × List RunResult). IsEntry count e.0 e.1) d
    → All (λ (e : Text × List RunResult). IsEntry count' e.0 e.1) d
All-weaken count count' [] le h = tt
All-weaken count count' ((a, v) ∷ d) le h =
    ((h.0.0, omega (arith, h.0.1, le a)), All-weaken count count' d le h.1)

more-le : (r : RunResult) (count : Text → ℕ) (a : Text) → count a ≤ more r count a
unfolding more
more-le r count a = ground arith

looked_up-IsEntry :
    (count : Text → ℕ) (a : Text) (o : Option (List RunResult))
    → IfSome (IsEntry count a) o
    → IsEntry count a (or_else o [])
looked_up-IsEntry count a none h = (tt, omega arith)
looked_up-IsEntry count a (some v) h = h

add_vote-IsEntry :
    (r : RunResult) (count : Text → ℕ) (d : Votes)
    → All (λ (e : Text × List RunResult). IsEntry count e.0 e.1) d
    → All (λ (e : Text × List RunResult). IsEntry (more r count) e.0 e.1) (add_vote r d)
unfolding add_vote votes_for more
add_vote-IsEntry r count d h =
    let old =
      looked_up-IsEntry count (action_of r) (lookup (action_of r) d)
        (All-lookup (IsEntry count) (action_of r) d h) in
    All-insert (IsEntry (more r count)) (action_of r) (votes_for (action_of r) d ++ (r ∷ [])) d
      (All-weaken count (more r count) d (λ a. more-le r count a) h)
      (
        All-append (λ (x : RunResult). action_of x ≡ action_of r) (votes_for (action_of r) d) r
            old.0 refl,
        rw (≟-refl (action_of r))
            (omega (arith, old.1, length-append (votes_for (action_of r) d) (r ∷ []))),
      )

more-count_of :
    (r : RunResult) (rs : List RunResult) (count : Text → ℕ) (a : Text)
    → more r count a + count_of a rs ≡ count a + count_of a (r ∷ rs)
unfolding more count_of
more-count_of r rs count a = ground arith

count_votes-IsEntry :
    (rs : List RunResult) (count count' : Text → ℕ) (d : Votes)
    → ((a : Text) → count a + count_of a rs ≤ count' a)
    → All (λ (e : Text × List RunResult). IsEntry count e.0 e.1) d
    → All (λ (e : Text × List RunResult). IsEntry count' e.0 e.1) (count_votes rs d)
unfolding count_votes count_of
count_votes-IsEntry [] count count' d le h = All-weaken count count' d (λ a. omega (arith, le a)) h
count_votes-IsEntry (r ∷ rs) count count' d le h =
    count_votes-IsEntry rs (more r count) count' (add_vote r d)
      (λ a. omega (arith, le a, more-count_of r rs count a)) (add_vote-IsEntry r count d h)

length-votes_for_add :
    (r : RunResult) (a : Text) (d : Votes)
    → length (votes_for a (add_vote r d))
      ≡ (if a ≟ action_of r then suc (length (votes_for a d)) else length (votes_for a d))
unfolding add_vote votes_for
length-votes_for_add r a d = elim (Bool-cases (a ≟ action_of r)) [
  | inr other ↦
      rw (lookup-insert a (action_of r) (or_else (lookup (action_of r) d) [] ++ (r ∷ [])) d, other)
        refl
  | inl same ↦
      rw (lookup-insert a (action_of r) (or_else (lookup (action_of r) d) [] ++ (r ∷ [])) d, same)
        (length-append (or_else (lookup (action_of r) d) []) (r ∷ [])
          ∙ (ap (λ k. length (or_else (lookup k d) []) + 1) (sym (eq_of_≟ a (action_of r) same))
              ∙ (omega arith)))
]

-- The votes for an action are as many as the answers with it.
length-votes_for :
    (rs : List RunResult) (a : Text) (d : Votes)
    → length (votes_for a (count_votes rs d)) ≡ length (votes_for a d) + count_of a rs
unfolding count_votes count_of votes_for
length-votes_for [] a d = omega arith
length-votes_for (r ∷ rs) a d =
    ground (arith, length-votes_for rs a (add_vote r d), length-votes_for_add r a d)

best_from-All :
    (P : Text × List RunResult → Type 0) (b : Text × List RunResult) (vs : Votes)
    → P b
    → All P vs
    → P (best_from b vs)
unfolding best_from
best_from-All P b [] p h = p
best_from-All P b (v ∷ vs) p h = elim (Bool-cases (ltb (length b.1) (length v.1))) [
  | inl t ↦ rw t (best_from-All P v vs h.0 h.1)
  | inr f ↦ rw f (best_from-All P b vs p h.1)
]

longer-le :
    (b v : Text × List RunResult)
    → (length b.1 ≤ length (if ltb (length b.1) (length v.1) then v else b).1)
      × (length v.1 ≤ length (if ltb (length b.1) (length v.1) then v else b).1)
longer-le b v = ground arith

best_from-IsMost :
    (b : Text × List RunResult) (vs : Votes)
    → (length b.1 ≤ length (best_from b vs).1)
      × All (λ (e : Text × List RunResult). length e.1 ≤ length (best_from b vs).1) vs
unfolding best_from
best_from-IsMost b [] = (omega arith, tt)
best_from-IsMost b (v ∷ vs) =
    let next = if ltb (length b.1) (length v.1) then v else b in
    let m = best_from-IsMost next vs in
    let p = longer-le b v in (omega (arith, p.0, m.0), (omega (arith, p.1, m.0), m.1))

last_of-All :
    (P : RunResult → Type 0) (xs : List RunResult) (r : RunResult)
    → All P xs
    → last_of xs ≡ some r
    → P r
last_of-All P [] r h e = cc
last_of-All P (x ∷ []) r h e = let same : x ≡ r = cc in subst P same h.0
last_of-All P (x ∷ y ∷ xs) r h e = last_of-All P (y ∷ xs) r h.1 e

-- An answer with enough votes, none of the actions having more.
abbrev pub IsWinner : ℕ → List RunResult → Text → RunResult → Type 0
IsWinner min_agree rs b r =
    (min_agree ≤ count_of (action_of r) rs) × (count_of b rs ≤ count_of (action_of r) rs)

count-le-best :
    (rs : List RunResult) (b : Text) (v : Text × List RunResult) (vs : Votes)
    → count_votes rs [] ≡ v ∷ vs
    → count_of b rs ≤ length (best_from v vs).1
unfolding votes_for
count-le-best rs b v vs e =
    let m = best_from-IsMost v vs in
    let n : ℕ = length (best_from v vs).1 in
    let found : IfSome (λ (x : List RunResult). length x ≤ n) (lookup b (v ∷ vs)) =
      All-lookup (λ (k : Text) (x : List RunResult). length x ≤ n) b (v ∷ vs) (m.0, m.1) in
    omega (
      arith,
      length-votes_for rs b [],
      ap (λ d. length (or_else (lookup b d) [])) e,
      length_found n (lookup b (v ∷ vs)) found,
    )
  where
    length_found :
        (n : ℕ) (o : Option (List RunResult))
        → IfSome (λ (x : List RunResult). length x ≤ n) o
        → length (or_else o []) ≤ n
    length_found n none h = omega arith
    length_found n (some x) h = h

-- The two tests of an answer that is given.
pub passed :
    (t u : Bool) (o : Option RunResult) (r : RunResult)
    → (if t then none else if u then o else none) ≡ some r
    → (t ≡ false) × (u ≡ true) × (o ≡ some r)
passed true u o r h = cc
passed false true o r h = (refl, refl, h)
passed false false o r h = cc

decide-IsWinner :
    (too_uncertain : List ℕ → Bool) (min_agree : ℕ) (rs : List RunResult) (b : Text) (r : RunResult)
    (d : Votes)
    → count_votes rs [] ≡ d
    → decide too_uncertain min_agree d ≡ some r
    → IsWinner min_agree rs b r
unfolding decide
decide-IsWinner too_uncertain min_agree rs b r [] e h = cc
decide-IsWinner too_uncertain min_agree rs b r (v ∷ vs) e h =
    let best : Text × List RunResult = best_from v vs in
    let entries : All (λ (x : Text × List RunResult). IsEntry (λ a. count_of a rs) x.0 x.1)
        (v ∷ vs) =
      subst (λ d. All (λ (x : Text × List RunResult). IsEntry (λ a. count_of a rs) x.0 x.1) d) e
        (count_votes-IsEntry rs (λ a. 0) (λ a. count_of a rs) [] (λ a. omega arith) tt) in
    let entry : IsEntry (λ a. count_of a rs) best.0 best.1 =
      best_from-All (λ x. IsEntry (λ a. count_of a rs) x.0 x.1) v vs entries.0 entries.1 in
    let p =
      passed (ltb (length best.1) min_agree)
        (evaluate_uncertainty too_uncertain (all_results (v ∷ vs))) (last_of best.1) r h in
    let enough : min_agree ≤ length best.1 = let few = p.0 in ground arith in
    let same : action_of r ≡ best.0 =
      last_of-All (λ x. action_of x ≡ best.0) best.1 r entry.0 p.2 in
    let count_same : count_of (action_of r) rs ≡ count_of best.0 rs =
      ap (λ a. count_of a rs) same in
    (
      omega (arith, enough, entry.1, count_same),
      omega (arith, count-le-best rs b v vs e, entry.1, count_same),
    )

-- If a vote gives an answer, its action has at least the required number of answers, and no action
-- has more.
pub self_consistency_vote-IsWinner :
    (too_uncertain : List ℕ → Bool) (chat : ℕ → ℕ → Reply) (n_runs min_agree max_retries : ℕ)
    (b : Text) (r : RunResult)
    → self_consistency_vote too_uncertain chat n_runs min_agree max_retries ≡ some r
    → IsWinner min_agree (results_of (do_runs chat n_runs 0 max_retries)) b r
unfolding self_consistency_vote
self_consistency_vote-IsWinner too_uncertain chat n_runs min_agree max_retries b r h =
    let rs = results_of (do_runs chat n_runs 0 max_retries) in
    decide-IsWinner too_uncertain min_agree rs b r (count_votes rs []) refl h
