-- ===== src/Agent/Consistency/Tally.antt =====
-- What the counters of a vote count, and what the votes hold.
use s_com_control_plane.Base.{
  All, Bool-cases, List, Option, Text, [], arith, inl, inr, leb, length, map, none, or_else, some,
  sum, text_dec, text_eq, ℕ, ≟-refl, ◌++◌, ◌+◌, ◌∷◌, ◌≟◌, ◌≡◌, ◌≤◌,
}
use s_com_control_plane.Base.Dict.{
  Dict, All-insert, All-lookup, IfSome, lookup, insert, occurrences, values,
}
use s_com_control_plane.Agent.Consistency.{
  RunResult, Votes, action_of, add_vote, all_results, count_votes, counter, maximum, named, src_ips,
  votes_for,
}

-- No count is above how often the text stands in the list.
abbrev pub Counts : List Text → Dict Text ℕ → Type 0
unfolding text_dec
Counts xs d = All (λ (e : Text × ℕ). e.1 ≤ occurrences e.0 xs) d

Counts-more : (x : Text) (xs : List Text) (d : Dict Text ℕ) → Counts xs d → Counts (x ∷ xs) d
unfolding Counts text_dec
Counts-more x xs [] h = tt
Counts-more x xs ((k, n) ∷ d) h = (ground (arith, h.0), Counts-more x xs d h.1)

Counts-weaken :
    (xs ys : List Text) (d : Dict Text ℕ)
    → ((k : Text) → occurrences k xs ≤ occurrences k ys)
    → Counts xs d
    → Counts ys d
unfolding Counts
Counts-weaken xs ys [] le h = tt
Counts-weaken xs ys ((k, n) ∷ d) le h = (omega (arith, h.0, le k), Counts-weaken xs ys d le h.1)

counted-le :
    (k : Text) (xs : List Text) (o : Option ℕ)
    → IfSome (λ n. n ≤ occurrences k xs) o
    → or_else o 0 ≤ occurrences k xs
counted-le k xs none h = omega arith
counted-le k xs (some n) h = h

pub counter-Counts :
    (xs seen ys : List Text) (d : Dict Text ℕ)
    → ((k : Text) → occurrences k seen + occurrences k xs ≤ occurrences k ys)
    → Counts seen d
    → Counts ys (counter xs d)
unfolding counter Counts text_dec
counter-Counts [] seen ys d le h = Counts-weaken seen ys d (λ k. omega (arith, le k)) h
counter-Counts (x ∷ xs) seen ys d le h =
    counter-Counts xs (x ∷ seen) ys (insert x (or_else (lookup x d) 0 + 1) d)
      (λ k. ground (arith, le k))
      (All-insert (λ (k : Text) (n : ℕ). n ≤ occurrences k (x ∷ seen)) x
        (or_else (lookup x d) 0 + 1) d (Counts-more x seen d h)
        (rw (≟-refl x) (
          omega (
            arith,
            counted-le x seen (lookup x d)
                (All-lookup (λ (k : Text) (n : ℕ). n ≤ occurrences k seen) x d h),
          ))))

-- A text that stands as often as the greatest count says.
pub most_common :
    (ys : List Text) (d : Dict Text ℕ)
    → Counts ys d
    → (k : Text) × (maximum (values d) ≤ occurrences k ys)
unfolding Counts
most_common ys [] h = ([], omega arith)
most_common ys ((k, n) ∷ d) h = elim (Bool-cases (leb (maximum (values d)) n)) [
  | inl t ↦ (k, ground (arith, h.0))
  | inr f ↦ let m = most_common ys d h.1 in (m.0, ground (arith, m.1))
]

module _ (g : RunResult → ℕ) where
  abbrev pub total : List RunResult → ℕ
  total rs = sum (map g rs)

  total-append : (xs ys : List RunResult) → total (xs ++ ys) ≡ total xs + total ys
  total-append [] ys = omega arith
  total-append (x ∷ xs) ys = omega (arith, total-append xs ys)

  total-insert :
      (a : Text) (w : List RunResult) (d : Votes)
      → total (all_results (insert a w d)) + total (votes_for a d) ≡ total (all_results d) + total w
  unfolding votes_for
  total-insert a w [] = omega (arith, total-append w [])
  total-insert a w ((k, v) ∷ d) = elim (Bool-cases (a ≟ k)) [
    | inl same ↦
        rw same (omega (arith, total-append w (all_results d), total-append v (all_results d)))
    | inr other ↦ rw other (
        omega (
          arith,
          total-insert a w d,
          total-append v (all_results d),
          total-append v (all_results (insert a w d)),
        ))
  ]

  -- The votes hold what the answers hold.
  pub total-count_votes :
      (rs : List RunResult) (d : Votes)
      → total (all_results (count_votes rs d)) ≡ total (all_results d) + total rs
  unfolding count_votes add_vote
  total-count_votes [] d = omega arith
  total-count_votes (r ∷ rs) d = omega (
    arith,
    total-count_votes rs (add_vote r d),
    total-insert (action_of r) (votes_for (action_of r) d ++ (r ∷ [])) d,
    total-append (votes_for (action_of r) d) (r ∷ []),
  )

abbrev pub names : Text → RunResult → ℕ
unfolding text_dec
names s r = occurrences s (named r.src_ip [])

pub occurrences-named :
    (s : Text) (o : Option Text) (xs : List Text)
    → occurrences s (named o xs) ≡ occurrences s (named o []) + occurrences s xs
unfolding text_dec
occurrences-named s none xs = omega arith
occurrences-named s (some t) xs = ground arith

pub total-names : (s : Text) (rs : List RunResult) → occurrences s (src_ips rs) ≡ total (names s) rs
unfolding names
total-names s [] = omega arith
total-names s (r ∷ rs) = omega (arith, occurrences-named s r.src_ip (src_ips rs), total-names s rs)

pub total_ones : (rs : List RunResult) → length rs ≡ total (λ r. 1) rs
total_ones [] = omega arith
total_ones (r ∷ rs) = omega (arith, total_ones rs)
