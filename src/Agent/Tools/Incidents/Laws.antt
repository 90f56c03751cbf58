-- ===== src/Agent/Tools/Incidents/Laws.antt =====
-- What the look-up of past decisions tells the LLM.
use s_com_control_plane.Base.{
  Bool, List, Option, Text, [], ap, arith, false, if◌then◌else◌, keep, length, none, refl, some,
  subst, suc, sum, true, zero, ℕ, ◌+◌, ◌<◌, ◌==◌, ◌∙◌, ◌∷◌, ◌≡◌, ◌≤◌,
}
use s_com_control_plane.Base.Dict.{Dict, values}
use s_com_control_plane.Base.Slices.{take}
use s_com_control_plane.Agent.Tools.Incidents.{
  Decision, ExactMatch, Found, Incidents, empty_window, nothing_similar, similar, unavailable,
  errored, bump, tally, no_exact, in_window, same_sid, summary, exact_sid_match, merged, Failures,
  unless, gathered, find_similar_past_incidents, found_of,
}

sum-bump : (k : Text) (t : Dict Text ℕ) → sum (values (bump k t)) ≡ suc (sum (values t))
unfolding bump
sum-bump k [] = omega arith
sum-bump k ((j, n) ∷ t) = ground (arith, sum-bump k t)

sum-tally : (ds : List Decision) → sum (values (tally ds)) ≡ length ds
unfolding tally
sum-tally [] = refl
sum-tally (d ∷ ds) = sum-bump d.outcome (tally ds) ∙ ap suc (sum-tally ds)

take-le : {A : Type 0} (n : ℕ) (xs : List A) → length (take n xs) ≤ n
take-le zero xs = omega arith
take-le (suc n) [] = omega arith
take-le (suc n) (x ∷ xs) = omega (arith, take-le n xs)

-- A total of counts.
abbrev pub AddsUp : ExactMatch → Type 0
AddsUp e = sum (values e.outcome_breakdown) ≡ e.match_count

-- What an answer that shows past decisions keeps to.
abbrev pub IsConsistent : {M : Type 0} → ℕ → Found M → Type 0
IsConsistent limit r =
    (sum (values r.outcome_breakdown) ≡ r.match_count)
    × (0 < r.match_count + r.semantic_match_count + r.mitre_match_count)
    × (length r.semantic_matches ≤ limit)
    × (length r.mitre_matches ≤ limit)

similar-only :
    {M : Type 0} (b : Bool) (x r : Found M)
    → (if b then nothing_similar else similar x) ≡ similar r
    → (b ≡ false) × (x ≡ r)
similar-only true x r h = cc
similar-only false x r h = (refl, cc)

merged-IsConsistent :
    {M : Type 0} (limit : ℕ) (technique : Text) (e : ExactMatch) (s : List M) (m : List Decision)
    (r : Found M)
    → AddsUp e
    → merged limit technique e s m ≡ similar r
    → IsConsistent limit r
unfolding merged found_of
merged-IsConsistent limit technique e s m r adds h =
    let k = similar-only _ (found_of limit technique e s m) r h in
    subst (IsConsistent limit) k.1 (adds, some_found k.0, take-le limit s, take-le limit m)
  where
    some_found :
        (e.match_count + length s + length m == 0) ≡ false → 0 < e.match_count + length s + length m
    some_found h = ground arith

module _ (newest_first : List Decision → List Decision) (cutoff limit sid : ℕ) where
  summary-AddsUp : (ds : List Decision) → AddsUp (summary newest_first cutoff limit sid ds)
  unfolding summary
  summary-AddsUp [] = refl
  summary-AddsUp (d ∷ ds) = sum-tally (d ∷ ds)

  unless-AddsUp :
      (b : Bool) (ds : List Decision)
      → AddsUp (unless b (exact_sid_match newest_first cutoff limit sid ds) no_exact)
  unfolding exact_sid_match
  unless-AddsUp true ds = refl
  unless-AddsUp false ds = summary-AddsUp (keep (same_sid newest_first cutoff limit sid) ds)

-- The answer without its note, by which alone the two that found nothing differ.
abbrev pub without_note : {M : Type 0} → Incidents M → Incidents M
without_note empty_window = nothing_similar
without_note unavailable = unavailable
without_note errored = errored
without_note nothing_similar = nothing_similar
without_note (similar r) = similar r

module _ {V : Type 0} (newest_first : List Decision → List Decision) (sha1 : Text → Text)
    (embed : Text → Option (List V)) (similarity : List V → Decision → Option ℕ)
    (nearest_first : List V → List Decision → List Decision) where
  -- What is told of past decisions is consistent, whichever of the queries fail: the outcomes add up
  -- to the exact matches, there is a match of some kind, and no list is longer than the limit.
  pub find_similar_past_incidents-IsConsistent :
      (f : Failures) (cutoff later limit sid : ℕ) (text technique : Text)
      (redis : Option (Text → Option (List V))) (stored : Option (List Decision))
      (r : Found Decision)
      → (find_similar_past_incidents newest_first sha1 embed similarity nearest_first f cutoff later
          limit sid text technique redis stored).0
        ≡ similar r
      → IsConsistent limit r
  unfolding find_similar_past_incidents gathered
  find_similar_past_incidents-IsConsistent f cutoff later limit sid text technique redis none r h =
      cc
  find_similar_past_incidents-IsConsistent f cutoff later limit sid text technique redis (some ds) r
        h =
      merged-IsConsistent limit technique _ _ _ r
        (unless-AddsUp newest_first cutoff limit sid f.exact ds)
        (counted f.counting (length (keep (in_window cutoff) ds) == 0) _ h)
    where
      counted :
          (b b' : Bool) (full : Incidents Decision × Option (Text × List V))
          → (if b then (errored, none) else if b' then (empty_window, none) else full).0 ≡ similar r
          → full.0 ≡ similar r
      counted true b' full h = cc
      counted false true full h = cc
      counted false false full h = h
