-- ===== src/Agent/Consistency/Runs.antt =====
-- The calls of the LLM that a vote makes.
use s_com_control_plane.Base.{
  List, Option, Text, [], ap, arith, inl, inr, is_some, length, min, none, refl, some, suc, sym,
  true, zero, ℕ, ◌+◌, ◌<◌, ◌∙◌, ◌∷◌, ◌≡◌, ◌≢◌, ◌≤◌, ◌⊎◌,
}
use s_com_control_plane.Agent.Consistency.{
  Reply, Run, RunResult, answers, add_result, attempt_run, do_runs, fails, results_of,
}

length-add_some :
    (o : Option RunResult) (rs : List RunResult)
    → is_some o ≡ true
    → length (add_result o rs) ≡ suc (length rs)
length-add_some none rs h = cc
length-add_some (some r) rs h = refl

Reply-cases : (x : Reply) → ((e : Text) × (x ≡ fails e)) ⊎ ((r : RunResult) × (x ≡ answers r))
Reply-cases (fails e) = inl (e, refl)
Reply-cases (answers r) = inr (r, refl)

fails-ne-answers : (e : Text) (r : RunResult) → fails e ≢ answers r
fails-ne-answers e r h = cc

-- The failures before the first answer, and that answer.
abbrev pub leading_failures : List Reply → ℕ
leading_failures [] = 0
leading_failures (fails e ∷ rs) = suc (leading_failures rs)
leading_failures (answers r ∷ rs) = 0

abbrev pub first_answer : List Reply → Option RunResult
first_answer [] = none
first_answer (fails e ∷ rs) = first_answer rs
first_answer (answers r ∷ rs) = some r

module _ (chat : ℕ → ℕ → Reply) where
  -- The replies to the attempts of a run.
  abbrev pub replies : ℕ → ℕ → ℕ → List Reply
  replies run zero at = []
  replies run (suc left) at = chat run at ∷ replies run left (at + 1)

  attempt_run-attempts :
      (run left at : ℕ)
      → (attempt_run chat run left at).attempts
        ≡ min left (suc (leading_failures (replies run left at)))
  unfolding attempt_run
  attempt_run-attempts run zero at = omega arith
  attempt_run-attempts run (suc left) at = elim (Reply-cases (chat run at)) [
    | inr found ↦ rw (attempt_run, found.1) (omega arith)
    | inl failed ↦
        rw (attempt_run, failed.1) (omega (arith, attempt_run-attempts run left (at + 1)))
  ]

  attempt_run-result :
      (run left at : ℕ) → (attempt_run chat run left at).result ≡ first_answer (replies run left at)
  unfolding attempt_run
  attempt_run-result run zero at = refl
  attempt_run-result run (suc left) at = elim (Reply-cases (chat run at)) [
    | inr found ↦ rw (attempt_run, found.1) refl
    | inl failed ↦ rw (attempt_run, failed.1) (attempt_run-result run left (at + 1))
  ]

  -- A run of up to `allowed` attempts: it has the first answer, if there is one, and has made an
  -- attempt for each failure before it and one for the answer, or all of them.
  abbrev pub IsRun : ℕ → ℕ → Run → Type 0
  IsRun allowed run r =
      (r.result ≡ first_answer (replies run allowed 0))
      × (r.attempts ≡ min allowed (suc (leading_failures (replies run allowed 0))))

  abbrev pub AreRuns : ℕ → ℕ → List Run → Type 0
  AreRuns allowed run [] = Unit
  AreRuns allowed run (r ∷ rs) = IsRun allowed run r × AreRuns allowed (run + 1) rs

  -- A vote makes `n` runs, however the LLM replies. Each of them ends with the first answer among the
  -- replies to one attempt and the retries, after an attempt for each failure before and one for the
  -- answer; if none of them is an answer, it makes them all and has none.
  pub do_runs-AreRuns :
      (n run max_retries : ℕ)
      → AreRuns (max_retries + 1) run (do_runs chat n run max_retries)
        × (length (do_runs chat n run max_retries) ≡ n)
  unfolding do_runs
  do_runs-AreRuns zero run max_retries = (tt, refl)
  do_runs-AreRuns (suc n) run max_retries =
      let rest = do_runs-AreRuns n (run + 1) max_retries in
      (
        (
          (
            attempt_run-result run (max_retries + 1) 0,
            attempt_run-attempts run (max_retries + 1) 0,
          ),
          rest.0,
        ),
        ap suc rest.1,
      )

  -- An attempt that answers, before the attempts are used up.
  some-attempt_run :
      (run left at good : ℕ) (r : RunResult)
      → at ≤ good
      → good < at + left
      → chat run good ≡ answers r
      → is_some (attempt_run chat run left at).result ≡ true
  unfolding attempt_run
  some-attempt_run run zero at good r lo hi h = absurd (omega arith)
  some-attempt_run run (suc left) at good r lo hi h = elim (Reply-cases (chat run at)) [
    | inr found ↦ rw (attempt_run, found.1) refl
    | inl failed ↦
        let later : at ≢ good =
          λ e. fails-ne-answers failed.0 r (sym failed.1 ∙ (ap (chat run) e ∙ h)) in
        rw (attempt_run, failed.1)
          (some-attempt_run run left (at + 1) good r (omega arith) (omega arith) h)
  ]

  -- If in each run some attempt within the retries answers, each run gives an answer.
  length-results_of :
      (n run max_retries : ℕ) (good : ℕ → ℕ) (reply : ℕ → RunResult)
      → ((i : ℕ) → good i ≤ max_retries)
      → ((i : ℕ) → chat i (good i) ≡ answers (reply i))
      → length (results_of (do_runs chat n run max_retries)) ≡ n
  unfolding do_runs results_of
  length-results_of zero run max_retries good reply within h = refl
  length-results_of (suc n) run max_retries good reply within h =
      length-add_some (attempt_run chat run (max_retries + 1) 0).result
        (results_of (do_runs chat n (run + 1) max_retries))
        (some-attempt_run run (max_retries + 1) 0 (good run) (reply run) (omega arith)
          (omega (arith, within run)) (h run))
      ∙ ap suc (length-results_of n (run + 1) max_retries good reply within h)
