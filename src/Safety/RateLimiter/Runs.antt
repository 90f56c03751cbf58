-- ===== src/Safety/RateLimiter/Runs.antt =====
-- Calls in a row, against a limiter that keeps the whole history and counts.
pub mod Step
pub mod Bounds
use s_com_control_plane.Base.{List, Option, Text, [], before, refl, ℕ, ◌∷◌, ◌≡◌, ◌≤◌}
use mathlib.Core.Path.{ap₂}
use s_com_control_plane.Safety.RateLimiter.{RateLimiter, Limits, LimitError, check_and_consume, new}
use Step.{Inv, Inv-new, step_result, step-Inv}
pub use Step.{Grant, times, of_address, minute_age, address_age, count_recent, granted}
unfoldable pub use Step.{spec_check}

pub record Request : Type 0 where
  pub src_ip : Text
  pub at : ℕ

-- Every call's answer, on the limiter as it is.
unfoldable pub run : RateLimiter → List Request → List (Option LimitError)
run r [] = []
run r (q ∷ qs) = let (r', e) = check_and_consume r q.src_ip q.at in e ∷ run r' qs

-- The same, by counting in the history of what was granted.
unfoldable pub spec_run : Limits → List Grant → List Request → List (Option LimitError)
spec_run l h [] = []
spec_run l h (q ∷ qs) =
    let e = spec_check l h (before b'/' q.src_ip) q.at in
    e ∷ spec_run l (granted e (before b'/' q.src_ip) q.at h) qs

-- The clock does not go back.
abbrev pub Ordered : ℕ → List Request → Type 0
Ordered now [] = Unit
Ordered now (q ∷ qs) = (now ≤ q.at) × Ordered q.at qs

run_from :
    (l : Limits) (r : RateLimiter) (h : List Grant) (now : ℕ) (qs : List Request)
    → Inv l r h now
    → Ordered now qs
    → run r qs ≡ spec_run l h qs
unfolding run spec_run
run_from l r h now [] inv o = refl
run_from l r h now (q ∷ qs) inv o =
    let ip = before b'/' q.src_ip in
    let e = spec_check l h ip q.at in
    ap₂ ◌∷◌ (step_result l r h now q.src_ip q.at inv o.0) (
      run_from l (check_and_consume r q.src_ip q.at).0 (granted e ip q.at h) q.at qs
        (step-Inv l r h now q.src_ip q.at inv o.0) o.1)

-- Whatever the requests, as long as the clock does not go back: a new limiter gives the answers,
-- with the numbers in them, of a limiter that keeps every grant and counts those of the last
-- minute, those of the address in its window, and all of them.
pub run-eq-spec_run :
    (l : Limits) (qs : List Request) → Ordered 0 qs → run (new l) qs ≡ spec_run l [] qs
run-eq-spec_run l qs o = run_from l (new l) [] 0 qs (Inv-new l) o
