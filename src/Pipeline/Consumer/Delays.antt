-- ===== src/Pipeline/Consumer/Delays.antt =====
-- The delays between two connections.
use s_com_control_plane.Base.{
  All, Bool, List, [], ap, arith, false, min, refl, true, ℕ, ◌*◌, ◌+◌, ◌^◌, ◌∙◌, ◌∷◌, ◌≡◌, ◌≤◌,
}
use native.Mathlib.Nat.{one-le-pow, pow-suc}
use s_com_control_plane.Pipeline.Consumer.{sleeps, run_loop}

-- The delays by their number: `k` counts the exceptions since the start, or since the last
-- connection that the server ended, and that connection too.
abbrev pub backoff : (base longest k : ℕ) → List Bool → List ℕ
backoff base longest k [] = []
backoff base longest k (true ∷ rest) =
    min (base * 2 ^ k) longest ∷ backoff base longest (k + 1) rest
backoff base longest k (false ∷ rest) = base ∷ backoff base longest 1 rest

times_two : (base k : ℕ) → base * 2 ^ (k + 1) ≡ base * 2 ^ k * 2
times_two base k =
    let e : 2 ^ (k + 1) ≡ 2 ^ k * 2 = ap (λ n. 2 ^ n) (omega arith) ∙ pow-suc 2 k in
    omega (arith, ap (λ (t : ℕ). base * t) e)

double :
    (base longest k : ℕ)
    → min (min (base * 2 ^ k) longest * 2) longest ≡ min (base * 2 ^ (k + 1)) longest
double base longest k = ground (arith, times_two base k)

sleeps-backoff :
    (base longest k : ℕ) (ends : List Bool) (delay : ℕ)
    → delay ≡ min (base * 2 ^ k) longest
    → base ≤ longest
    → sleeps base longest delay ends ≡ backoff base longest k ends
unfolding sleeps
sleeps-backoff base longest k [] delay e h = refl
sleeps-backoff base longest k (true ∷ ends) delay e h =
    let next : min (delay * 2) longest ≡ min (base * 2 ^ (k + 1)) longest =
      ap (λ d. min (d * 2) longest) e ∙ double base longest k in
    rw (e) (
      ap (◌∷◌ (min (base * 2 ^ k) longest))
        (sleeps-backoff base longest (k + 1) ends _ (double base longest k) h))
sleeps-backoff base longest k (false ∷ ends) delay e h =
    ap (◌∷◌ base) (sleeps-backoff base longest 1 ends (min (base * 2) longest) (omega arith) h)

backoff-within :
    (base longest k : ℕ) (ends : List Bool)
    → base ≤ longest
    → All (λ d. (base ≤ d) × (d ≤ longest)) (backoff base longest k ends)
backoff-within base longest k [] h = tt
backoff-within base longest k (true ∷ ends) h =
    let some_rounds : base ≤ base * 2 ^ k = grind (arith, one-le-pow k 2) in
    (ground arith, backoff-within base longest (k + 1) ends h)
backoff-within base longest k (false ∷ ends) h =
    ((omega arith, h), backoff-within base longest 1 ends h)

-- With a base delay not over the longest, the delay after an exception is the base doubled for each
-- exception in a row before it, and once for a clean end before those, up to the longest; after a
-- clean end it is the base. None is shorter than the base or longer than the longest.
pub run_loop-backoff :
    (base longest : ℕ) (ends : List Bool)
    → base ≤ longest
    → (run_loop base longest ends ≡ backoff base longest 0 ends)
      × All (λ d. (base ≤ d) × (d ≤ longest)) (run_loop base longest ends)
unfolding run_loop
run_loop-backoff base longest ends h =
    let same = sleeps-backoff base longest 0 ends base (ground arith) h in
    (same, rw same (backoff-within base longest 0 ends h))
