-- ===== src/Safety/RateLimiter/Window.antt =====
-- The windows of the limiter: eviction against a count of what is recent.
use s_com_control_plane.Base.{Bool, List, [], arith, keep, leb, refl, ℕ, ◌++◌, ◌+◌, ◌∷◌, ◌≡◌, ◌≤◌}
use s_com_control_plane.Safety.RateLimiter.{evict}

abbrev pub recent : ℕ → ℕ → ℕ → Bool
recent now age t = leb now (t + age)

-- The instants ascend, between `lo` and `hi`.
abbrev pub Ascends : ℕ → ℕ → List ℕ → Type 0
Ascends lo hi [] = lo ≤ hi
Ascends lo hi (t ∷ ts) = (lo ≤ t) × Ascends t hi ts

pub Ascends-weaken :
    (lo lo' hi hi' : ℕ) (ts : List ℕ) → lo' ≤ lo → hi ≤ hi' → Ascends lo hi ts → Ascends lo' hi' ts
Ascends-weaken lo lo' hi hi' [] p q h = omega arith
Ascends-weaken lo lo' hi hi' (t ∷ ts) p q h =
    (omega arith, Ascends-weaken t t hi hi' ts (omega arith) q h.1)

pub Ascends-snoc :
    (lo hi now : ℕ) (ts : List ℕ) → hi ≤ now → Ascends lo hi ts → Ascends lo now (ts ++ now ∷ [])
Ascends-snoc lo hi now [] p h = (omega arith, omega arith)
Ascends-snoc lo hi now (t ∷ ts) p h = (h.0, Ascends-snoc t hi now ts p h.1)

-- A later eviction makes an earlier one redundant.
pub evict-evict :
    (now now' age : ℕ) (ts : List ℕ)
    → now ≤ now'
    → evict now' age (evict now age ts) ≡ evict now' age ts
evict-evict now now' age [] h = refl
evict-evict now now' age (t ∷ ts) h = ground (arith, evict-evict now now' age ts h)

pub evict-snoc :
    (now age : ℕ) (ts : List ℕ) → evict now age (ts ++ now ∷ []) ≡ evict now age ts ++ now ∷ []
evict-snoc now age [] = ground arith
evict-snoc now age (t ∷ ts) = ground (arith, evict-snoc now age ts)

keep-recent :
    (now age lo hi : ℕ) (ts : List ℕ)
    → now ≤ lo + age
    → Ascends lo hi ts
    → keep (recent now age) ts ≡ ts
keep-recent now age lo hi [] p h = refl
keep-recent now age lo hi (t ∷ ts) p h = ground (arith, keep-recent now age t hi ts)

-- On ascending instants, what eviction leaves is what is recent.
pub evict-eq-keep :
    (now age lo hi : ℕ) (ts : List ℕ)
    → Ascends lo hi ts
    → evict now age ts ≡ keep (recent now age) ts
evict-eq-keep now age lo hi [] h = refl
evict-eq-keep now age lo hi (t ∷ ts) h =
    ground (arith, evict-eq-keep now age t hi ts h.1, keep-recent now age t hi ts)
