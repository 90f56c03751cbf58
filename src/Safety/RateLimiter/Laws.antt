-- ===== src/Safety/RateLimiter/Laws.antt =====
-- What one call does to the windows.
use s_com_control_plane.Base.{
  Option, Text, [], arith, if◌then◌else◌, none, refl, some, text_eq, ℕ, ◌*◌, ◌++◌, ◌∷◌, ◌≟◌, ◌≡◌,
}
use s_com_control_plane.Base.Dict.{lookup-insert}
use s_com_control_plane.Safety.CircuitBreaker.{second}
use s_com_control_plane.Safety.RateLimiter.{
  RateLimiter, evict, stamps, evicted, consume, LimitError, settle,
}

pub stamps-evicted :
    (r : RateLimiter) (ip j : Text) (now : ℕ)
    → stamps (evicted r ip now) j
      ≡ (if j ≟ ip then evict now (r.limits.per_ip_window * second) (stamps r ip) else stamps r j)
unfolding evicted
stamps-evicted r ip j now = rw (stamps, lookup-insert) (ground arith)

pub stamps-consume :
    (r : RateLimiter) (ip j : Text) (now : ℕ)
    → stamps (consume r ip now) j ≡ (if j ≟ ip then stamps r ip ++ now ∷ [] else stamps r j)
unfolding consume
stamps-consume r ip j now = rw (stamps, lookup-insert) (ground arith)

pub settle-result :
    (e : Option LimitError) (r : RateLimiter) (ip : Text) (now : ℕ) → (settle e r ip now).1 ≡ e
settle-result (some e) r ip now = refl
settle-result none r ip now = refl
