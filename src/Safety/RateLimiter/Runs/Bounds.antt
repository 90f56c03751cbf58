-- ===== src/Safety/RateLimiter/Runs/Bounds.antt =====
-- The limits of layer L5 over the grants of a run of requests.
use s_com_control_plane.Base.{
  Bool-cases, List, Option, Text, [], append_assoc, append_nil, arith, before, eq_of_≟, inl, inr,
  length, length-append, none, refl, some, text_eq, ℕ, ◌++◌, ◌+◌, ◌<◌, ◌∙◌, ◌∷◌, ◌≟◌, ◌≡◌, ◌≤◌,
}
use s_com_control_plane.Safety.RateLimiter.{Limits, LimitError, verdict, new}
use s_com_control_plane.Safety.RateLimiter.Runs.{Request, Ordered, run, spec_run, run-eq-spec_run}
use s_com_control_plane.Safety.RateLimiter.Runs.Step.{
  Grant, times, of_address, minute_age, address_age, count_recent, spec_check, granted,
  times-append, of_address-snoc,
}

-- The requests that were answered with no error.
abbrev pub grants : List Request → List (Option LimitError) → List Grant
grants (q ∷ qs) (none ∷ es) = (record { ip = before b'/' q.src_ip; at = q.at }) ∷ grants qs es
grants (q ∷ qs) (some e ∷ es) = grants qs es
grants _ _ = []

abbrev pub last_time : ℕ → List Request → ℕ
last_time now [] = now
last_time now (q ∷ qs) = last_time q.at qs

pub record WithinLimits (l : Limits) (h : List Grant) (now : ℕ) : Type 0 where
  pub per_minute : count_recent now minute_age (times h) ≤ l.max_per_minute
  pub in_total : length h ≤ l.max_total
  pub per_ip :
      (ip : Text) → count_recent now (address_age l) (times (of_address ip h)) ≤ l.max_per_ip

count_recent-le :
    (now at age : ℕ) (ts : List ℕ) → now ≤ at → count_recent at age ts ≤ count_recent now age ts
count_recent-le now at age [] h = omega arith
count_recent-le now at age (t ∷ ts) h = ground (arith, count_recent-le now at age ts h)

count_recent-snoc :
    (at age : ℕ) (ts : List ℕ) → count_recent at age (ts ++ at ∷ []) ≡ count_recent at age ts + 1
count_recent-snoc at age [] = ground arith
count_recent-snoc at age (t ∷ ts) = ground (arith, count_recent-snoc at age ts)

module _ (l : Limits) (h : List Grant) (now : ℕ) (ip : Text) (at : ℕ) (w : WithinLimits l h now)
    (later : now ≤ at) where
  kept : WithinLimits l h at
  kept = record {
    per_minute = omega (arith, w.per_minute, count_recent-le now at minute_age (times h) later);
    in_total = w.in_total;
    per_ip = λ j.
        omega (
          arith,
          w.per_ip j,
          count_recent-le now at (address_age l) (times (of_address j h)) later,
        );
  }

  room :
      spec_check l h ip at ≡ none
      → (count_recent at minute_age (times h) < l.max_per_minute)
        × (length h < l.max_total)
        × (count_recent at (address_age l) (times (of_address ip h)) < l.max_per_ip)
  unfolding spec_check verdict
  room e = ground arith

  added : spec_check l h ip at ≡ none → WithinLimits l (granted none ip at h) at
  added e =
      let (minute, total, own) = room e in
      record {
        per_minute = rw (times-append, count_recent-snoc) (omega arith);
        in_total = omega (arith, length-append h (record { ip = ip; at = at } ∷ []));
        per_ip = λ j. elim (Bool-cases (ip ≟ j)) [
          | inl same ↦
              rw (of_address-snoc, same, count_recent-snoc, ← eq_of_≟ ip j same) (omega arith)
          | inr other ↦ rw (of_address-snoc, other) (kept.per_ip j)
        ];
      }

  settled :
      (e : Option LimitError) → spec_check l h ip at ≡ e → WithinLimits l (granted e ip at h) at
  settled none p = added p
  settled (some e) p = kept

-- The history at the end.
final : Limits → List Grant → List Request → List Grant
final l h [] = h
final l h (q ∷ qs) =
    let ip = before b'/' q.src_ip in final l (granted (spec_check l h ip q.at) ip q.at h) qs

final-WithinLimits :
    (l : Limits) (h : List Grant) (now : ℕ) (qs : List Request)
    → WithinLimits l h now
    → Ordered now qs
    → WithinLimits l (final l h qs) (last_time now qs)
unfolding final
final-WithinLimits l h now [] w o = w
final-WithinLimits l h now (q ∷ qs) w o =
    let ip = before b'/' q.src_ip in
    final-WithinLimits l (granted (spec_check l h ip q.at) ip q.at h) q.at qs
      (settled l h now ip q.at w o.0 (spec_check l h ip q.at) refl) o.1

grants-cons :
    (e : Option LimitError) (h : List Grant) (q : Request) (qs : List Request)
    (es : List (Option LimitError))
    → h ++ grants (q ∷ qs) (e ∷ es) ≡ granted e (before b'/' q.src_ip) q.at h ++ grants qs es
grants-cons none h q qs es = rw append_assoc
grants-cons (some e) h q qs es = refl

grants-eq-final :
    (l : Limits) (h : List Grant) (qs : List Request)
    → h ++ grants qs (spec_run l h qs) ≡ final l h qs
unfolding final spec_run
grants-eq-final l h [] = append_nil h
grants-eq-final l h (q ∷ qs) =
    let ip = before b'/' q.src_ip in
    let e = spec_check l h ip q.at in
    grants-cons e h q qs (spec_run l (granted e ip q.at h) qs)
    ∙ grants-eq-final l (granted e ip q.at h) qs

-- Whatever is asked of a new limiter, as long as the clock does not go back: after the last
-- request the grants of the last minute, all grants, and the grants to each address within its
-- window are at most the limits.
pub grants-WithinLimits :
    (l : Limits) (qs : List Request)
    → Ordered 0 qs
    → WithinLimits l (grants qs (run (new l) qs)) (last_time 0 qs)
grants-WithinLimits l qs o =
    rw (run-eq-spec_run l qs o, grants-eq-final l [] qs)
      (final-WithinLimits l [] 0 qs
        (record { per_minute = omega arith; in_total = omega arith; per_ip = λ ip. omega arith }) o)
