-- ===== src/Safety/RateLimiter/Runs/Step.antt =====
-- One call, in step with the history.

use s_com_control_plane.Base.{
  Bool-cases, List, Option, Text, [], ap, arith, before, eq_of_≟, if◌then◌else◌, inl, inr, keep,
  length, length-append, none, refl, some, subst, text_eq, ℕ, ≟-refl, ≟-sym, ◌*◌, ◌++◌, ◌∙◌, ◌∷◌,
  ◌≟◌, ◌≡◌, ◌≤◌,
}
use s_com_control_plane.Safety.CircuitBreaker.{second}
use s_com_control_plane.Safety.RateLimiter.{
  RateLimiter, Limits, LimitError, evict, stamps, evicted, consume, check, check_and_consume, new,
  verdict, settle,
}
use s_com_control_plane.Safety.RateLimiter.Window.{
  recent, Ascends, Ascends-weaken, Ascends-snoc, evict-evict, evict-snoc, evict-eq-keep,
}
use s_com_control_plane.Safety.RateLimiter.Laws.{stamps-evicted, settle-result, stamps-consume}

-- A slot that was taken: by which address, and when.
pub record Grant : Type 0 where
  pub ip : Text
  pub at : ℕ

abbrev pub times : List Grant → List ℕ
times [] = []
times (g ∷ h) = g.at ∷ times h

abbrev pub of_address : Text → List Grant → List Grant
of_address ip = keep (λ g. g.ip ≟ ip)

abbrev pub minute_age : ℕ
minute_age = 60 * second

abbrev pub address_age : Limits → ℕ
address_age l = l.per_ip_window * second

-- How many instants are at most `age` old.
abbrev pub count_recent : ℕ → ℕ → List ℕ → ℕ
count_recent now age ts = length (keep (recent now age) ts)

unfoldable pub spec_check : Limits → List Grant → Text → ℕ → Option LimitError
spec_check l h ip now =
    verdict l ip (count_recent now minute_age (times h)) (length h)
      (count_recent now (address_age l) (times (of_address ip h)))

abbrev pub granted : Option LimitError → Text → ℕ → List Grant → List Grant
granted (some e) ip now h = h
granted none ip now h = h ++ (record { ip = ip; at = now }) ∷ []

abbrev Tracks : ℕ → ℕ → List ℕ → List ℕ → Type 0
Tracks now age window ts = (t : ℕ) × (t ≤ now) × (window ≡ evict t age ts)

pub record Inv (l : Limits) (r : RateLimiter) (h : List Grant) (now : ℕ) : Type 0 where
  pub limits_kept : r.limits ≡ l
  pub ordered : Ascends 0 now (times h)
  pub minute : Tracks now minute_age r.minute_window (times h)
  pub address : (ip : Text) → Tracks now (address_age l) (stamps r ip) (times (of_address ip h))
  pub total : r.total_count ≡ length h

pub Inv-new : (l : Limits) → Inv l (new l) [] 0
unfolding new stamps
Inv-new l = record {
  limits_kept = refl;
  ordered = omega arith;
  minute = (0, omega arith, refl);
  address = λ ip. (0, omega arith, refl);
  total = refl;
}

pub times-append : (h h' : List Grant) → times (h ++ h') ≡ times h ++ times h'
times-append [] h' = refl
times-append (g ∷ h) h' = ap (◌∷◌ g.at) (times-append h h')

pub of_address-snoc :
    (j ip : Text) (now : ℕ) (h : List Grant)
    → times (of_address j (h ++ (record { ip = ip; at = now }) ∷ []))
      ≡ (if ip ≟ j then times (of_address j h) ++ now ∷ [] else times (of_address j h))
of_address-snoc j ip now [] = ground arith
of_address-snoc j ip now (g ∷ h) = ground (arith, of_address-snoc j ip now h)

Ascends-drop : (lo hi t : ℕ) (ts : List ℕ) → lo ≤ t → Ascends t hi ts → Ascends lo hi ts
Ascends-drop lo hi t ts p = Ascends-weaken t lo hi hi ts p (omega arith)

pub Ascends-of_address :
    (ip : Text) (lo hi : ℕ) (h : List Grant)
    → Ascends lo hi (times h)
    → Ascends lo hi (times (of_address ip h))
Ascends-of_address ip lo hi [] a = a
Ascends-of_address ip lo hi (g ∷ h) a =
    let rest = Ascends-of_address ip g.at hi h a.1 in
    elim (Bool-cases (g.ip ≟ ip)) [
      | inl same ↦ rw same (a.0, rest)
      | inr other ↦ rw other (Ascends-drop lo hi g.at _ a.0 rest)
    ]

Tracks-evict :
    (t now age : ℕ) (window ts : List ℕ)
    → Tracks t age window ts
    → t ≤ now
    → evict now age window ≡ evict now age ts
Tracks-evict t now age window ts (t', p, e) q = rw e (evict-evict t' now age ts (omega arith))

module _ (l : Limits) (r : RateLimiter) (h : List Grant) (now : ℕ) (src_ip : Text) (at : ℕ)
    (inv : Inv l r h now) (later : now ≤ at) where
  abbrev ip : Text
  ip = before b'/' src_ip

  abbrev r' : RateLimiter
  r' = evicted r ip at

  minute_evicted : r'.minute_window ≡ evict at minute_age (times h)
  unfolding evicted
  minute_evicted = Tracks-evict now at minute_age _ _ inv.minute later

  age_kept : r.limits.per_ip_window * second ≡ address_age l
  age_kept = ap (λ (x : Limits). x.per_ip_window * second) inv.limits_kept

  address_evicted :
      evict at (r.limits.per_ip_window * second) (stamps r ip)
      ≡ evict at (address_age l) (times (of_address ip h))
  address_evicted = rw age_kept (Tracks-evict now at (address_age l) _ _ (inv.address ip) later)

  own_stamps : stamps r' ip ≡ evict at (address_age l) (times (of_address ip h))
  own_stamps = stamps-evicted r ip ip at ∙ rw ≟-refl address_evicted

  stamps_kept : (j : Text) → Tracks at (address_age l) (stamps r' j) (times (of_address j h))
  stamps_kept j =
      let (t, p, e) = inv.address j in
      elim (Bool-cases (j ≟ ip)) [
        | inl same ↦ rw (eq_of_≟ j ip same) (at, omega arith, own_stamps)
        | inr other ↦ (t, omega arith, stamps-evicted r ip j at ∙ rw other e)
      ]

  limits_evicted : r'.limits ≡ l
  unfolding evicted
  limits_evicted = inv.limits_kept

  total_evicted : r'.total_count ≡ length h
  unfolding evicted
  total_evicted = inv.total

  ordered_later : Ascends 0 at (times h)
  ordered_later = Ascends-weaken 0 0 now at (times h) (omega arith) later inv.ordered

  Inv-evicted : Inv l r' h at
  Inv-evicted = record {
    limits_kept = limits_evicted;
    ordered = ordered_later;
    minute = (at, omega arith, minute_evicted);
    address = stamps_kept;
    total = total_evicted;
  }

  pushed_count : length r'.minute_window ≡ count_recent at minute_age (times h)
  pushed_count =
      ap length (minute_evicted ∙ evict-eq-keep at minute_age 0 now (times h) inv.ordered)

  rules_count : length (stamps r' ip) ≡ count_recent at (address_age l) (times (of_address ip h))
  rules_count = ap length (
      own_stamps
      ∙ evict-eq-keep at (address_age l) 0 now (times (of_address ip h))
          (Ascends-of_address ip 0 now h inv.ordered))

  check_spec : check r' ip ≡ spec_check l h ip at
  unfolding check spec_check
  check_spec = cc (limits_evicted, pushed_count, total_evicted, rules_count)

  pub step_result : (check_and_consume r src_ip at).1 ≡ spec_check l h ip at
  unfolding check_and_consume
  step_result = settle-result (check r' ip) r' ip at ∙ check_spec

  own_consumed :
      stamps (consume r' ip at) ip
      ≡ evict at (address_age l) (times (of_address ip (granted none ip at h)))
  own_consumed =
      rw (stamps-consume, of_address-snoc, ≟-refl, evict-snoc) (ap (λ ts. ts ++ at ∷ []) own_stamps)

  stamps_consumed :
      (j : Text)
      → Tracks at
          (address_age l)
          (stamps (consume r' ip at) j)
          (times (of_address j (granted none ip at h)))
  stamps_consumed j =
      let (t, p, e) = stamps_kept j in
      elim (Bool-cases (j ≟ ip)) [
        | inl same ↦ rw (eq_of_≟ j ip same) (at, omega arith, own_consumed)
        | inr other ↦ (t, omega arith, rw (stamps-consume, of_address-snoc, ≟-sym ip j, other) e)
      ]

  Inv-consumed : Inv l (consume r' ip at) (granted none ip at h) at
  Inv-consumed = record {
    limits_kept = unfold consume in limits_evicted;
    ordered = rw times-append (Ascends-snoc 0 at at (times h) (omega arith) ordered_later);
    minute = (
      at,
      omega arith,
      unfold consume in rw (times-append, evict-snoc) (ap (λ ts. ts ++ at ∷ []) minute_evicted),
    );
    address = stamps_consumed;
    total =
        unfold consume in
        omega (arith, total_evicted, length-append h (record { ip = ip; at = at } ∷ []));
  }

  settle-Inv : (e : Option LimitError) → Inv l (settle e r' ip at).0 (granted e ip at h) at
  settle-Inv (some e) = Inv-evicted
  settle-Inv none = Inv-consumed

  pub step-Inv : Inv l (check_and_consume r src_ip at).0 (granted (spec_check l h ip at) ip at h) at
  unfolding check_and_consume
  step-Inv =
      subst (λ e. Inv l (settle (check r' ip) r' ip at).0 (granted e ip at h) at) check_spec
        (settle-Inv (check r' ip))
