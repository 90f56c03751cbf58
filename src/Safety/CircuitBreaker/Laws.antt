-- ===== src/Safety/CircuitBreaker/Laws.antt =====
-- The circuit after any sequence of results, against a reading of that sequence.
use s_com_control_plane.Base.{
  List, Option, [], arith, if◌then◌else◌, leb, ltb, none, refl, some, ℕ, ◌*◌, ◌+◌, ◌-◌, ◌/◌, ◌<◌,
  ◌∷◌, ◌≡◌,
}
use s_com_control_plane.Safety.CircuitBreaker.{
  CircuitBreaker, OpenReason, second, new, is_open, record_success, record_failure,
}

-- The result of an enforcement; of a failure, the instant at which it was recorded.
pub data Event : Type 0 where
  success : Event
  failure : ℕ → Event

-- The events are listed newest first.
unfoldable pub replay : ℕ → ℕ → List Event → CircuitBreaker
unfolding new record_success record_failure
replay threshold halt [] = new threshold halt
replay threshold halt (success ∷ es) = record_success (replay threshold halt es)
replay threshold halt (failure t ∷ es) = record_failure (replay threshold halt es) t

-- The failures since the last success.
abbrev pub trailing : List Event → ℕ
trailing [] = 0
trailing (success ∷ es) = 0
trailing (failure t ∷ es) = trailing es + 1

-- Until when the circuit is open: for `halt` seconds after the last failure, if that and the
-- failures before it reach the threshold.
abbrev pub halted_until : ℕ → ℕ → List Event → ℕ
halted_until threshold halt [] = 0
halted_until threshold halt (success ∷ es) = 0
halted_until threshold halt (failure t ∷ es) =
    if leb threshold (trailing es + 1) then t + halt * second else 0

record Reads (threshold halt : ℕ) (b : CircuitBreaker) (es : List Event) : Type 0 where
  same_threshold : b.fail_threshold ≡ threshold
  same_halt : b.halt_seconds ≡ halt
  same_failures : b.consecutive_failures ≡ trailing es
  same_until : b.open_until ≡ halted_until threshold halt es

halted_until_below :
    (threshold halt : ℕ) (es : List Event)
    → trailing es < threshold
    → halted_until threshold halt es ≡ 0
halted_until_below threshold halt [] h = refl
halted_until_below threshold halt (success ∷ es) h = refl
halted_until_below threshold halt (failure t ∷ es) h = ground arith

failure_until :
    (threshold halt t : ℕ) (b : CircuitBreaker) (es : List Event)
    → Reads threshold halt b es
    → (record_failure b t).open_until ≡ halted_until threshold halt (failure t ∷ es)
unfolding record_failure
failure_until threshold halt t b es h = ground (
  arith,
  h.same_threshold,
  h.same_halt,
  h.same_failures,
  h.same_until,
  halted_until_below threshold halt es,
)

failure-Reads :
    (threshold halt t : ℕ) (b : CircuitBreaker) (es : List Event)
    → Reads threshold halt b es
    → Reads threshold halt (record_failure b t) (failure t ∷ es)
failure-Reads threshold halt t b es h = record {
  same_threshold = unfold record_failure in ground (arith, h.same_threshold);
  same_halt = unfold record_failure in ground (arith, h.same_halt);
  same_failures = unfold record_failure in ground (arith, h.same_failures);
  same_until = failure_until threshold halt t b es h;
}

replay-Reads :
    (threshold halt : ℕ) (es : List Event) → Reads threshold halt (replay threshold halt es) es
unfolding replay
replay-Reads threshold halt [] = record {
  same_threshold = refl;
  same_halt = refl;
  same_failures = refl;
  same_until = refl;
}
replay-Reads threshold halt (success ∷ es) =
    let h = replay-Reads threshold halt es in
    record {
      same_threshold = h.same_threshold;
      same_halt = h.same_halt;
      same_failures = refl;
      same_until = refl;
    }
replay-Reads threshold halt (failure t ∷ es) =
    failure-Reads threshold halt t (replay threshold halt es) es (replay-Reads threshold halt es)

abbrev pub read_open : ℕ → ℕ → List Event → ℕ → ℕ → Option OpenReason
read_open threshold halt es now now' =
    if ltb now (halted_until threshold halt es)
    then some (record {
      failures = trailing es;
      remaining = (halted_until threshold halt es - now') / second;
    })
    else none

-- After any results, the circuit is open exactly within `halt` seconds of the last failure, if it
-- and the failures since the last success reach the threshold; the reason names their number and
-- the seconds left.
pub is_open-replay :
    (threshold halt : ℕ) (es : List Event) (now now' : ℕ)
    → is_open (replay threshold halt es) now now' ≡ read_open threshold halt es now now'
unfolding is_open
is_open-replay threshold halt es now now' =
    let h = replay-Reads threshold halt es in cc (h.same_failures, h.same_until)
