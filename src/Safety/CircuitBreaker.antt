-- ===== src/Safety/CircuitBreaker.antt =====
-- agent/safety/circuit_breaker.py (layer L8). Each method runs under the object's lock, so it is
-- one step. The clock is an argument; instants and durations are microseconds.
pub mod Laws
use s_com_control_plane.Base.{
  Bool, Option, if◌then◌else◌, leb, ltb, none, some, ℕ, ◌*◌, ◌+◌, ◌-◌, ◌/◌,
}

abbrev pub second : ℕ
second = 1000000

pub record CircuitBreaker : Type 0 where
  pub fail_threshold : ℕ
  pub halt_seconds : ℕ
  pub consecutive_failures : ℕ
  pub open_until : ℕ

-- The constructor.
unfoldable pub new : ℕ → ℕ → CircuitBreaker
new fail_threshold halt_seconds = record {
  fail_threshold = fail_threshold;
  halt_seconds = halt_seconds;
  consecutive_failures = 0;
  open_until = 0;
}

-- What the message of an open circuit names: the failures, and the whole seconds that are left.
pub record OpenReason : Type 0 where
  pub failures : ℕ
  pub remaining : ℕ

-- The clock is read for the test, and again for the message: `now'` is the second instant.
unfoldable pub is_open : CircuitBreaker → ℕ → ℕ → Option OpenReason
is_open b now now' =
    if ltb now b.open_until
    then some
        (record { failures = b.consecutive_failures; remaining = (b.open_until - now') / second })
    else none

unfoldable pub record_success : CircuitBreaker → CircuitBreaker
record_success b = record b { consecutive_failures = 0; open_until = 0 }

unfoldable pub record_failure : CircuitBreaker → ℕ → CircuitBreaker
record_failure b now =
    if leb b.fail_threshold (b.consecutive_failures + 1)
    then record b {
      consecutive_failures = b.consecutive_failures + 1;
      open_until = now + b.halt_seconds * second;
    }
    else record b { consecutive_failures = b.consecutive_failures + 1 }

pub record Stats : Type 0 where
  pub consecutive_failures : ℕ
  pub is_open : Bool
  pub open_until : ℕ

unfoldable pub get_stats : CircuitBreaker → ℕ → Stats
get_stats b now = record {
  consecutive_failures = b.consecutive_failures;
  is_open = ltb now b.open_until;
  open_until = b.open_until;
}
