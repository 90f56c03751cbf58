-- ===== src/Safety/RateLimiter.antt =====
-- agent/safety/rate_limiter.py (layer L5). Each method runs under the object's lock, so it is one
-- step. The clock is an argument, in microseconds; a deque of instants is a list, oldest first.
pub mod Window
pub mod Laws
pub mod Runs
use s_com_control_plane.Base.{
  List, Option, Text, [], before, if◌then◌else◌, leb, length, ltb, none, some, text_dec, text_eq, ℕ,
  ◌*◌, ◌++◌, ◌+◌, ◌∷◌,
}
use s_com_control_plane.Base.Dict.{Dict, lookup, insert}
use s_com_control_plane.Safety.CircuitBreaker.{second}

pub record Limits : Type 0 where
  pub max_per_minute : ℕ
  pub max_total : ℕ
  pub max_per_ip : ℕ
  pub per_ip_window : ℕ  -- seconds

pub record RateLimiter : Type 0 where
  pub limits : Limits
  pub minute_window : List ℕ
  pub total_count : ℕ
  pub per_ip : Dict Text (List ℕ)

abbrev pub default_limits : Limits
default_limits = record { max_per_minute = 5; max_total = 50; max_per_ip = 3; per_ip_window = 300 }

unfoldable pub new : Limits → RateLimiter
new l = record { limits = l; minute_window = []; total_count = 0; per_ip = [] }

-- `while window and window[0] < now - age: window.popleft()`
abbrev pub evict : ℕ → ℕ → List ℕ → List ℕ
evict now age [] = []
evict now age (t ∷ ts) = let rest = evict now age ts in if ltb (t + age) now then rest else t ∷ ts

-- `defaultdict(deque)[key]`
abbrev pub stamps_of : Option (List ℕ) → List ℕ
stamps_of none = []
stamps_of (some ts) = ts

unfoldable pub stamps : RateLimiter → Text → List ℕ
unfolding text_dec
stamps r ip = stamps_of (lookup ip r.per_ip)

pub data LimitError : Type 0 where
  per_minute : (pushed limit : ℕ) → LimitError
  total_cap : (count limit : ℕ) → LimitError
  per_address : Text → (rules window limit : ℕ) → LimitError

-- What is old leaves both windows, whatever the answer will be.
unfoldable pub evicted : RateLimiter → Text → ℕ → RateLimiter
unfolding stamps
evicted r ip now = record r {
  minute_window = evict now (60 * second) r.minute_window;
  per_ip = insert ip (evict now (r.limits.per_ip_window * second) (stamps r ip)) r.per_ip;
}

-- One slot of each limit is taken.
unfoldable pub consume : RateLimiter → Text → ℕ → RateLimiter
unfolding stamps
consume r ip now = record r {
  minute_window = r.minute_window ++ now ∷ [];
  total_count = r.total_count + 1;
  per_ip = insert ip (stamps r ip ++ now ∷ []) r.per_ip;
}

-- The three tests, in order, on the sizes of the windows.
unfoldable pub verdict : Limits → Text → (pushed total rules : ℕ) → Option LimitError
verdict l ip pushed total rules =
    if leb l.max_per_minute pushed
    then some (per_minute pushed l.max_per_minute)
    else if leb l.max_total total
    then some (total_cap total l.max_total)
    else if leb l.max_per_ip rules
    then some (per_address ip rules l.per_ip_window l.max_per_ip)
    else none

unfoldable pub check : RateLimiter → Text → Option LimitError
check r ip = verdict r.limits ip (length r.minute_window) r.total_count (length (stamps r ip))

abbrev pub settle : Option LimitError → RateLimiter → Text → ℕ → RateLimiter × Option LimitError
settle (some e) r ip now = (r, some e)
settle none r ip now = (consume r ip now, none)

unfoldable pub check_and_consume : RateLimiter → Text → ℕ → RateLimiter × Option LimitError
check_and_consume r src_ip now =
    let ip = before b'/' src_ip in let r' = evicted r ip now in settle (check r' ip) r' ip now

unfoldable pub reset : RateLimiter → RateLimiter
reset r = record r { minute_window = []; total_count = 0; per_ip = [] }

pub record Stats : Type 0 where
  pub last_minute : ℕ
  pub total : ℕ

unfoldable pub get_stats : RateLimiter → Stats
get_stats r = record { last_minute = length r.minute_window; total = r.total_count }
