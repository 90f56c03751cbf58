-- ===== src/Agent/Enforce.antt =====
-- `_enforce` of agent/graph.py: layers L8 and L5 and the push of a rule.
use s_com_control_plane.Base.{
  Bool, List, Option, Text, if◌then◌else◌, is_empty, none, not, some, ℕ, ◌&&◌, ◌∷◌, ◌≟◌,
}
use s_com_control_plane.Models.{
  PolicyIntent, DecisionOutcome, drop, action_dec, enforced, dry_run, rejected, error, action_eq,
}
use s_com_control_plane.Safety.Validators.{ValidationError}
use s_com_control_plane.Safety.RateLimiter.{RateLimiter, LimitError, check_and_consume}
use s_com_control_plane.Safety.CircuitBreaker.{
  CircuitBreaker, OpenReason, is_open, record_success, record_failure,
}

-- `rejection_reason`, with what its message names.
pub data Reason : Type 0 where
  classified_benign : Reason
  llm_failed : Text → Reason
  schema_refused : Reason
  invalid : List ValidationError → Reason
  low_confidence : Option (ℕ × ℕ) → Reason
  no_enforcement : Reason
  circuit_open : OpenReason → Reason
  rate_limited : LimitError → Reason
  backend_failed : Text → Reason
  raised : Text → Reason

-- `AgentState`, without what only prompts and audits read. `none` is a key that is not set.
pub record AgentState : Type 0 where
  pub intent : Option PolicyIntent
  pub outcome : Option DecisionOutcome
  pub reason : Option Reason
  pub cache_hit : Bool
  pub cache_key : Text

-- What outlives an alert: the two safety objects, the intents handed to the backend and those
-- stored in the cache, newest first.
pub record World : Type 0 where
  pub breaker : CircuitBreaker
  pub limiter : RateLimiter
  pub pushed : List PolicyIntent
  pub cached : List (Text × PolicyIntent)

pub data BackendReply : Type 0 where
  success : BackendReply
  failure : Text → BackendReply
  raises : Text → BackendReply

-- The instants that the clock gives to `is_open` (twice), `check_and_consume` and
-- `record_failure`.
pub record Clock : Type 0 where
  pub at_breaker : ℕ
  pub at_breaker_message : ℕ
  pub at_limiter : ℕ
  pub at_failure : ℕ

abbrev pub rejecting : Reason → AgentState → AgentState
rejecting r s = record s { outcome = some rejected; reason = some r }

-- The store after a success; its own failure is caught.
abbrev pub store : AgentState → PolicyIntent → World → World
store s i w =
    if not s.cache_hit && not (is_empty s.cache_key)
    then record w { cached = (s.cache_key, i) ∷ w.cached }
    else w

-- What follows the call of the backend.
abbrev pub after_push :
    BackendReply → Clock → PolicyIntent → AgentState → World → AgentState × World
after_push success c i s w = (
  record s { outcome = some enforced },
  store s i (record w { breaker = record_success w.breaker }),
)
after_push (failure e) c i s w = (
  record s { outcome = some error; reason = some (backend_failed e) },
  record w { breaker = record_failure w.breaker c.at_failure },
)
after_push (raises e) c i s w = (
  record s { outcome = some error; reason = some (raised e) },
  record w { breaker = record_failure w.breaker c.at_failure },
)

-- The live enforcement.
unfoldable pub push :
    (PolicyIntent → BackendReply) → Clock → PolicyIntent → AgentState → World → AgentState × World
push backend c i s w = after_push (backend i) c i s (record w { pushed = i ∷ w.pushed })

module _ (is_dry_run : Bool) (backend : PolicyIntent → BackendReply) (c : Clock) where
  -- After layer L5.
  abbrev pub limited : Option LimitError → PolicyIntent → AgentState → World → AgentState × World
  limited (some e) i s w = (rejecting (rate_limited e) s, w)
  limited none i s w =
      if is_dry_run then (record s { outcome = some dry_run }, w) else push backend c i s w

  -- After layer L8.
  abbrev pub guarded : Option OpenReason → PolicyIntent → AgentState → World → AgentState × World
  guarded (some r) i s w = (rejecting (circuit_open r) s, w)
  guarded none i s w =
      let (limiter, e) = check_and_consume w.limiter i.src_ip c.at_limiter in
      limited e i s (record w { limiter = limiter })

  unfoldable pub enforce_intent : Option PolicyIntent → AgentState → World → AgentState × World
  unfolding action_dec
  enforce_intent none s w = (s, w)
  enforce_intent (some i) s w =
      if i.action ≟ drop
      then guarded (is_open w.breaker c.at_breaker c.at_breaker_message) i s w
      else (s, w)

  -- `_enforce`
  unfoldable pub enforce : AgentState → World → AgentState × World
  unfolding enforce_intent
  enforce s w = enforce_intent s.intent s w
