-- ===== src/Agent/Outcomes.antt =====
-- What an enforcement does to the circuit, the limiter and the cache, and which outcome it reports.
use s_com_control_plane.Base.{
  Bool, List, Option, Text, [], ap, arith, false, none, refl, some, subst, sym, true, ℕ, ≟-refl,
  ◌∷◌, ◌≟◌, ◌≡◌,
}
use s_com_control_plane.Models.{
  PolicyIntent, DecisionOutcome, action_eq, drop, enforced, dry_run, rejected, error,
}
use s_com_control_plane.Safety.RateLimiter.{RateLimiter, LimitError, check_and_consume}
use s_com_control_plane.Safety.CircuitBreaker.{
  CircuitBreaker, OpenReason, is_open, record_success, record_failure,
}
use s_com_control_plane.Agent.Enforce.{
  AgentState, World, BackendReply, Clock, success, failure, raises, Reason, backend_failed, raised,
  store, enforce, enforce_intent, guarded, limited, push, after_push,
}

-- The ways that an enforcement of a DROP can go.
pub data Course : Type 0 where
  halted : OpenReason → Course
  refused : LimitError → Course
  rehearsed : Course
  taken : Course
  declined : Reason → Course

abbrev pub course_of_reply : BackendReply → Course
course_of_reply success = taken
course_of_reply (failure e) = declined (backend_failed e)
course_of_reply (raises e) = declined (raised e)

-- What decides the course, each layer in its turn.
abbrev pub course : Bool → Option OpenReason → Option LimitError → BackendReply → Course
course dry (some r) e b = halted r
course dry none (some e) b = refused e
course true none none b = rehearsed
course false none none b = course_of_reply b

abbrev pub outcome_of : Course → Option DecisionOutcome
outcome_of (halted r) = some rejected
outcome_of (refused e) = some rejected
outcome_of rehearsed = some dry_run
outcome_of taken = some enforced
outcome_of (declined r) = some error

-- A success closes the circuit, a failure counts, and nothing else touches it.
abbrev pub breaker_after : Course → ℕ → CircuitBreaker → CircuitBreaker
breaker_after taken at b = record_success b
breaker_after (declined r) at b = record_failure b at
breaker_after _ at b = b

-- A halted circuit leaves the limiter alone; else it answers, dry run or not.
abbrev pub limiter_after : Course → RateLimiter → RateLimiter → RateLimiter
limiter_after (halted r) old asked = old
limiter_after _ old asked = asked

-- The intents handed to the backend.
abbrev pub pushed_after : Course → PolicyIntent → List PolicyIntent → List PolicyIntent
pushed_after taken i ps = i ∷ ps
pushed_after (declined r) i ps = i ∷ ps
pushed_after _ i ps = ps

-- The cache is written after a success alone, and only by an intent that is not from the cache and
-- has a key: it holds the intent under that key.
abbrev pub cached_after :
    Course
    → (from_cache : Bool) → (key : Text) → PolicyIntent
    → List (Text × PolicyIntent)
    → List (Text × PolicyIntent)
cached_after taken true key i old = old
cached_after taken false [] i old = old
cached_after taken false (c ∷ key) i old = (c ∷ key, i) ∷ old
cached_after _ from_cache key i old = old

module _ (is_dry_run : Bool) (backend : PolicyIntent → BackendReply) (c : Clock) where
  pub record Follows (k : Course) (i : PolicyIntent) (s : AgentState) (w : World)
      (result : AgentState × World) : Type 0 where
    pub outcome : result.0.outcome ≡ outcome_of k
    pub breaker : result.1.breaker ≡ breaker_after k c.at_failure w.breaker
    pub limiter :
        result.1.limiter
        ≡ limiter_after k w.limiter (check_and_consume w.limiter i.src_ip c.at_limiter).0
    pub pushed : result.1.pushed ≡ pushed_after k i w.pushed
    pub cached : result.1.cached ≡ cached_after k s.cache_hit s.cache_key i w.cached

  module _ (i : PolicyIntent) (s : AgentState) (w : World) where
    abbrev asked : RateLimiter × Option LimitError
    asked = check_and_consume w.limiter i.src_ip c.at_limiter

    -- The world when the intent is handed over.
    abbrev handed : World
    handed = record w { limiter = asked.0; pushed = i ∷ w.pushed }

    -- The cache after the push does not depend on the circuit and the limiter.
    stored-cached :
        (hit : Bool) (key : Text) (w' : World)
        → w'.cached ≡ w.cached
        → (store (record s { cache_hit = hit; cache_key = key }) i w').cached
          ≡ cached_after taken hit key i w.cached
    stored-cached true key w' same = same
    stored-cached false [] w' same = same
    stored-cached false (c ∷ key) w' same = ap (◌∷◌ (c ∷ key, i)) same

    after_push-Follows :
        (b : BackendReply) → Follows (course_of_reply b) i s w (after_push b c i s handed)
    after_push-Follows success = record {
      outcome = refl;
      breaker = ground arith;
      limiter = ground arith;
      pushed = ground arith;
      cached =
          stored-cached s.cache_hit s.cache_key
            (record handed { breaker = record_success w.breaker }) refl;
    }
    after_push-Follows (failure e) = record {
      outcome = refl;
      breaker = refl;
      limiter = refl;
      pushed = refl;
      cached = refl;
    }
    after_push-Follows (raises e) = record {
      outcome = refl;
      breaker = refl;
      limiter = refl;
      pushed = refl;
      cached = refl;
    }

    limited-Follows :
        (dry : Bool) (e : Option LimitError)
        → Follows
            (course dry none e (backend i))
            i
            s
            w
            (limited dry backend c e i s (record w { limiter = asked.0 }))
    unfolding push
    limited-Follows dry (some e) = record {
      outcome = refl;
      breaker = refl;
      limiter = refl;
      pushed = refl;
      cached = refl;
    }
    limited-Follows true none = record {
      outcome = refl;
      breaker = refl;
      limiter = refl;
      pushed = refl;
      cached = refl;
    }
    limited-Follows false none = after_push-Follows (backend i)

    guarded-Follows :
        (o : Option OpenReason)
        → Follows
            (course is_dry_run o asked.1 (backend i))
            i
            s
            w
            (guarded is_dry_run backend c o i s w)
    guarded-Follows (some r) = record {
      outcome = refl;
      breaker = refl;
      limiter = refl;
      pushed = refl;
      cached = refl;
    }
    guarded-Follows none = limited-Follows is_dry_run asked.1

    enforce_intent-Follows :
        (i.action ≟ drop) ≡ true
        → Follows
            (course is_dry_run
              (is_open w.breaker c.at_breaker c.at_breaker_message)
              asked.1
              (backend i))
            i
            s
            w
            (enforce_intent is_dry_run backend c (some i) s w)
    unfolding enforce_intent
    enforce_intent-Follows is_drop =
        rw is_drop (guarded-Follows (is_open w.breaker c.at_breaker c.at_breaker_message))

    -- The enforcement of a DROP follows the first of these that applies: the circuit is open, and
    -- nothing changes; the limiter refuses; the run is dry, which takes a slot of the limiter and
    -- pushes nothing; the backend takes the rule, which closes the circuit and stores the intent
    -- under its key, if there is a key and the intent is not from the cache itself; the backend fails,
    -- which counts as a failure of the circuit.
    pub enforce-Follows :
        s.intent ≡ some i
        → i.action ≡ drop
        → Follows
            (course is_dry_run
              (is_open w.breaker c.at_breaker c.at_breaker_message)
              asked.1
              (backend i))
            i
            s
            w
            (enforce is_dry_run backend c s w)
    unfolding enforce
    enforce-Follows at_hand drops =
        let is_drop : (i.action ≟ drop) ≡ true =
          subst (λ a. (a ≟ drop) ≡ true) (sym drops) (≟-refl drop) in
        subst
          (λ o.
            Follows
              (course is_dry_run (is_open w.breaker c.at_breaker c.at_breaker_message) asked.1
                (backend i))
              i s w (enforce_intent is_dry_run backend c o s w))
          (sym at_hand) (enforce_intent-Follows is_drop)
