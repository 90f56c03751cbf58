-- ===== src/Agent/Process.antt =====
-- `AgentGraph.process` of agent/graph.py and the nodes of agent/nodes.py that it runs. The second
-- LLM call, which runs beside the enforcement, writes only audit fields of the intent and is left
-- out; so are the prompts.
use s_com_control_plane.Base.{
  Bool, List, Option, Text, [], codes, false, if◌then◌else◌, inl, inr, lower, none, some, strip,
  suc, text_dec, text_eq, true, zero, ℕ, ◌+◌, ◌≟◌, ◌⊎◌,
}
use s_com_control_plane.Base.Int.{ℤ}
use s_com_control_plane.Models.{
  SuricataAlert, PolicyIntent, DecisionOutcome, log_only, action_dec, rejected, held, error,
  action_eq,
}
use s_com_control_plane.Policy.{Knowledge}
use s_com_control_plane.Safety.Confidence.{ConfidenceOutcome, Thresholds, evaluate_confidence}
use s_com_control_plane.Safety.Validators.{ValidationResult, ok, validate_intent}
use s_com_control_plane.Agent.Intent.{RawIntent, intent_of_answer, rebind_cached_intent}
use s_com_control_plane.Agent.Enforce.{
  AgentState, World, Reason, BackendReply, Clock, enforce, rejecting, classified_benign, llm_failed,
  schema_refused, invalid, low_confidence, no_enforcement, raised,
}

pub record Settings : Type 0 where
  pub allowed : List Text
  pub knowledge : Knowledge
  pub ttl_min : ℤ
  pub ttl_max : ℤ
  pub thresholds : Thresholds
  pub dry_run : Bool

-- The outcome of one LLM call.
pub data Attempt : Type 0 where
  answered : RawIntent → Attempt
  failed : Text → Attempt

-- What the pipeline awaits for one alert: an error of the context loading or gathering, the
-- classification that the fast LLM wrote (`none` for an exception), the cache key and what the
-- cache holds under it, the answer of the tool-using LLM (`none` if it is not wired or fails),
-- those of the three plain calls, an error while the notification is read, and the backend.
pub record Env : Type 0 where
  pub load_error : Option Text
  pub classification : Option Text
  pub gather_error : Option Text
  pub cache_key : Text
  pub cached : Option (Option RawIntent)
  pub react : Option RawIntent
  pub attempt : ℕ → Attempt
  pub notification_error : Option Text
  pub backend : PolicyIntent → BackendReply
  pub clock : Clock

pub data Classification : Type 0 where
  benign suspicious threat : Classification

-- `node_classify_alert`: what is not one of the three words is suspicious.
unfoldable pub classify : Option Text → Classification
unfolding text_dec
classify none = suspicious
classify (some raw) =
    let word = lower (strip raw) in
    if word ≟ codes "benign"
    then Classification.benign
    else if word ≟ codes "threat"
    then threat
    else suspicious

pub record PolicyDecision : Type 0 where
  pub alert_sid : ℕ
  pub alert_src_ip : Text
  pub intent : Option PolicyIntent
  pub outcome : DecisionOutcome
  pub reason : Option Reason

abbrev outcome_or_error : Option DecisionOutcome → DecisionOutcome
outcome_or_error none = error
outcome_or_error (some o) = o

-- `_finalize`
unfoldable pub finalize : SuricataAlert → AgentState → PolicyDecision
finalize alert s = record {
  alert_sid = alert.sid;
  alert_src_ip = alert.src_ip;
  intent = s.intent;
  outcome = outcome_or_error s.outcome;
  reason = s.reason;
}

abbrev pub start : AgentState
start = record { intent = none; outcome = none; reason = none; cache_hit = false; cache_key = [] }

-- `node_log_and_end`
abbrev pub log_and_end : AgentState → AgentState
log_and_end s = record s {
  intent = none;
  outcome = some DecisionOutcome.benign;
  reason = some classified_benign;
}

-- The handler at the end of `process`.
abbrev pub crashed : Text → AgentState → AgentState
crashed e s = record s { outcome = some error; reason = some (raised e) }

-- `for attempt in range(3)`: the first answer, or the last error.
abbrev first_answer : (ℕ → Attempt) → (rounds at : ℕ) → Text → Attempt
first_answer attempt zero at last = failed last
first_answer attempt (suc rounds) at last = elim (attempt at) [
  | answered r ↦ answered r
  | failed e ↦ first_answer attempt rounds (at + 1) e
]

abbrev chosen_answer : Env → Option RawIntent → Attempt
chosen_answer env none = first_answer env.attempt 3 0 []
chosen_answer env (some r) = answered r

module _ (digest : Text → Text) where
  abbrev hit_or_miss : Text → Option PolicyIntent → AgentState → AgentState
  hit_or_miss key none s = record s { cache_key = key; cache_hit = false }
  hit_or_miss key (some i) s = record s { cache_key = key; cache_hit = true; intent = some i }

  -- `node_check_response_cache`
  unfoldable pub check_response_cache : Env → SuricataAlert → AgentState → AgentState
  check_response_cache env alert s = elim env.cached [
    | none ↦ hit_or_miss env.cache_key none s
    | some found ↦ hit_or_miss env.cache_key (rebind_cached_intent digest found alert) s
  ]

  abbrev with_intent : Option PolicyIntent → AgentState → AgentState
  with_intent none s = record (rejecting schema_refused s) { intent = none }
  with_intent (some i) s = record s { intent = some i }

  -- What is made of an answer; `inr` is an exception that ends the pipeline.
  abbrev decided : Option Text → SuricataAlert → Attempt → AgentState → AgentState ⊎ Text
  decided e alert (failed err) s = inl (record (rejecting (llm_failed err) s) { intent = none })
  decided (some e) alert (answered r) s = inr e
  decided none alert (answered r) s = inl (with_intent (intent_of_answer digest alert r) s)

  -- `node_decide_policy`
  unfoldable pub decide_policy : Env → SuricataAlert → AgentState → AgentState ⊎ Text
  decide_policy env alert s = decided env.notification_error alert (chosen_answer env env.react) s

  -- What the confidence gate and the action make of a valid intent.
  abbrev pub gated : ConfidenceOutcome × Option (ℕ × ℕ) → PolicyIntent → AgentState → AgentState
  gated (ConfidenceOutcome.hold, why) i s = record s {
    outcome = some held;
    reason = some (low_confidence why);
  }
  gated (ConfidenceOutcome.reject, why) i s = rejecting (low_confidence why) s
  gated (ConfidenceOutcome.enforce, why) i s =
      if i.action ≟ log_only
      then record s { outcome = some DecisionOutcome.benign; reason = some no_enforcement }
      else s
  gated (ConfidenceOutcome.enforce_and_notify, why) i s =
      if i.action ≟ log_only
      then record s { outcome = some DecisionOutcome.benign; reason = some no_enforcement }
      else s

  module _ (cfg : Settings) where
    unfoldable pub validation : SuricataAlert → PolicyIntent → ValidationResult
    validation alert i =
        validate_intent cfg.allowed cfg.knowledge i alert.sid cfg.ttl_min cfg.ttl_max alert.src_ip

    abbrev pub judged : SuricataAlert → Option PolicyIntent → AgentState → AgentState
    judged alert none s = s
    judged alert (some i) s =
        if ok (validation alert i)
        then gated (evaluate_confidence i.confidence cfg.thresholds) i s
        else rejecting (invalid (validation alert i).errors) s

    -- `node_validate_decision`
    unfoldable pub validate_decision : SuricataAlert → AgentState → AgentState
    unfolding action_dec
    validate_decision alert s = judged alert s.intent s

    -- After validation: an outcome that is set ends the pipeline.
    abbrev pub conclude : Env → Option DecisionOutcome → AgentState → World → AgentState × World
    conclude env (some o) s w = (s, w)
    conclude env none s w = enforce cfg.dry_run env.backend env.clock s w

    -- After the decision: only REJECTED and HELD end the pipeline, and no other outcome is set.
    abbrev pub validated : Env → SuricataAlert → AgentState → World → AgentState × World
    validated env alert s w = let s' = validate_decision alert s in conclude env s'.outcome s' w

    abbrev pub continued :
        Env → SuricataAlert → Option DecisionOutcome → AgentState → World → AgentState × World
    continued env alert (some rejected) s w = (s, w)
    continued env alert (some held) s w = (s, w)
    continued env alert _ s w = validated env alert s w

    abbrev pub after_decision :
        Env → SuricataAlert → AgentState → AgentState ⊎ Text → World → AgentState × World
    after_decision env alert before_it (inr e) w = (crashed e before_it, w)
    after_decision env alert before_it (inl s) w = continued env alert s.outcome s w

    abbrev pub after_cache : Env → SuricataAlert → AgentState → World → AgentState × World
    after_cache env alert s w =
        if s.cache_hit
        then continued env alert s.outcome s w
        else after_decision env alert s (decide_policy env alert s) w

    abbrev pub after_gather : Option Text → Env → SuricataAlert → World → AgentState × World
    after_gather (some e) env alert w = (crashed e start, w)
    after_gather none env alert w = after_cache env alert (check_response_cache env alert start) w

    abbrev pub after_classification :
        Env → SuricataAlert → Classification → World → AgentState × World
    after_classification env alert Classification.benign w = (log_and_end start, w)
    after_classification env alert _ w = after_gather env.gather_error env alert w

    abbrev pub after_load : Option Text → Env → SuricataAlert → World → AgentState × World
    after_load (some e) env alert w = (crashed e start, w)
    after_load none env alert w = after_classification env alert (classify env.classification) w

    unfoldable pub pipeline : Env → SuricataAlert → World → AgentState × World
    pipeline env alert w = after_load env.load_error env alert w

    -- `process`
    unfoldable pub process : Env → SuricataAlert → World → PolicyDecision × World
    unfolding pipeline
    process env alert w = let (s, w') = pipeline env alert w in (finalize alert s, w')
