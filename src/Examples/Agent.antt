-- ===== src/Examples/Agent.antt =====
-- One alert through the pipeline, and the validator at concrete intents.
use s_com_control_plane.Base.{
  [], arith, codes, false, inl, none, refl, some, true, ℕ_discrete, ◌++◌, ◌↔◌, ◌∷◌, ◌≡◌,
}
use s_com_control_plane.Base.Int.{pos}
use s_com_control_plane.Net.Dotted.{dotted, digits}
use s_com_control_plane.Models.{SuricataAlert, PolicyIntent, drop}
use s_com_control_plane.Policy.{authored}
use s_com_control_plane.Policy.Sids.{get_sid_info}
use s_com_control_plane.Safety.Guardrails.{is_protected_ip, authored_actions}
use s_com_control_plane.Safety.Confidence.{default_thresholds}
use s_com_control_plane.Safety.RateLimiter.{default_limits}
use s_com_control_plane.Safety.RateLimiter
use s_com_control_plane.Safety.CircuitBreaker
use s_com_control_plane.Safety.Validators.{ok, validate_intent, ip_matches_alert_src}
use s_com_control_plane.Safety.Validators.Spec.{AcceptsDrop, FitsSeverity, validate_intent-drop}
use s_com_control_plane.Safety.Validators.Breadth.{validate_intent_admits_protected}
use s_com_control_plane.Agent.Intent.{RawIntent, missing, given}
use s_com_control_plane.Agent.Enforce.{World, success}
use s_com_control_plane.Agent.Process.{Settings, Env, answered, process}
use s_com_control_plane.Agent.Enforce.{enforce, AgentState, failure}
use s_com_control_plane.Agent.Outcomes.{Follows, course, enforce-Follows}
use s_com_control_plane.Agent.Rebind.{IfSome, IsRebound, rebind_cached_intent-IsRebound}
use s_com_control_plane.Agent.Intent.{rebind_cached_intent}
use s_com_control_plane.Safety.CircuitBreaker.{is_open}
use s_com_control_plane.Safety.RateLimiter.{check_and_consume}
use s_com_control_plane.Agent.Safety.{Pushed, PassesAll, process_pushes_guarded}

-- A DROP of the host's network of eight bits.
abbrev wide_drop : PolicyIntent
wide_drop = record {
  rule_id = codes "agent-1";
  action = drop;
  src_ip = dotted 10 1 100 10 ++ b'/' ∷ digits 8;
  dst_ip = [];
  dst_port = pos 0;
  protocol = codes "tcp";
  priority = pos 50;
  ttl_seconds = pos 3600;
  comment = [];
  confidence = 900000;
  reasoning_steps = [];
}

severity_of_scan : FitsSeverity drop (get_sid_info 9000001)
unfolding get_sid_info ℕ_discrete
severity_of_scan = inl refl

validate_intent_admits_protected_example :
    (ok (
        validate_intent authored_actions authored wide_drop 9000001
          (pos 60)
          (pos 86400)
          (dotted 10 1 100 10))
      ≡ true)
    × (ip_matches_alert_src wide_drop.src_ip (dotted 10 1 100 1) ≡ true)
    × (is_protected_ip (dotted 10 1 100 1) ≡ true)
validate_intent_admits_protected_example =
    validate_intent_admits_protected authored wide_drop 9000001 (pos 60) (pos 86400) 10 8
      (omega arith) (omega arith) (omega arith) refl refl refl severity_of_scan (omega arith)
      (omega arith)

validate_intent-drop_example :
    (ok (
        validate_intent authored_actions authored wide_drop 9000001
          (pos 60)
          (pos 86400)
          (dotted 10 1 100 10))
      ≡ true)
    ↔ AcceptsDrop authored wide_drop 9000001 (pos 60) (pos 86400) (dotted 10 1 100 10)
validate_intent-drop_example =
    validate_intent-drop authored wide_drop 9000001 (pos 60) (pos 86400) (dotted 10 1 100 10) refl

abbrev pub web_alert : SuricataAlert
web_alert = record {
  src_ip = codes "10.1.100.10";
  dest_ip = codes "10.1.200.10";
  src_port = 40000;
  dest_port = 5432;
  proto = codes "TCP";
  sid = 9000001;
  severity = 1;
}

abbrev pub drop_answer : RawIntent
drop_answer = record {
  action = given (codes "DROP");
  src_ip = given (codes "10.1.100.10/32");
  dst_ip = missing;
  dst_port = missing;
  protocol = missing;
  priority = missing;
  ttl_seconds = missing;
  comment = missing;
  confidence = given (pos 900000);
  reasoning_steps = missing;
}

abbrev pub settings : Settings
settings = record {
  allowed = authored_actions;
  knowledge = authored;
  ttl_min = pos 60;
  ttl_max = pos 86400;
  thresholds = default_thresholds;
  dry_run = false;
}

abbrev pub quiet_env : Env
quiet_env = record {
  load_error = none;
  classification = some (codes "threat");
  gather_error = none;
  cache_key = codes "k";
  cached = none;
  react = none;
  attempt = λ _. answered drop_answer;
  notification_error = none;
  backend = λ _. success;
  clock = record { at_breaker = 5; at_breaker_message = 6; at_limiter = 7; at_failure = 8 };
}

abbrev pub first_world : World
first_world = record {
  breaker = CircuitBreaker.new 3 300;
  limiter = RateLimiter.new default_limits;
  pushed = [];
  cached = [];
}

process_pushes_guarded_example :
    Pushed
      (PassesAll (λ s. s) settings quiet_env web_alert)
      first_world
      (process (λ s. s) settings quiet_env web_alert first_world).1
process_pushes_guarded_example =
    process_pushes_guarded (λ s. s) settings quiet_env web_alert first_world

abbrev at_hand : AgentState
at_hand = record {
  intent = some wide_drop;
  outcome = none;
  reason = none;
  cache_hit = false;
  cache_key = codes "k";
}

-- The backend refuses the rule.
enforce-Follows_example :
    Follows false
      (λ _. failure (codes "no route"))
      quiet_env.clock
      (course false
        (is_open first_world.breaker 5 6)
        (check_and_consume first_world.limiter wide_drop.src_ip 7).1
        (failure (codes "no route")))
      wide_drop
      at_hand
      first_world
      (enforce false (λ _. failure (codes "no route")) quiet_env.clock at_hand first_world)
enforce-Follows_example =
    enforce-Follows false (λ _. failure (codes "no route")) quiet_env.clock wide_drop at_hand
      first_world refl refl

rebind_cached_intent-IsRebound_example :
    IfSome
      (IsRebound (λ s. s) web_alert)
      (rebind_cached_intent (λ s. s) (some drop_answer) web_alert)
rebind_cached_intent-IsRebound_example =
    rebind_cached_intent-IsRebound (λ s. s) web_alert (some drop_answer)
