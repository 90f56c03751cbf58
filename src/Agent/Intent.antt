-- ===== src/Agent/Intent.antt =====
-- How an intent comes from the answer of the LLM (`node_decide_policy` of nodes.py, with the
-- model `PolicyIntent` of models/decision.py) or from the cache (response_cache.py).
use s_com_control_plane.Base.{
  Bool, List, Option, Text, [], codes, false, if◌then◌else◌, is_empty, leb, lower, ltb, none, some,
  suc, text_dec, text_eq, zero, ℕ, ◌%◌, ◌++◌, ◌+◌, ◌/◌, ◌==◌, ◌||◌, ◌∷◌, ◌≟◌,
}
use s_com_control_plane.Base.Int.{ℤ, pos, negsuc}
use s_com_control_plane.Models.{
  SuricataAlert, PolicyAction, PolicyIntent, drop, log_only, action_of,
}

-- A value of a JSON object: absent, of a kind that the conversion refuses, or converted.
pub data Field (A : Type 0) : Type 0 where
  missing bad : Field A
  given : A → Field A

-- `result.get(key, default)`, converted.
abbrev pub get_or : {A : Type 0} → Field A → A → Option A
get_or missing d = some d
get_or bad d = none
get_or (given a) d = some a

-- `result[key]` of a field that the model requires.
abbrev pub required : {A : Type 0} → Field A → Option A
required missing = none
required bad = none
required (given a) = some a

pub record RawIntent : Type 0 where
  pub action : Field Text
  pub src_ip : Field Text
  pub dst_ip : Field Text
  pub dst_port : Field ℤ
  pub protocol : Field Text
  pub priority : Field ℤ
  pub ttl_seconds : Field ℤ
  pub comment : Field Text
  pub confidence : Field ℤ
  pub reasoning_steps : Field (List Text)

-- Confidence 1.0.
abbrev pub full_confidence : ℕ
full_confidence = 1000000

-- `Field(ge=0.0, le=1.0)`
abbrev pub in_unit : ℤ → Option ℕ
in_unit (pos n) = if leb n full_confidence then some n else none
in_unit (negsuc n) = none

infixl 5 ◌>>=◌
abbrev pub ◌>>=◌ : {A B : Type 0} → Option A → (A → Option B) → Option B
none >>= f = none
some a >>= f = f a

abbrev pub show_from : ℕ → ℕ → Text → Text
show_from zero n rest = rest
show_from (suc fuel) n rest =
    let more = show_from fuel (n / 10) ((n % 10 + b'0') ∷ rest) in
    if ltb n 10 then (n + b'0') ∷ rest else more

-- `str(n)`; a number has no more digits than its successor counts.
abbrev pub show_ℕ : ℕ → Text
show_ℕ n = show_from (n + 1) n []

abbrev pub show_ℤ : ℤ → Text
show_ℤ (pos n) = show_ℕ n
show_ℤ (negsuc n) = b'-' ∷ show_ℕ (n + 1)

-- The key of `_deterministic_rule_id`, before it is hashed.
unfoldable pub rule_key : Text → Text → ℤ → Text → Text
rule_key src_ip dst_ip dst_port protocol =
    lower (src_ip ++ b'|' ∷ (dst_ip ++ b'|' ∷ (show_ℤ dst_port ++ b'|' ∷ protocol)))

-- The parameter is the first ten hexadecimal digits of a text's SHA-256.
module _ (digest : Text → Text) where
  unfoldable pub deterministic_rule_id : Text → Text → ℤ → Text → Text
  deterministic_rule_id src_ip dst_ip dst_port protocol =
      codes "agent-" ++ digest (rule_key src_ip dst_ip dst_port protocol)

  -- The validator of the model: an empty rule id is replaced by that of the flow.
  unfoldable pub set_deterministic_rule_id : PolicyIntent → PolicyIntent
  set_deterministic_rule_id i =
      if is_empty i.rule_id
      then record i { rule_id = deterministic_rule_id i.src_ip i.dst_ip i.dst_port i.protocol }
      else i

  abbrev action_or_log_only : Option PolicyAction → PolicyAction
  action_or_log_only none = log_only
  action_or_log_only (some a) = a

  -- The action of an answer; an unknown one is `log_only`. `bad` is a value that is no text: it
  -- names no action either.
  abbrev pub answered_action : Field Text → PolicyAction
  answered_action missing = log_only
  answered_action bad = log_only
  answered_action (given s) = action_or_log_only (action_of s)

  -- The intent of an answer, or `none` where the model refuses it. The reasoning comes with a second
  -- answer, later.
  unfoldable pub intent_of_answer : SuricataAlert → RawIntent → Option PolicyIntent
  intent_of_answer alert r = do
    src_ip ← get_or r.src_ip alert.src_ip
    dst_ip ← get_or r.dst_ip []
    dst_port ← get_or r.dst_port (pos 0)
    protocol ← get_or r.protocol (codes "tcp")
    priority ← get_or r.priority (pos 50)
    ttl_seconds ← get_or r.ttl_seconds (pos 3600)
    comment ← get_or r.comment []
    score ← get_or r.confidence (pos 0)
    confidence ← in_unit score
    some (
        set_deterministic_rule_id (record {
          rule_id = [];
          action = answered_action r.action;
          src_ip = src_ip;
          dst_ip = dst_ip;
          dst_port = dst_port;
          protocol = protocol;
          priority = priority;
          ttl_seconds = ttl_seconds;
          comment = comment;
          confidence = confidence;
          reasoning_steps = [];
        }))

  abbrev pub has_slash : Text → Bool
  has_slash [] = false
  has_slash (c ∷ s) = c == b'/' || has_slash s

  -- The source of the live alert, as a network.
  unfoldable pub live_target : SuricataAlert → Text
  live_target alert = if has_slash alert.src_ip then alert.src_ip else alert.src_ip ++ codes "/32"

  -- The action of a cached answer: what is neither DROP nor log_only is log_only, and one that is
  -- missing makes the model refuse the intent.
  unfoldable pub cached_action : Field Text → Option PolicyAction
  unfolding text_dec
  cached_action missing = none
  cached_action bad = some log_only
  cached_action (given s) = if s ≟ codes "DROP" then some drop else some log_only

  -- The intent of the template's values, for the live alert.
  unfoldable pub rebound :
      SuricataAlert → PolicyAction → Text → ℤ → Text → ℤ → ℤ → Text → ℕ → List Text → PolicyIntent
  unfolding set_deterministic_rule_id live_target
  rebound alert action dst_ip dst_port protocol priority ttl_seconds comment confidence
        reasoning_steps =
      set_deterministic_rule_id (record {
        rule_id = [];
        action = action;
        src_ip = live_target alert;
        dst_ip = dst_ip;
        dst_port = dst_port;
        protocol = protocol;
        priority = priority;
        ttl_seconds = ttl_seconds;
        comment = comment;
        confidence = confidence;
        reasoning_steps = reasoning_steps;
      })

  -- `rebind_cached_intent`; `none` stands for a value that is no dict with the key "intent".
  unfoldable pub rebind_cached_intent : Option RawIntent → SuricataAlert → Option PolicyIntent
  rebind_cached_intent none alert = none
  rebind_cached_intent (some r) alert = do
    action ← cached_action r.action
    dst_ip ← get_or r.dst_ip []
    dst_port ← get_or r.dst_port (pos 0)
    protocol ← get_or r.protocol (codes "tcp")
    priority ← get_or r.priority (pos 50)
    ttl_seconds ← get_or r.ttl_seconds (pos 3600)
    comment ← get_or r.comment []
    score ← required r.confidence
    confidence ← in_unit score
    reasoning_steps ← get_or r.reasoning_steps []
    some (
        rebound alert action dst_ip dst_port protocol priority ttl_seconds comment confidence
          reasoning_steps)
