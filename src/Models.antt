-- ===== src/Models.antt =====
-- intelligence-layer/src/models/alert.py and decision.py: an alert of the IDS and a decision of
-- the agent. Fields that only prompts and displays read are left out. Ports, signature numbers
-- and severities are natural numbers; what the LLM fills in may be negative.
use s_com_control_plane.Base.{
  Eq, List, Option, Text, codes, if◌then◌else◌, none, some, text_dec, text_eq, ℕ, ◌≟◌,
}
use s_com_control_plane.Base.Int.{ℤ}

pub record SuricataAlert : Type 0 where
  pub src_ip : Text
  pub dest_ip : Text
  pub src_port : ℕ
  pub dest_port : ℕ
  pub proto : Text
  pub sid : ℕ
  pub severity : ℕ

pub data PolicyAction : Type 0 where
  drop log_only hold reject : PolicyAction

unfoldable pub action_dec : Discrete PolicyAction
action_dec = hlevel

instance abbrev pub action_eq : Eq PolicyAction
action_eq = record { dec = action_dec }

-- `PolicyAction.value`
abbrev pub value : PolicyAction → Text
value drop = codes "DROP"
value log_only = codes "log_only"
value hold = codes "hold"
value reject = codes "reject"

-- `PolicyAction(text)`; the `ValueError` of an unknown text is `none`.
unfoldable pub action_of : Text → Option PolicyAction
unfolding text_dec
action_of s =
    if s ≟ codes "DROP"
    then some drop
    else if s ≟ codes "log_only"
    then some log_only
    else if s ≟ codes "hold"
    then some hold
    else if s ≟ codes "reject"
    then some reject
    else none

-- `confidence` is a float in [0, 1], of which the code uses the order alone: a number on the
-- scale of the thresholds.
pub record PolicyIntent : Type 0 where
  pub rule_id : Text
  pub action : PolicyAction
  pub src_ip : Text
  pub dst_ip : Text
  pub dst_port : ℤ
  pub protocol : Text
  pub priority : ℤ
  pub ttl_seconds : ℤ
  pub comment : Text
  pub confidence : ℕ
  pub reasoning_steps : List Text

pub data DecisionOutcome : Type 0 where
  enforced dry_run rejected held benign error : DecisionOutcome
