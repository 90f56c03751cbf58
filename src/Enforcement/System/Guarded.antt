-- ===== src/Enforcement/System/Guarded.antt =====
-- What an alert gets written at the devices.
use s_com_control_plane.Base.{
  Bool, List, Option, Text, [], arith, codes, inl, inr, length, refl, some, suc, zero, ℕ, ◌-◌, ◌∷◌,
  ◌≡◌, ◌⊎◌,
}
use s_com_control_plane.Base.Slices.{take}
use s_com_control_plane.Base.Int.{ℤ, pos, negsuc}
use s_com_control_plane.Models.{SuricataAlert, PolicyIntent, drop}
use s_com_control_plane.Agent.Enforce.{World}
use s_com_control_plane.Agent.Process.{Env, Settings, process}
use s_com_control_plane.Agent.Safety.{PassesAll, Pushed, process_pushes_guarded}
use s_com_control_plane.Gateway.Pool.{Client, Pool}
use s_com_control_plane.Gateway.Adapter.{Push, RuleData, clean, rule_path, text_or}
use s_com_control_plane.Gateway.Rest.{Effects, rule_data, number_or}
use s_com_control_plane.Gateway.Rest.OneUpdate.{OneUpdate, handle_post_rule-OneUpdate}
use s_com_control_plane.Enforcement.{
  Network, up, unreached, lost, payload, force_source, forwarded, enforce_remote, with_prefix,
}
use s_com_control_plane.Enforcement.System.{backend_at, at_gateway, new_intents, run_alert}

-- The rule that the gateway reads in an intent.
unfoldable pub rule_of : PolicyIntent → RuleData
unfolding payload rule_data
rule_of i = rule_data (force_source (payload i))

take-zero : (xs : List PolicyIntent) (n : ℕ) → take (n - n) xs ≡ []
take-zero xs n = let e : n - n ≡ 0 = omega arith in rw e refl

take-one :
    (x : PolicyIntent) (xs : List PolicyIntent)
    → take (length (x ∷ xs) - length xs) (x ∷ xs) ≡ x ∷ []
take-one x xs = let e : suc (length xs) - length xs ≡ 1 = omega arith in rw e refl

-- The rule of a DROP, as the gateway reads it.
pub record IsRuleOf (i : PolicyIntent) (d : RuleData) : Type 0 where
  pub drops : d.action ≡ codes "DROP"
  pub from_agent : d.source ≡ codes "agent"
  pub at_source : d.src_ip ≡ with_prefix i.src_ip
  pub same_id : d.rule_id ≡ i.rule_id
  pub same_ttl : d.ttl_seconds ≡ i.ttl_seconds

text_or-nil : (t : Text) → text_or (some t) [] ≡ t
text_or-nil [] = refl
text_or-nil (c ∷ t) = refl

number_or-zero : (n : ℤ) → number_or (some n) (pos 0) ≡ n
number_or-zero (pos zero) = refl
number_or-zero (pos (suc n)) = refl
number_or-zero (negsuc n) = refl

rule_of-IsRuleOf : (i : PolicyIntent) → i.action ≡ drop → IsRuleOf i (rule_of i)
unfolding rule_of rule_data payload
rule_of-IsRuleOf i d = record {
  drops = rw d refl;
  from_agent = refl;
  at_source = text_or-nil (with_prefix i.src_ip);
  same_id = text_or-nil i.rule_id;
  same_ttl = number_or-zero i.ttl_seconds;
}

module _ (has_log : Bool) (gnmi_set : Client → RuleData → Option Text)
    (gnmi_delete : Client → Text → Option Text) (pool : Option Pool) where
  forwarded-OneUpdate :
      (i : PolicyIntent) (e : Effects)
      → OneUpdate (rule_of i) e (forwarded has_log gnmi_set gnmi_delete pool i e).0
  unfolding forwarded rule_of
  forwarded-OneUpdate i e =
      handle_post_rule-OneUpdate has_log gnmi_set gnmi_delete pool (force_source (payload i)) e

  enforce_remote-OneUpdate :
      (n : Network) (i : PolicyIntent) (e : Effects)
      → OneUpdate (rule_of i) e (enforce_remote has_log gnmi_set gnmi_delete pool n i e).0
  unfolding enforce_remote
  enforce_remote-OneUpdate up i e = forwarded-OneUpdate i e
  enforce_remote-OneUpdate (unreached m) i e = inl refl
  enforce_remote-OneUpdate (lost m) i e = forwarded-OneUpdate i e

  module _ (network : Network) (digest : Text → Text) (cfg : Settings) (env : Env)
      (alert : SuricataAlert) (w : World) (e : Effects) where
    -- The update of a rule that passed every safety layer.
    abbrev pub Guarded : Push → Type 0
    Guarded p =
        (i : PolicyIntent) × (d : RuleData) × (p.path ≡ rule_path d.rule_id)
        × (p.body ≡ clean d)
        × IsRuleOf i d
        × PassesAll digest cfg (backend_at has_log gnmi_set gnmi_delete pool network env e) alert w
            i

    abbrev pub OneGuarded : Effects → Type 0
    OneGuarded e' = (e'.sets ≡ e.sets) ⊎ ((p : Push) × (e'.sets ≡ p ∷ e.sets) × Guarded p)

    guarded_of :
        (i : PolicyIntent)
        → PassesAll digest cfg
            (backend_at has_log gnmi_set gnmi_delete pool network env e)
            alert
            w
            i
        → OneGuarded (enforce_remote has_log gnmi_set gnmi_delete pool network i e).0
    guarded_of i passes = elim (enforce_remote-OneUpdate network i e) [
      | inl same ↦ inl same
      | inr (host, written) ↦
          inr (_, written, (i, rule_of i, refl, refl, rule_of-IsRuleOf i passes.live.drops, passes))
    ]

    gateway-OneGuarded :
        (w' : World)
        → Pushed
            (PassesAll digest cfg
              (backend_at has_log gnmi_set gnmi_delete pool network env e)
              alert)
            w
            w'
        → OneGuarded (
            at_gateway has_log gnmi_set gnmi_delete pool network
              (new_intents has_log gnmi_set gnmi_delete pool network w w')
              e)
    unfolding at_gateway
    gateway-OneGuarded w' (inl same) = rw (same, take-zero w.pushed (length w.pushed)) (inl refl)
    gateway-OneGuarded w' (inr (i, one, passes)) =
        rw (one, take-one i w.pushed) (guarded_of i passes)

    -- Whatever the LLM, the cache, the clock, the network and the devices do, one alert gets at
    -- most one update written at one LEAF, and that is the rule of an intent that passed every
    -- safety layer of the agent: a DROP with the source agent, for the intent's source as a prefix,
    -- with its id and its lifetime.
    pub run_alert-OneGuarded :
        OneGuarded (run_alert has_log gnmi_set gnmi_delete pool network digest cfg env alert w e).2
    unfolding run_alert
    run_alert-OneGuarded =
        let seen = backend_at has_log gnmi_set gnmi_delete pool network env e in
        gateway-OneGuarded (process digest cfg seen alert w).1
          (process_pushes_guarded digest cfg seen alert w)
