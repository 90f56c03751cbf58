-- ===== src/Enforcement/System.antt =====
-- An alert on its way through both programs: `AgentGraph.process`, whose backend is the proxy, and
-- the gateway, whose devices take the rule.
use s_com_control_plane.Base.{Bool, List, Option, Text, [], length, ◌-◌, ◌∷◌}
use s_com_control_plane.Base.Slices.{take}
use s_com_control_plane.Models.{SuricataAlert, PolicyIntent, drop, value}
use s_com_control_plane.Agent.Intent.{show_ℕ}
use s_com_control_plane.Agent.Enforce.{World}
use s_com_control_plane.Agent.Process.{Env, PolicyDecision, Settings, process}
use s_com_control_plane.Agent.Safety.{PassesAll, Pushed, process_pushes_guarded}
use s_com_control_plane.Gateway.Pool.{Client, Pool, get_any_client, get_client_by_key, ip_to_leaf}
use s_com_control_plane.Gateway.Roles.{SonicRole}
use s_com_control_plane.Gateway.Adapter.{Push, RuleData, clean, rule_path, valid_actions}
use s_com_control_plane.Gateway.Rest.{
  Effects, Reply, RuleBody, action_of, handle_post_rule, leaf_or_any, logged, member_or, one_client,
  post_body, push_all, push_at, push_reply, rule_clients, rule_data, rule_pushed,
}
use s_com_control_plane.Gateway.Rest.Laws.{logged-sets}
use s_com_control_plane.Enforcement.{
  Network, up, unreached, lost, payload, force_source, forwarded, enforce_remote, with_prefix,
}
pub mod Guarded

module _ (has_log : Bool) (gnmi_set : Client → RuleData → Option Text)
    (gnmi_delete : Client → Text → Option Text) (pool : Option Pool) (network : Network) where
  -- The backend of the agent, where the gateway's state is `e`.
  abbrev pub backend_at : Env → Effects → Env
  unfolding enforce_remote
  backend_at env e = record env {
    backend = λ i. (enforce_remote has_log gnmi_set gnmi_delete pool network i e).1;
  }

  -- The intents that were handed to the backend, at the gateway, newest first.
  abbrev pub at_gateway : List PolicyIntent → Effects → Effects
  unfolding enforce_remote
  at_gateway [] e = e
  at_gateway (i ∷ is) e =
      (enforce_remote has_log gnmi_set gnmi_delete pool network i (at_gateway is e)).0

  abbrev pub new_intents : World → World → List PolicyIntent
  new_intents w w' = take (length w'.pushed - length w.pushed) w'.pushed

  -- One alert: the decision, the agent's state, and the gateway's.
  unfoldable pub run_alert :
      (Text → Text)
      → Settings
      → Env
      → SuricataAlert
      → World
      → Effects
      → PolicyDecision × World × Effects
  unfolding process
  run_alert digest cfg env alert w e =
      let r = process digest cfg (backend_at env e) alert w in
      (r.0, r.1, at_gateway (new_intents w r.1) e)
