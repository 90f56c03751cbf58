-- ===== src/Enforcement.antt =====
-- intelligence-layer/src/enforcement/ids_agent_proxy.py, the backend of the agent, and the handler of
-- ids-agent/main.go between it and the REST interface of the gateway. How the network fails is a
-- parameter; the JSON of a reply, a log line and the names of backends are left out.
use s_com_control_plane.Base.{
  Bool, Option, Text, [], any, codes, if◌then◌else◌, ltb, none, some, suc, zero, ℕ, ◌++◌, ◌==◌, ◌∷◌,
}
use s_com_control_plane.Base.Int.{ℤ, pos, negsuc}
use s_com_control_plane.Models.{PolicyIntent, value}
use s_com_control_plane.Agent.Intent.{show_ℕ}
use s_com_control_plane.Agent.Enforce.{BackendReply, success, failure}
use s_com_control_plane.Gateway.Adapter.{RuleData}
use s_com_control_plane.Gateway.Pool.{Client, Pool}
use s_com_control_plane.Gateway.Rest.{
  Effects, Port, Reply, RuleBody, deleted, error, errors, handle_post_rule, pushed, raised,
}
pub mod System

-- `ip if "/" in ip else ip + "/32"`
unfoldable pub with_prefix : Text → Text
with_prefix ip = if any (◌==◌ b'/') ip then ip else ip ++ codes "/32"

-- A destination that is empty is left empty.
abbrev pub destination : Text → Option Text
unfolding with_prefix
destination [] = none
destination (c ∷ s) = some (with_prefix (c ∷ s))

abbrev pub port_field : ℤ → Option Port
port_field (pos zero) = none
port_field (pos (suc n)) = some (Port.number (pos (suc n)))
port_field (negsuc n) = some (Port.number (negsuc n))

abbrev pub text_field : Text → Option Text
text_field [] = none
text_field (c ∷ s) = some (c ∷ s)

-- The payload of `enforce`.
unfoldable pub payload : PolicyIntent → RuleBody
unfolding with_prefix destination
payload i = record {
  rule_id = (some i.rule_id, none);
  action = some (value i.action);
  src_ip = (some (with_prefix i.src_ip), none);
  dst_ip = (destination i.dst_ip, none);
  protocol = text_field i.protocol;
  src_port = (none, none);
  dst_port = (port_field i.dst_port, none);
  priority = some i.priority;
  source = none;
  comment = some i.comment;
  ttl_seconds = (some i.ttl_seconds, none);
}

-- `rulesPostHandler` of ids-agent/main.go, on the body that it forwards.
abbrev pub force_source : RuleBody → RuleBody
force_source b = record b { source = some (codes "agent") }

-- What happens on the way: nothing, the gateway is not reached, or its reply is lost.
pub data Network : Type 0 where
  up : Network
  unreached lost : Text → Network

-- The HTTP status of a reply; the forwarder answers for a gateway that gives none.
abbrev pub status_of : Reply → ℕ
status_of (error n t) = n
status_of (errors ms) = 500
status_of (pushed rule_id hosts body ms) = 201
status_of (deleted rule_id leaves ms) = 200
status_of raised = 503

abbrev pub backend_reply : ℕ → BackendReply
backend_reply n = if ltb n 400 then success else failure (codes "HTTP " ++ show_ℕ n)

module _ (has_log : Bool) (gnmi_set : Client → RuleData → Option Text)
    (gnmi_delete : Client → Text → Option Text) (pool : Option Pool) where
  -- The gateway's part of an enforcement.
  unfoldable pub forwarded : PolicyIntent → Effects → Effects × Reply
  unfolding handle_post_rule payload
  forwarded i e =
      handle_post_rule has_log gnmi_set gnmi_delete pool (some (force_source (payload i))) e

  -- `enforce`: what it leaves at the gateway, and its result.
  unfoldable pub enforce_remote : Network → PolicyIntent → Effects → Effects × BackendReply
  unfolding forwarded
  enforce_remote up i e = let r = forwarded i e in (r.0, backend_reply (status_of r.1))
  enforce_remote (unreached m) i e = (e, failure m)
  enforce_remote (lost m) i e = ((forwarded i e).0, failure m)
