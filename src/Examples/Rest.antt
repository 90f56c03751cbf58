-- ===== src/Examples/Rest.antt =====
-- A rule that the REST interface takes.
use s_com_control_plane.Base.{[], codes, none, some, true, ◌∷◌}
use s_com_control_plane.Gateway.Roles.{SonicRole}
use s_com_control_plane.Gateway.Pool.{Pool, key}
use s_com_control_plane.Gateway.Rest.{RuleBody, Effects, handle_post_rule}
use s_com_control_plane.Gateway.Rest.Laws.{Told, handle_post_rule-Told}

abbrev body : RuleBody
body = record {
  rule_id = (none, some (codes "r7"));
  action = some (codes "drop");
  src_ip = (some (codes "10.1.100.10/32"), none);
  dst_ip = (none, none);
  protocol = none;
  src_port = (none, none);
  dst_port = (none, none);
  priority = none;
  source = none;
  comment = none;
  ttl_seconds = (none, none);
}

abbrev pub one_leaf : Pool
one_leaf = record {
  leaves = (codes "leaf1", codes "192.168.122.20") ∷ [];
  connections =
      (
        key SonicRole.admin (codes "192.168.122.20"),
        some (record { host = codes "192.168.122.20"; connected = true }),
      )
      ∷ [];
}

abbrev pub untouched : Effects
untouched = record { sets = []; deletes = []; log = [] }

handle_post_rule-Told_example :
    Told untouched
      (handle_post_rule true (λ _ _. none) (λ _ _. none) (some one_leaf) (some body) untouched)
handle_post_rule-Told_example =
    handle_post_rule-Told true (λ _ _. none) (λ _ _. none) (some one_leaf) (some body) untouched
