-- ===== src/Gateway/Rest/OneUpdate.antt =====
-- A POST writes at one device at most.
use s_com_control_plane.Base.{
  Bool, Bool-cases, Option, Option-cases, Text, [], contains, inl, inr, is_empty, none, not, refl,
  some, text_eq, ◌∙◌, ◌∷◌, ◌≡◌, ◌⊎◌,
}
use s_com_control_plane.Gateway.Roles.{SonicRole}
use s_com_control_plane.Gateway.Pool.{Client, Pool, get_any_client, get_client_by_key, ip_to_leaf}
use s_com_control_plane.Gateway.Adapter.{RuleData, clean, rule_path, valid_actions}
use s_com_control_plane.Gateway.Rest.{
  Effects, RuleBody, action_of, handle_post_rule, leaf_or_any, member_or, one_client, post_body,
  push_all, push_at, push_reply, rule_clients, rule_data,
}
use s_com_control_plane.Gateway.Rest.Laws.{logged-sets}

-- No update, or one that carries the rule.
abbrev pub OneUpdate : RuleData → Effects → Effects → Type 0
OneUpdate d e e' =
    (e'.sets ≡ e.sets)
    ⊎ ((host : Text) × (e'.sets
          ≡ record { host = host; path = rule_path d.rule_id; body = clean d } ∷ e.sets))

module _ (has_log : Bool) (gnmi_set : Client → RuleData → Option Text)
    (gnmi_delete : Client → Text → Option Text) where
  push_one-OneUpdate :
      (c : Client) (d : RuleData) (e : Effects)
      → OneUpdate d e (push_at has_log gnmi_set gnmi_delete (some (c ∷ [])) d e).0
  unfolding push_at push_all push_reply
  push_one-OneUpdate c d e = elim (Option-cases (gnmi_set c d)) [
    | inl n ↦
        rw (push_at, push_all, push_reply, n)
          (inr (c.host, logged-sets has_log _ _ ∙ rw (push_all, n) refl))
    | inr (m, s) ↦ rw (push_at, push_all, push_reply, s) (inl (rw (push_all, s) refl))
  ]

  push_list-OneUpdate :
      (o : Option Client) (d : RuleData) (e : Effects)
      → OneUpdate d e (push_at has_log gnmi_set gnmi_delete (some (one_client o)) d e).0
  unfolding push_at
  push_list-OneUpdate none d e = inl refl
  push_list-OneUpdate (some c) d e = push_one-OneUpdate c d e

  -- A rule has one client or none.
  push_leaf-OneUpdate :
      (o : Option Text) (p : Pool) (d : RuleData) (e : Effects)
      → OneUpdate d e (push_at has_log gnmi_set gnmi_delete (some (leaf_or_any o p)) d e).0
  unfolding leaf_or_any
  push_leaf-OneUpdate none p d e = push_list-OneUpdate (get_any_client SonicRole.admin p) d e
  push_leaf-OneUpdate (some leaf) p d e =
      push_list-OneUpdate (get_client_by_key SonicRole.admin leaf p) d e

  push_clients-OneUpdate :
      (src : Text) (p : Pool) (d : RuleData) (e : Effects)
      → OneUpdate d e (push_at has_log gnmi_set gnmi_delete (rule_clients src p) d e).0
  unfolding rule_clients push_at
  push_clients-OneUpdate [] p d e = push_leaf-OneUpdate none p d e
  push_clients-OneUpdate (c ∷ s) p d e = elim (Option-cases (ip_to_leaf (c ∷ s))) [
    | inl n ↦ rw (n, push_at) (inl refl)
    | inr (leaf, s') ↦ rw (s', push_at) (push_leaf-OneUpdate leaf p d e)
  ]

  post_body-OneUpdate :
      (p : Pool) (b : RuleBody) (e : Effects)
      → OneUpdate (rule_data b) e (post_body has_log gnmi_set gnmi_delete p b e).0
  unfolding post_body
  post_body-OneUpdate p b e = elim (Bool-cases (is_empty (member_or b.rule_id []))) [
    | inl h ↦ rw h (inl refl)
    | inr named ↦ elim (Bool-cases (not (contains (action_of b) valid_actions))) [
      | inl bad ↦ rw (named, bad) (inl refl)
      | inr fine ↦ rw (named, fine) (push_clients-OneUpdate (rule_data b).src_ip p (rule_data b) e)
    ]
  ]

  pub handle_post_rule-OneUpdate :
      (p : Option Pool) (b : RuleBody) (e : Effects)
      → OneUpdate (rule_data b) e (handle_post_rule has_log gnmi_set gnmi_delete p (some b) e).0
  unfolding handle_post_rule
  handle_post_rule-OneUpdate none b e = inl refl
  handle_post_rule-OneUpdate (some p) b e = post_body-OneUpdate p b e
