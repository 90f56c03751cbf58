-- ===== src/Gateway/Adapter/Laws.antt =====
-- What a client can get written at the devices.
use s_com_control_plane.Base.{
  All, Bool, Bool-cases, List, Option, Option-cases, Text, [], ap, codes, contains, eq_of_≟, false,
  if◌then◌else◌, inl, inr, none, refl, some, subst, sym, text_dec, text_eq, true, ◌∙◌, ◌∷◌, ◌≟◌,
  ◌≡◌,
}
use s_com_control_plane.Gateway.Roles.{OnapRole}
use s_com_control_plane.Gateway.Session.{SessionContext}
use s_com_control_plane.Gateway.Pool.{Client, Pool}
use s_com_control_plane.Gateway.Adapter.{
  RuleData, Effects, Problem, Push, rule_path, clean, valid_actions, valid_protocols, valid_sources,
  stamped, push_rule, push_with, push_as, replied, routed_client, client_or, is_agent,
  current_onap_role, validate_and_push, delete_rule, delete_at, delete_all, problem_of, clients_or,
  pool_clients, push_through, text_or,
}
use s_com_control_plane.Gateway.Adapter.OpenConfig.{RuleElem, AclSet, rule_data, entry_data}
use s_com_control_plane.Gateway.Adapter.Edit.{
  Payload, no_config, unrecognised, nos_acl, openconfig, each, push_read, handle_named, handle_rule,
  handle_nos_acl, handle_entry, handle_openconfig_acl, handle_edit_config, handle_id,
}

-- What is asked of the rule of an agent, and of no other.
abbrev pub AsAgent : Bool → RuleData → Type 0
AsAgent false d = Unit
AsAgent true d = (d.action ≡ codes "DROP") × (d.source ≡ codes "agent")

-- A rule that may be written for a client of the role `r`.
pub record Allowed (r : Option OnapRole) (d : RuleData) : Type 0 where
  pub action_known : contains d.action valid_actions ≡ true
  pub protocol_known : contains d.protocol valid_protocols ≡ true
  pub source_known : contains d.source valid_sources ≡ true
  pub as_agent : AsAgent (is_agent r) d

-- An update that carries such a rule, at the rule's path.
abbrev pub Writes : Option OnapRole → Push → Type 0
Writes r p = (d : RuleData) × (p.path ≡ rule_path d.rule_id) × (p.body ≡ clean d) × Allowed r d

module _ (session : Option SessionContext) (pool : Option Pool) (gnmi_client : Option Client)
    (gnmi_set : Client → RuleData → Option Text) (gnmi_delete : Client → Text → Option Text) where
  abbrev role : Option OnapRole
  unfolding current_onap_role
  role = current_onap_role session

  abbrev Good : Effects → Type 0
  Good e = All (Writes role) e.sets

  replied-Good :
      (c : Client) (d : RuleData) (o : Option Text) (e : Effects)
      → Allowed role d
      → Good e
      → Good (replied session pool gnmi_client gnmi_set gnmi_delete c d o e).0
  unfolding replied
  replied-Good c d none e a h = ((d, refl, refl, a), h)
  replied-Good c d (some m) e a h = h

  push_through-Good :
      (o : Option Client) (d : RuleData) (e : Effects)
      → Allowed role d
      → Good e
      → Good (push_through session pool gnmi_client gnmi_set gnmi_delete o d e).0
  unfolding push_through
  push_through-Good none d e a h = h
  push_through-Good (some c) d e a h = replied-Good c d (gnmi_set c d) e a h

  push_with-Good :
      (o : Option (Option Client)) (d : RuleData) (e : Effects)
      → Allowed role d
      → Good e
      → Good (push_with session pool gnmi_client gnmi_set gnmi_delete o d e).0
  unfolding push_with
  push_with-Good none d e a h = h
  push_with-Good (some routed) d e a h = push_through-Good (client_or routed gnmi_client) d e a h

  push_rule-Good :
      (d : RuleData) (e : Effects)
      → Allowed role d
      → Good e
      → Good (push_rule session pool gnmi_client gnmi_set gnmi_delete d e).0
  unfolding push_rule
  push_rule-Good d e a h =
      push_with-Good (routed_client session pool gnmi_client gnmi_set gnmi_delete pool d.src_ip) d e
        a h

  push_as-Good :
      (b : Bool) (d : RuleData) (e : Effects)
      → is_agent role ≡ b
      → contains d.action valid_actions ≡ true
      → contains d.protocol valid_protocols ≡ true
      → contains d.source valid_sources ≡ true
      → Good e
      → Good (push_as session pool gnmi_client gnmi_set gnmi_delete b d e).0
  unfolding push_as text_dec
  push_as-Good false d e r va vp vs h =
      push_rule-Good d e
        (record {
          action_known = va;
          protocol_known = vp;
          source_known = vs;
          as_agent = subst (λ b. AsAgent b d) (sym r) tt;
        })
        h
  push_as-Good true d e r va vp vs h = elim (Bool-cases (d.action ≟ codes "DROP")) [
    | inl same ↦ rw same (
        push_rule-Good (stamped d) e
          (record {
            action_known = va;
            protocol_known = vp;
            source_known = refl;
            as_agent =
                subst (λ b. AsAgent b (stamped d)) (sym r)
                  (eq_of_≟ d.action (codes "DROP") same, refl);
          })
          h)
    | inr other ↦ rw other h
  ]

  checked-Good :
      (d : RuleData) (e : Effects)
      → Good e
      → Good (validate_and_push session pool gnmi_client gnmi_set gnmi_delete d e).0
  unfolding validate_and_push text_dec
  checked-Good d e h = elim (Bool-cases (contains d.action valid_actions)) [
    | inr bad ↦ rw bad h
    | inl va ↦ elim (Bool-cases (contains d.protocol valid_protocols)) [
      | inr bad ↦ rw (va, bad) h
      | inl vp ↦ elim (Bool-cases (contains d.source valid_sources)) [
        | inr bad ↦ rw (va, vp, bad) h
        | inl vs ↦ rw (va, vp, vs) (push_as-Good (is_agent role) d e refl va vp vs h)
      ]
    ]
  ]

  delete_all-sets :
      (cs : List Client) (t : Text) (e : Effects)
      → (delete_all session pool gnmi_client gnmi_set gnmi_delete cs t e).0.sets ≡ e.sets
  delete_all-sets [] t e = refl
  delete_all-sets (c ∷ cs) t e = elim (Option-cases (gnmi_delete c t)) [
    | inl n ↦ rw (delete_all, n) (delete_all-sets cs t _)
    | inr (m, s) ↦ rw (delete_all, s) (delete_all-sets cs t e)
  ]

  problem_of-sets : (r : Effects × List (Text × Text)) → (problem_of r).0 ≡ r.0
  problem_of-sets (e, []) = refl
  problem_of-sets (e, m ∷ ms) = refl

  delete_at-sets :
      (cs : List Client) (t : Text) (e : Effects)
      → (delete_at session pool gnmi_client gnmi_set gnmi_delete cs t e).0.sets ≡ e.sets
  delete_at-sets [] t e = refl
  delete_at-sets (c ∷ cs) t e =
      ap (λ (x : Effects). x.sets) (problem_of-sets _) ∙ delete_all-sets (c ∷ cs) t e

  delete_rule-Good :
      (t : Text) (e : Effects)
      → Good e
      → Good (delete_rule session pool gnmi_client gnmi_set gnmi_delete t e).0
  unfolding delete_rule
  delete_rule-Good t e h =
      subst (All (Writes role))
        (sym (delete_at-sets (clients_or (pool_clients pool) gnmi_client) t e)) h

  push_read-Good :
      (o : Option RuleData) (e : Effects)
      → Good e
      → Good (push_read session pool gnmi_client gnmi_set gnmi_delete o e).0
  unfolding push_read
  push_read-Good none e h = h
  push_read-Good (some d) e h = checked-Good d e h

  if-Good :
      (b : Bool) (x y : Effects × Option Problem)
      → Good x.0
      → Good y.0
      → Good (if b then x else y).0
  if-Good true x y hx hy = hx
  if-Good false x y hx hy = hy

  handle_named-Good :
      (t : Text) (r : RuleElem) (e : Effects)
      → Good e
      → Good (handle_named session pool gnmi_client gnmi_set gnmi_delete t r e).0
  unfolding handle_named text_dec
  handle_named-Good t r e h =
      if-Good _ _ _ (delete_rule-Good t e h) (push_read-Good (rule_data t r) e h)

  handle_id-Good :
      (t : Text) (r : RuleElem) (e : Effects)
      → Good e
      → Good (handle_id session pool gnmi_client gnmi_set gnmi_delete t r e).0
  unfolding handle_id
  handle_id-Good [] r e h = h
  handle_id-Good (c ∷ s) r e h = handle_named-Good (c ∷ s) r e h

  handle_rule-Good :
      (r : RuleElem) (e : Effects)
      → Good e
      → Good (handle_rule session pool gnmi_client gnmi_set gnmi_delete r e).0
  unfolding handle_rule
  handle_rule-Good r e h = handle_id-Good (text_or r.rule_id []) r e h

  -- The loop keeps what each round keeps.
  each-Good :
      {A : Type 0} (f : A → Effects → Effects × Option Problem)
      → ((a : A) (e : Effects) → Good e → Good (f a e).0)
      → (xs : List A) (e : Effects) → Good e
      → Good (each f xs e).0
  each-Good f step [] e h = h
  each-Good f step (a ∷ rest) e h = elim (Option-cases (f a e).1) [
    | inl n ↦ rw (each, n) (each-Good f step rest (f a e).0 (step a e h))
    | inr (p, s) ↦ rw (each, s) (step a e h)
  ]

  handle_openconfig_acl-Good :
      (o : Option AclSet) (e : Effects)
      → Good e
      → Good (handle_openconfig_acl session pool gnmi_client gnmi_set gnmi_delete o e).0
  unfolding handle_openconfig_acl handle_entry text_dec
  handle_openconfig_acl-Good none e h = h
  handle_openconfig_acl-Good (some s) e h =
      if-Good _ _ _ (delete_rule-Good _ e h)
        (each-Good _ (λ entry e'. checked-Good (entry_data _ entry) e') s.entries e h)

  -- Say that an update is sound if it carries, at the rule's path, a rule with a known action,
  -- protocol and source, which for a client of the AGENT role is a DROP stamped with the source
  -- "agent". Whatever an edit-config contains, native or OpenConfig, and whatever the devices answer:
  -- if all updates written before are sound, so are all after it.
  pub handle_edit_config-Writes :
      (p : Payload) (e : Effects)
      → All (Writes (current_onap_role session)) e.sets
      → All
          (Writes (current_onap_role session))
          (handle_edit_config session pool gnmi_client gnmi_set gnmi_delete p e).0.sets
  unfolding handle_edit_config handle_nos_acl
  handle_edit_config-Writes no_config e h = h
  handle_edit_config-Writes unrecognised e h = h
  handle_edit_config-Writes (nos_acl rules) e h = each-Good _ handle_rule-Good rules e h
  handle_edit_config-Writes (openconfig s) e h = handle_openconfig_acl-Good s e h
