-- ===== src/Gateway/Rest/Laws.antt =====
-- What the REST interface gets written at the devices, against what its reply says.
use s_com_control_plane.Base.{
  Bool, Bool-cases, List, Option, Option-cases, Text, [], ap, arith, contains, false, inl, inr,
  is_empty, length, none, refl, some, text_eq, true, ◌+◌, ◌∙◌, ◌∷◌, ◌≡◌, ◌≤◌,
}
use s_com_control_plane.Base.Dict.{values}
use s_com_control_plane.Gateway.Roles.{SonicRole}
use s_com_control_plane.Gateway.Pool.{Client, Pool, get_client_by_key}
use s_com_control_plane.Gateway.Adapter.{RuleData, Push, Value, valid_actions, clean, rule_path}
use s_com_control_plane.Gateway.Rest.{
  RuleBody, Effects, LogEvent, Reply, error, errors, pushed, deleted, raised, rule_pushed, logged,
  rule_data, rule_clients, action_of, member_or, push_all, push_reply, push_at, post_body,
  handle_post_rule, dropped, delete_all, delete_reply, handle_delete_rule, taken, rule_deleted,
}

-- The updates with an update of each host, in order.
abbrev pub written : Text → List (Text × Value) → List Text → List Push → List Push
written rule_id body [] s = s
written rule_id body (h ∷ hs) s =
    written rule_id body hs (record { host = h; path = rule_path rule_id; body = body } ∷ s)

-- A rule that the interface may write.
abbrev pub Checked : Text → List (Text × Value) → Type 0
unfolding clean
Checked rule_id body =
    (d : RuleData) × (d.rule_id ≡ rule_id)
    × (clean d ≡ body)
    × (contains d.action valid_actions ≡ true)
    × (is_empty rule_id ≡ false)

-- Where the reply names hosts, there is one, and they are written to, and else nobody is.
abbrev pub Told : Effects → Effects × Reply → Type 0
Told e (e', pushed rule_id hosts body ms) =
    (e'.sets ≡ written rule_id body hosts e.sets) × (1 ≤ length hosts) × Checked rule_id body
Told e (e', error n t) = e'.sets ≡ e.sets
Told e (e', errors ms) = e'.sets ≡ e.sets
Told e (e', deleted t ls ms) = e'.sets ≡ e.sets
Told e (e', raised) = e'.sets ≡ e.sets

pub logged-sets : (b : Bool) (v : LogEvent) (e : Effects) → (logged b v e).sets ≡ e.sets
logged-sets true v e = refl
logged-sets false v e = refl

-- The reply to a DELETE names as many LEAFs as deletions were made; nothing was written.
abbrev pub Counted : Effects → Effects × Reply → Type 0
Counted e (e', deleted t ls ms) = length e'.deletes ≡ length ls + length e.deletes
Counted e (e', error n t) = e' ≡ e
Counted e (e', errors ms) = length e'.deletes ≡ length e.deletes
Counted e (e', pushed t hs body ms) = ⊥
Counted e (e', raised) = ⊥

logged-deletes : (b : Bool) (v : LogEvent) (e : Effects) → (logged b v e).deletes ≡ e.deletes
logged-deletes true v e = refl
logged-deletes false v e = refl

module _ (has_log : Bool) (gnmi_set : Client → RuleData → Option Text)
    (gnmi_delete : Client → Text → Option Text) where
  push_all-written :
      (cs : List Client) (d : RuleData) (e : Effects)
      → (push_all has_log gnmi_set gnmi_delete cs d e).0.sets
        ≡ written d.rule_id (clean d) (push_all has_log gnmi_set gnmi_delete cs d e).1.0 e.sets
  unfolding push_all taken
  push_all-written [] d e = refl
  push_all-written (c ∷ cs) d e = elim (Option-cases (gnmi_set c d)) [
    | inl n ↦ rw (push_all, n) (push_all-written cs d _)
    | inr (m, s) ↦ rw (push_all, s) (push_all-written cs d e)
  ]

  length-push_all :
      (cs : List Client) (d : RuleData) (e : Effects)
      → length (push_all has_log gnmi_set gnmi_delete cs d e).1.0
          + length (push_all has_log gnmi_set gnmi_delete cs d e).1.1
        ≡ length cs
  unfolding push_all
  length-push_all [] d e = omega arith
  length-push_all (c ∷ cs) d e = elim (Option-cases (gnmi_set c d)) [
    | inl n ↦
        let rest = length-push_all cs d (taken has_log gnmi_set gnmi_delete c d e) in
        rw (push_all, n) (omega arith)
    | inr (m, s) ↦ let rest = length-push_all cs d e in rw (push_all, s) (omega arith)
  ]

  push_reply-Told :
      (d : RuleData) (e : Effects) (r : Effects × (List Text × List (Text × Text)))
      → contains d.action valid_actions ≡ true
      → is_empty d.rule_id ≡ false
      → r.0.sets ≡ written d.rule_id (clean d) r.1.0 e.sets
      → 1 ≤ length r.1.0 + length r.1.1
      → Told e (push_reply has_log gnmi_set gnmi_delete d r)
  unfolding push_reply
  push_reply-Told d e (e', ([], m ∷ ms)) a i w l = w
  push_reply-Told d e (e', ([], [])) a i w l =
      (logged-sets has_log (rule_pushed d.rule_id []) e' ∙ w, omega arith, (d, refl, refl, a, i))
  push_reply-Told d e (e', (h ∷ hs, ms)) a i w l = (
    logged-sets has_log (rule_pushed d.rule_id (h ∷ hs)) e' ∙ w,
    omega arith,
    (d, refl, refl, a, i),
  )

  push_at-Told :
      (o : Option (List Client)) (d : RuleData) (e : Effects)
      → contains d.action valid_actions ≡ true
      → is_empty d.rule_id ≡ false
      → Told e (push_at has_log gnmi_set gnmi_delete o d e)
  unfolding push_at
  push_at-Told none d e a i = refl
  push_at-Told (some []) d e a i = refl
  push_at-Told (some (c ∷ cs)) d e a i =
      let count = length-push_all (c ∷ cs) d e in
      push_reply-Told d e (push_all has_log gnmi_set gnmi_delete (c ∷ cs) d e) a i
        (push_all-written (c ∷ cs) d e) (omega arith)

  post_body-Told :
      (p : Pool) (b : RuleBody) (e : Effects)
      → Told e (post_body has_log gnmi_set gnmi_delete p b e)
  unfolding post_body rule_data
  post_body-Told p b e = elim (Bool-cases (is_empty (member_or b.rule_id []))) [
    | inl h ↦ rw h refl
    | inr named ↦ elim (Bool-cases (contains (action_of b) valid_actions)) [
      | inl known ↦
          rw (named, known)
            (push_at-Told (rule_clients (rule_data b).src_ip p) (rule_data b) e known named)
      | inr h ↦ rw (named, h) refl
    ]
  ]

  -- A POST of a rule that is answered with 201 names at least one host, each of them took the
  -- update of the reply's rule at the rule's path, in order, and nobody else did; the rule has an
  -- id and a known action. After any other reply no update was written.
  pub handle_post_rule-Told :
      (p : Option Pool) (b : Option RuleBody) (e : Effects)
      → Told e (handle_post_rule has_log gnmi_set gnmi_delete p b e)
  unfolding handle_post_rule
  handle_post_rule-Told none b e = refl
  handle_post_rule-Told (some p) none e = refl
  handle_post_rule-Told (some p) (some b) e = post_body-Told p b e

  delete_all-deletes :
      (leaves : List Text) (t : Text) (p : Pool) (e : Effects)
      → length (delete_all has_log gnmi_set gnmi_delete leaves t p e).0.deletes
        ≡ length (delete_all has_log gnmi_set gnmi_delete leaves t p e).1.0 + length e.deletes
  unfolding delete_all
  delete_all-deletes [] t p e = omega arith
  delete_all-deletes (leaf ∷ leaves) t p e =
      elim (Option-cases (get_client_by_key SonicRole.admin leaf p)) [
        | inl n ↦ rw (delete_all, n) (delete_all-deletes leaves t p e)
        | inr (c, s) ↦ elim (Option-cases (gnmi_delete c t)) [
          | inl n ↦
              let rest =
                delete_all-deletes leaves t p (dropped has_log gnmi_set gnmi_delete c t e) in
              rw (delete_all, s, n) (omega arith)
          | inr (m, s') ↦ rw (delete_all, s, s') (delete_all-deletes leaves t p e)
        ]
      ]

  delete_reply-Counted :
      (t : Text) (e : Effects) (r : Effects × (List Text × List (Text × Text)))
      → length r.0.deletes ≡ length r.1.0 + length e.deletes
      → Counted e (delete_reply has_log gnmi_set gnmi_delete t r)
  delete_reply-Counted t e (e', ([], m ∷ ms)) h = omega arith
  delete_reply-Counted t e (e', ([], [])) h =
      ap length (logged-deletes has_log (rule_deleted t []) e') ∙ h
  delete_reply-Counted t e (e', (l ∷ ls, ms)) h =
      ap length (logged-deletes has_log (rule_deleted t (l ∷ ls)) e') ∙ h

  -- A DELETE of a rule is answered with as many LEAFs as took the deletion, none where no LEAF is
  -- connected, or with the errors, and then no LEAF took it.
  handle_delete_rule-Counted :
      (p : Option Pool) (t : Text) (e : Effects)
      → Counted e (handle_delete_rule has_log gnmi_set gnmi_delete p t e)
  unfolding handle_delete_rule
  handle_delete_rule-Counted none t e = refl
  handle_delete_rule-Counted (some p) t e =
      delete_reply-Counted t e (delete_all has_log gnmi_set gnmi_delete (values p.leaves) t p e)
        (delete_all-deletes (values p.leaves) t p e)
