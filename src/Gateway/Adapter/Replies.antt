-- ===== src/Gateway/Adapter/Replies.antt =====
-- What the reply `ok` says of the writes of an OpenConfig edit.
use s_com_control_plane.Base.{
  Bool, List, Option, Text, [], ap, arith, codes, contains, false, if◌then◌else◌, length, none, not,
  or_else, refl, some, suc, text_dec, text_eq, true, ℕ, ◌+◌, ◌<◌, ◌∷◌, ◌≟◌, ◌≡◌, ◌≤◌,
}
use s_com_control_plane.Gateway.Session.{SessionContext}
use s_com_control_plane.Gateway.Pool.{Client, Pool}
use s_com_control_plane.Gateway.Adapter.{
  RuleData, Effects, Problem, valid_actions, valid_protocols, valid_sources, stamped, push_rule,
  push_with, push_through, push_as, replied, routed_client, client_or, is_agent, current_onap_role,
  validate_and_push,
}
use s_com_control_plane.Gateway.Adapter.OpenConfig.{AclSet, entry_data}
use s_com_control_plane.Gateway.Adapter.Edit.{
  openconfig, each, handle_entry, handle_openconfig_acl, handle_edit_config,
}

-- No problem, and one write more; or a problem, and no write.
abbrev pub OneOrNone : Effects → Effects × Option Problem → Type 0
OneOrNone e (e', none) = length e'.sets ≡ length e.sets + 1
OneOrNone e (e', some p) = e'.sets ≡ e.sets

module _ (session : Option SessionContext) (pool : Option Pool) (gnmi_client : Option Client)
    (gnmi_set : Client → RuleData → Option Text) (gnmi_delete : Client → Text → Option Text) where
  replied-OneOrNone :
      (c : Client) (d : RuleData) (o : Option Text) (e : Effects)
      → OneOrNone e (replied session pool gnmi_client gnmi_set gnmi_delete c d o e)
  unfolding replied
  replied-OneOrNone c d none e = omega arith
  replied-OneOrNone c d (some m) e = refl

  push_through-OneOrNone :
      (o : Option Client) (d : RuleData) (e : Effects)
      → OneOrNone e (push_through session pool gnmi_client gnmi_set gnmi_delete o d e)
  unfolding push_through
  push_through-OneOrNone none d e = refl
  push_through-OneOrNone (some c) d e = replied-OneOrNone c d (gnmi_set c d) e

  push_with-OneOrNone :
      (o : Option (Option Client)) (d : RuleData) (e : Effects)
      → OneOrNone e (push_with session pool gnmi_client gnmi_set gnmi_delete o d e)
  unfolding push_with
  push_with-OneOrNone none d e = refl
  push_with-OneOrNone (some r) d e = push_through-OneOrNone (client_or r gnmi_client) d e

  push_rule-OneOrNone :
      (d : RuleData) (e : Effects)
      → OneOrNone e (push_rule session pool gnmi_client gnmi_set gnmi_delete d e)
  unfolding push_rule
  push_rule-OneOrNone d e =
      push_with-OneOrNone
        (routed_client session pool gnmi_client gnmi_set gnmi_delete pool d.src_ip) d e

  if-OneOrNone :
      (b : Bool) (e : Effects) (x y : Effects × Option Problem)
      → OneOrNone e x
      → OneOrNone e y
      → OneOrNone e (if b then x else y)
  if-OneOrNone true e x y hx hy = hx
  if-OneOrNone false e x y hx hy = hy

  push_as-OneOrNone :
      (b : Bool) (d : RuleData) (e : Effects)
      → OneOrNone e (push_as session pool gnmi_client gnmi_set gnmi_delete b d e)
  unfolding push_as text_dec
  push_as-OneOrNone false d e = push_rule-OneOrNone d e
  push_as-OneOrNone true d e =
      if-OneOrNone (d.action ≟ codes "DROP") e _ _ (push_rule-OneOrNone (stamped d) e) refl

  validate_and_push-OneOrNone :
      (d : RuleData) (e : Effects)
      → OneOrNone e (validate_and_push session pool gnmi_client gnmi_set gnmi_delete d e)
  unfolding validate_and_push text_dec
  validate_and_push-OneOrNone d e =
      if-OneOrNone (not (contains d.action valid_actions)) e _ _ refl (
        if-OneOrNone (not (contains d.protocol valid_protocols)) e _ _ refl (
          if-OneOrNone (not (contains d.source valid_sources)) e _ _ refl
            (push_as-OneOrNone (is_agent (current_onap_role session)) d e)))

  -- As many writes as entries, or a problem and fewer.
  abbrev pub AllOrFewer : ℕ → Effects → Effects × Option Problem → Type 0
  AllOrFewer n e (e', none) = length e'.sets ≡ length e.sets + n
  AllOrFewer n e (e', some p) =
      (length e.sets ≤ length e'.sets) × (length e'.sets < length e.sets + n)

  AllOrFewer-shift :
      (n : ℕ) (e e' : Effects) (r : Effects × Option Problem)
      → length e'.sets ≡ length e.sets + 1
      → AllOrFewer n e' r
      → AllOrFewer (suc n) e r
  AllOrFewer-shift n e e' (e'', none) one h = omega arith
  AllOrFewer-shift n e e' (e'', some p) one h = (omega arith, omega arith)

  next-AllOrFewer :
      {A : Type 0} (f : A → Effects → Effects × Option Problem) (rest : List A) (e : Effects)
      (r : Effects × Option Problem)
      → OneOrNone e r
      → ((e' : Effects) → AllOrFewer (length rest) e' (each f rest e'))
      → AllOrFewer
          (suc (length rest))
          e
          (elim r.1 [ some p ↦ (r.0, some p) | none ↦ each f rest r.0 ])
  next-AllOrFewer f rest e (e', none) one h =
      AllOrFewer-shift (length rest) e e' (each f rest e') one (h e')
  next-AllOrFewer f rest e (e', some p) same h =
      let same_length = ap length same in (omega (arith, same_length), omega (arith, same_length))

  each-AllOrFewer :
      {A : Type 0} (f : A → Effects → Effects × Option Problem)
      → ((a : A) (e : Effects) → OneOrNone e (f a e))
      → (xs : List A) (e : Effects) → AllOrFewer (length xs) e (each f xs e)
  each-AllOrFewer f step [] e = omega arith
  each-AllOrFewer f step (a ∷ rest) e =
      next-AllOrFewer f rest e (f a e) (step a e) (each-AllOrFewer f step rest)

  -- For an OpenConfig edit that is no delete: with no problem in the reply there is one write more
  -- for each entry; with a problem there are fewer, and none of those before is taken back.
  pub handle_edit_config-AllOrFewer :
      (s : AclSet) (e : Effects)
      → (or_else s.operation (codes "merge") ≟ codes "delete") ≡ false
      → AllOrFewer
          (length s.entries)
          e
          (handle_edit_config session pool gnmi_client gnmi_set gnmi_delete (openconfig (some s)) e)
  unfolding handle_edit_config handle_openconfig_acl handle_entry text_dec
  handle_edit_config-AllOrFewer s e no_delete = rw no_delete (
      each-AllOrFewer _ (λ entry e'. validate_and_push-OneOrNone (entry_data _ entry) e') s.entries
        e)
