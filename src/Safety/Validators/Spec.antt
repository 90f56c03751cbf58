-- ===== src/Safety/Validators/Spec.antt =====
-- What an accepted intent is, in both directions.
use s_com_control_plane.Base.{
  List, Option, Text, [], arith, codes, false, if◌then◌else◌, inl, inr, is_empty, is_some, length,
  none, refl, some, true, ℕ, ◌++◌, ◌==◌, ◌↔◌, ◌∷◌, ◌≡◌, ◌⊎◌,
}
use s_com_control_plane.Base.Int.{ℤ, ◌≤ℤ◌}
use s_com_control_plane.Topology.{ip_to_zone}
use s_com_control_plane.Models.{PolicyAction, PolicyIntent, drop, log_only, hold, reject, value}
use s_com_control_plane.Policy.{Knowledge, detect_conflict}
use s_com_control_plane.Policy.Sids.{SidInfo, get_sid_info}
use s_com_control_plane.Safety.Guardrails.{
  is_protected_ip, check_never_block, check_allowed_action, authored_actions,
}
use s_com_control_plane.Safety.Validators.{
  ok, ip_matches_alert_src, validate_intent, hard_errors, later_errors, conflict_errors,
  zone_errors, severity_errors, ttl_errors,
}

-- The severity of a known signature fits the action: 1 and 2 are dropped, 3 and 4 are logged.
abbrev pub FitsSeverity : PolicyAction → Option SidInfo → Type 0
FitsSeverity a none = Unit
FitsSeverity drop (some info) = (info.severity ≡ 1) ⊎ (info.severity ≡ 2)
FitsSeverity log_only (some info) = (info.severity ≡ 3) ⊎ (info.severity ≡ 4)
FitsSeverity _ (some info) = ⊥

pub record AcceptsDrop (k : Knowledge) (i : PolicyIntent) (sid : ℕ) (ttl_min ttl_max : ℤ)
    (alert_src_ip : Text) : Type 0 where
  pub src_safe : is_protected_ip i.src_ip ≡ false
  pub dst_safe : is_protected_ip i.dst_ip ≡ false
  pub on_target : (alert_src_ip ≡ []) ⊎ (ip_matches_alert_src i.src_ip alert_src_ip ≡ true)
  pub zone_known : is_some (ip_to_zone i.src_ip) ≡ true
  pub no_conflict :
      (i.dst_ip ≡ []) ⊎ (detect_conflict k i.src_ip i.dst_ip (codes "DROP") (some sid) ≡ none)
  pub severity_fits : FitsSeverity drop (get_sid_info sid)
  pub ttl_low : ttl_min ≤ℤ i.ttl_seconds
  pub ttl_high : i.ttl_seconds ≤ℤ ttl_max

no_length : {A : Type 0} (xs : List A) → (length xs == 0) ≡ true → xs ≡ []
no_length [] h = refl
no_length (x ∷ xs) h = ground arith

append_empty : {A : Type 0} (xs ys : List A) → xs ++ ys ≡ [] → (xs ≡ []) × (ys ≡ [])
append_empty [] ys h = (refl, h)
append_empty (x ∷ xs) ys h = cc

two_stages :
    {A : Type 0} (xs ys : List A)
    → (length (if length xs == 0 then ys else xs) == 0) ≡ true
    → (xs ≡ []) × (ys ≡ [])
two_stages [] ys h = (refl, no_length ys h)
two_stages (x ∷ xs) ys h = ground arith

pub no_text : is_protected_ip [] ≡ false
unfolding is_protected_ip
no_text = refl

empty_text : (s : Text) → is_empty s ≡ true → s ≡ []
empty_text [] h = refl
empty_text (c ∷ s) h = cc

never_block_none :
    (src dst : Text)
    → check_never_block src dst ≡ none
    → (is_protected_ip src ≡ false) × (is_protected_ip dst ≡ false)
unfolding check_never_block
never_block_none src [] h = ground (arith, no_text)
never_block_none src (c ∷ dst) h = ground arith

action_none :
    (a : PolicyAction)
    → check_allowed_action authored_actions (value a) ≡ none
    → (a ≡ drop) ⊎ (a ≡ log_only)
unfolding check_allowed_action
action_none drop h = inl refl
action_none log_only h = inr refl
action_none hold h = cc
action_none reject h = cc

module _ (k : Knowledge) (i : PolicyIntent) (sid : ℕ) (ttl_min ttl_max : ℤ) (alert_src_ip : Text)
    (d : i.action ≡ drop) where
  hard_sound :
      hard_errors authored_actions k i alert_src_ip ≡ []
      → (is_protected_ip i.src_ip ≡ false)
        × (is_protected_ip i.dst_ip ≡ false)
        × ((alert_src_ip ≡ []) ⊎ (ip_matches_alert_src i.src_ip alert_src_ip ≡ true))
  unfolding hard_errors
  hard_sound h = ground (arith, never_block_none i.src_ip i.dst_ip, empty_text alert_src_ip)

  zone_sound : zone_errors authored_actions k i ≡ [] → is_some (ip_to_zone i.src_ip) ≡ true
  unfolding zone_errors
  zone_sound h = ground arith

  conflict_sound :
      conflict_errors authored_actions k i sid ≡ []
      → (i.dst_ip ≡ []) ⊎ (detect_conflict k i.src_ip i.dst_ip (codes "DROP") (some sid) ≡ none)
  unfolding conflict_errors
  conflict_sound h = ground (arith, empty_text i.dst_ip)

  severity_sound :
      (info : Option SidInfo)
      → severity_errors authored_actions k i sid info ≡ []
      → FitsSeverity drop info
  unfolding severity_errors
  severity_sound none h = tt
  severity_sound (some info) h = ground arith

  ttl_sound :
      ttl_errors authored_actions k i ttl_min ttl_max ≡ []
      → (ttl_min ≤ℤ i.ttl_seconds) × (i.ttl_seconds ≤ℤ ttl_max)
  unfolding ttl_errors
  ttl_sound h = ground arith

  zone_complete : is_some (ip_to_zone i.src_ip) ≡ true → zone_errors authored_actions k i ≡ []
  unfolding zone_errors
  zone_complete h = ground arith

  conflict_complete :
      (i.dst_ip ≡ []) ⊎ (detect_conflict k i.src_ip i.dst_ip (codes "DROP") (some sid) ≡ none)
      → conflict_errors authored_actions k i sid ≡ []
  unfolding conflict_errors
  conflict_complete h = ground arith

  severity_complete :
      (info : Option SidInfo)
      → FitsSeverity drop info
      → severity_errors authored_actions k i sid info ≡ []
  unfolding severity_errors
  severity_complete none h = refl
  severity_complete (some info) h = ground arith

  ttl_complete :
      ttl_min ≤ℤ i.ttl_seconds
      → i.ttl_seconds ≤ℤ ttl_max
      → ttl_errors authored_actions k i ttl_min ttl_max ≡ []
  unfolding ttl_errors
  ttl_complete h h' = ground arith

  hard_complete :
      is_protected_ip i.src_ip ≡ false
      → is_protected_ip i.dst_ip ≡ false
      → (alert_src_ip ≡ []) ⊎ (ip_matches_alert_src i.src_ip alert_src_ip ≡ true)
      → hard_errors authored_actions k i alert_src_ip ≡ []
  unfolding hard_errors check_never_block check_allowed_action
  hard_complete h h' t = ground arith

  sound :
      ok (validate_intent authored_actions k i sid ttl_min ttl_max alert_src_ip) ≡ true
      → AcceptsDrop k i sid ttl_min ttl_max alert_src_ip
  unfolding validate_intent later_errors
  sound h =
      let zone_part = zone_errors authored_actions k i in
      let conflict_part = conflict_errors authored_actions k i sid in
      let severity_part = severity_errors authored_actions k i sid (get_sid_info sid) in
      let ttl_part = ttl_errors authored_actions k i ttl_min ttl_max in
      let later_part = zone_part ++ (conflict_part ++ (severity_part ++ ttl_part)) in
      let (hard, later) = two_stages (hard_errors authored_actions k i alert_src_ip) later_part h in
      let (src, dst, target) = hard_sound hard in
      let (zone, rest) =
        append_empty zone_part (conflict_part ++ (severity_part ++ ttl_part)) later in
      let (conflict, rest') = append_empty conflict_part (severity_part ++ ttl_part) rest in
      let (severity, ttl) = append_empty severity_part ttl_part rest' in
      let (low, high) = ttl_sound ttl in
      record {
        src_safe = src;
        dst_safe = dst;
        on_target = target;
        zone_known = zone_sound zone;
        no_conflict = conflict_sound conflict;
        severity_fits = severity_sound (get_sid_info sid) severity;
        ttl_low = low;
        ttl_high = high;
      }

  complete :
      AcceptsDrop k i sid ttl_min ttl_max alert_src_ip
      → ok (validate_intent authored_actions k i sid ttl_min ttl_max alert_src_ip) ≡ true
  unfolding validate_intent later_errors
  complete a = rw (
    hard_complete a.src_safe a.dst_safe a.on_target,
    zone_complete a.zone_known,
    conflict_complete a.no_conflict,
    severity_complete (get_sid_info sid) a.severity_fits,
    ttl_complete a.ttl_low a.ttl_high,
  )

  -- Under the authored list of actions, a DROP passes the validation exactly when its source and
  -- destination are not protected, its network holds the source of the alert if there is one, its
  -- zone is known, it has no destination or is no conflict with the policy, the severity of the
  -- signature, if that is known, is 1 or 2, and its time to live is in range, with reasoning steps or
  -- without.
  pub validate_intent-drop :
      (ok (validate_intent authored_actions k i sid ttl_min ttl_max alert_src_ip) ≡ true)
      ↔ AcceptsDrop k i sid ttl_min ttl_max alert_src_ip
  validate_intent-drop = (sound, complete)
