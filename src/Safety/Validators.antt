-- ===== src/Safety/Validators.antt =====
-- agent/safety/validators.py (layers L1 and L3 to L6): whether an intent may be enforced.
pub mod Spec
pub mod Breadth
use s_com_control_plane.Base.{
  Bool, List, Option, Text, [], codes, contains, false, if◌then◌else◌, is_empty, is_some, leb,
  length, ltb, none, not, some, strip, text_dec, text_eq, ℕ, ◌&&◌, ◌++◌, ◌==◌, ◌||◌, ◌∷◌, ◌≟◌,
}
use s_com_control_plane.Base.Int.{ℤ, ltb_ℤ}
use s_com_control_plane.Net.{Address, Network, ip_address, ip_network, in_network}
use s_com_control_plane.Topology.{Zone, ip_to_zone}
use s_com_control_plane.Models.{PolicyIntent, drop, value, action_dec, action_eq}
use s_com_control_plane.Policy.{Knowledge, detect_conflict}
use s_com_control_plane.Policy.Sids.{SidInfo, get_sid_info}
use s_com_control_plane.Safety.Guardrails.{GuardError, check_never_block, check_allowed_action}

pub data ValidationError : Type 0 where
  guard : GuardError → ValidationError
  off_target : Text → Text → ValidationError
  unknown_zone : Text → ValidationError
  conflict : Zone × Zone → ValidationError
  action_by_severity : (sid severity : ℕ) → List Text → Text → ValidationError
  must_log_only : (severity sid : ℕ) → ValidationError
  ttl_out_of_range : ℤ → ℤ → ℤ → ValidationError

pub data ValidationWarning : Type 0 where
  short_comment : ValidationWarning

pub record ValidationResult : Type 0 where
  pub errors : List ValidationError
  pub warnings : List ValidationWarning

-- `ValidationResult.ok`
abbrev pub ok : ValidationResult → Bool
ok r = length r.errors == 0

-- `_SEVERITY_RULES.get(severity, {}).get("allowed_actions", set())`
abbrev pub allowed_by_severity : ℕ → List Text
allowed_by_severity severity =
    if severity == 1
    then codes "DROP" ∷ []
    else if severity == 2
    then codes "DROP" ∷ []
    else if severity == 3
    then codes "log_only" ∷ []
    else if severity == 4
    then codes "log_only" ∷ []
    else []

abbrev member : Option Address → Option Network → Bool
member (some a) (some n) = in_network a n
member _ _ = false

-- `_ip_matches_alert_src`: the network of the intent holds the source of the alert.
unfoldable pub ip_matches_alert_src : Text → Text → Bool
unfolding ip_address ip_network
ip_matches_alert_src intent_src_ip alert_src_ip =
    not (is_empty alert_src_ip)
    && member (ip_address (strip alert_src_ip)) (ip_network (strip intent_src_ip))

abbrev pub as_guard : Option GuardError → List ValidationError
as_guard none = []
as_guard (some e) = guard e ∷ []

abbrev pub fail_if : Bool → ValidationError → List ValidationError
fail_if test e = if test then e ∷ [] else []

abbrev pub as_conflict : Option (Zone × Zone) → List ValidationError
as_conflict none = []
as_conflict (some zs) = conflict zs ∷ []

module _ (allowed : List Text) (k : Knowledge) (intent : PolicyIntent) where
  -- L4 and L4b, in the order of the calls.
  unfoldable pub hard_errors : Text → List ValidationError
  unfolding action_dec
  hard_errors alert_src_ip =
      as_guard (check_never_block intent.src_ip intent.dst_ip)
      ++ as_guard (check_allowed_action allowed (value intent.action))
      ++ fail_if
          (intent.action ≟ drop
            && not (is_empty alert_src_ip)
            && not (ip_matches_alert_src intent.src_ip alert_src_ip))
          (off_target intent.src_ip alert_src_ip)

  -- L3
  unfoldable pub zone_errors : List ValidationError
  zone_errors = fail_if (not (is_some (ip_to_zone intent.src_ip))) (unknown_zone intent.src_ip)

  unfoldable pub conflict_errors : ℕ → List ValidationError
  conflict_errors sid =
      if is_empty intent.dst_ip
      then []
      else as_conflict
          (detect_conflict k intent.src_ip intent.dst_ip (value intent.action) (some sid))

  -- L6, for a signature that is known.
  unfoldable pub severity_errors : ℕ → Option SidInfo → List ValidationError
  unfolding text_dec action_dec
  severity_errors sid none = []
  severity_errors sid (some info) =
      fail_if (not (contains (value intent.action) (allowed_by_severity info.severity))) (
        action_by_severity sid info.severity (allowed_by_severity info.severity)
          (value intent.action))
      ++ fail_if (leb 3 info.severity && intent.action ≟ drop) (must_log_only info.severity sid)

  -- L5
  unfoldable pub ttl_errors : ℤ → ℤ → List ValidationError
  unfolding action_dec
  ttl_errors ttl_min ttl_max =
      fail_if
        (intent.action ≟ drop
          && (ltb_ℤ intent.ttl_seconds ttl_min || ltb_ℤ ttl_max intent.ttl_seconds))
        (ttl_out_of_range intent.ttl_seconds ttl_min ttl_max)

  unfoldable pub later_errors : ℕ → ℤ → ℤ → List ValidationError
  later_errors sid ttl_min ttl_max =
      zone_errors
      ++ (conflict_errors sid
          ++ (severity_errors sid (get_sid_info sid) ++ ttl_errors ttl_min ttl_max))

  -- L1
  abbrev pub comment_warnings : List ValidationWarning
  comment_warnings =
      if not (is_empty intent.comment) && ltb (length intent.comment) 10
      then short_comment ∷ []
      else []

  -- A failure of L4 ends the validation.
  unfoldable pub validate_intent : ℕ → ℤ → ℤ → Text → ValidationResult
  validate_intent sid ttl_min ttl_max alert_src_ip = record {
    errors =
        if length (hard_errors alert_src_ip) == 0
        then later_errors sid ttl_min ttl_max
        else hard_errors alert_src_ip;
    warnings = comment_warnings;
  }
