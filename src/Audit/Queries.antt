-- ===== src/Audit/Queries.antt =====
-- The reading of the log in secure-framework/tamper_logger.py: `get_logs`, `get_tampering_events`,
-- `get_logs_by_transaction`, `get_logs_by_user`. `from_file` is the first argument of each; the
-- other parameter is `json.loads`.
use s_com_control_plane.Base.{
  Bool, List, Option, Text, false, if◌then◌else◌, is_empty, keep, none, or_else, some, text_dec,
  text_eq, true, ℕ, ◌==◌, ◌≟◌,
}
use s_com_control_plane.Audit.Entry.{
  Severity, LogEntry, Identity, nobody, has_text, is_set, severity_dec, severity_eq,
}
use s_com_control_plane.Audit.Relevance.{is_tampering_relevant}
use s_com_control_plane.Audit.Logger.{TamperLogger, read_from_file}
use s_com_control_plane.Base.Slices.{take, last}
pub mod Laws

abbrev pub of_type : Option Text → LogEntry → Bool
unfolding text_dec
of_type none e = true
of_type (some t) e = if is_empty t then true else e.fields.event_type ≟ t

abbrev pub of_severity : Option Severity → LogEntry → Bool
unfolding severity_dec
of_severity none e = true
of_severity (some s) e = e.fields.severity ≟ s

-- `logs[-limit:] if from_file else logs[:limit]`, for a limit that is truthy
abbrev pub limited_to : Bool → Option ℕ → List LogEntry → List LogEntry
limited_to from_file none es = es
limited_to from_file (some n) es = if n == 0 then es else if from_file then last n es else take n es

-- The flag that an entry carries; without one, the keyword test.
abbrev flag_or_relevant : Option Bool → LogEntry → Bool
unfolding is_tampering_relevant
flag_or_relevant (some b) e = b
flag_or_relevant none e = is_tampering_relevant e.fields.action e.fields.details e.fields.severity

unfoldable pub indicates_tampering : LogEntry → Bool
unfolding flag_or_relevant
indicates_tampering e = flag_or_relevant e.fields.is_tampering e

-- `log.get("transaction_id") == transaction_id`
abbrev same_transaction : Text → Option Text → Bool
unfolding text_dec
same_transaction t none = false
same_transaction t (some u) = u ≟ t

-- `wanted and have == wanted`
abbrev same_name : Option Text → Option Text → Bool
unfolding text_dec
same_name none have = false
same_name (some w) none = false
same_name (some w) (some h) = if is_empty w then false else h ≟ w

abbrev pub identity_of : LogEntry → Identity
identity_of e = or_else e.fields.user_identity nobody

unfoldable pub is_by_user : Option Text → Option Text → LogEntry → Bool
unfolding same_name
is_by_user cn ip e =
    if same_name cn (identity_of e).cn
    then true
    else if same_name ip (identity_of e).ip
    then true
    else false

module _ (loads : Text → Option LogEntry) where
  unfoldable pub all_logs : Bool → TamperLogger → List LogEntry
  all_logs from_file t = if from_file then read_from_file loads t else t.logs

  unfoldable pub get_logs :
      Bool → Option ℕ → Option Text → Option Severity → TamperLogger → List LogEntry
  unfolding all_logs of_type of_severity
  get_logs from_file limit event_type severity t =
      limited_to from_file limit
        (keep (of_severity severity) (keep (of_type event_type) (all_logs from_file t)))

  unfoldable pub get_tampering_events : Bool → TamperLogger → List LogEntry
  unfolding all_logs
  get_tampering_events from_file t = keep indicates_tampering (all_logs from_file t)

  unfoldable pub get_logs_by_transaction : Text → Bool → TamperLogger → List LogEntry
  unfolding all_logs same_transaction
  get_logs_by_transaction transaction_id from_file t =
      keep (λ (e : LogEntry). same_transaction transaction_id e.fields.transaction_id)
        (all_logs from_file t)

  unfoldable pub get_logs_by_user : Option Text → Option Text → Bool → TamperLogger → List LogEntry
  unfolding all_logs
  get_logs_by_user cn ip from_file t = keep (is_by_user cn ip) (all_logs from_file t)
