-- ===== src/Audit/Report.antt =====
-- `generate_audit_report` of secure-framework/tamper_logger.py. The parameters are the HMAC of a
-- text under the key, the JSON of an entry without its signature, and `json.loads`.
use s_com_control_plane.Base.{
  Bool, Eq, List, Option, Text, [], codes, if◌then◌else◌, is_empty, length, none, or_else, some,
  text_dec, text_eq, ℕ, ◌++◌, ◌+◌, ◌∷◌, ◌≟◌,
}
use s_com_control_plane.Base.Dict.{Dict, lookup, insert}
use s_com_control_plane.Audit.Entry.{
  Severity, Fields, LogEntry, Identity, has_text, is_set, severity_dec, severity_eq,
}
use s_com_control_plane.Audit.Logger.{TamperLogger, verify_log_integrity}
use s_com_control_plane.Audit.Queries.{identity_of, all_logs}
use s_com_control_plane.Base.Slices.{take, last}
pub mod Laws

pub record CriticalEvent : Type 0 where
  pub timestamp : Text
  pub action : Text
  pub user : Text
  pub details : Text

-- The report, without the time at which it is made.
pub record AuditReport : Type 0 where
  pub total_events : ℕ
  pub tampering_events : ℕ
  pub access_denials : ℕ
  pub by_user : Dict Text ℕ
  pub by_action : Dict Text ℕ
  pub by_severity : Dict Severity ℕ
  pub integrity_verified : ℕ
  pub integrity_failed : ℕ
  pub recent_critical_events : List CriticalEvent

abbrev first_text : Option Text → Text → Text
first_text none other = other
first_text (some t) other = if is_empty t then other else t

-- `identity.get("cn") or identity.get("ip") or "unknown"`
unfoldable pub user_key : LogEntry → Text
user_key e = first_text (identity_of e).cn (first_text (identity_of e).ip (codes "unknown"))

-- `if k not in d: d[k] = 0`, then `d[k] += 1`
abbrev pub tally {ℓ} : {K : Type ℓ} ⦃e : Eq K⦄ → K → Dict K ℕ → Dict K ℕ
tally k d = insert k (or_else (lookup k d) 0 + 1) d

abbrev count_if : Bool → ℕ → ℕ
count_if b n = if b then n + 1 else n

abbrev empty_report : ℕ → AuditReport
empty_report total = record {
  total_events = total;
  tampering_events = 0;
  access_denials = 0;
  by_user = [];
  by_action = [];
  by_severity = [];
  integrity_verified = 0;
  integrity_failed = 0;
  recent_critical_events = [];
}

unfoldable pub critical_event : LogEntry → CriticalEvent
critical_event e = record {
  timestamp = e.fields.timestamp;
  action = e.fields.action;
  user = user_key e;
  details = take 100 e.fields.details;
}

abbrev add_critical : LogEntry → List CriticalEvent → List CriticalEvent
unfolding severity_dec
add_critical e cs =
    if e.fields.severity ≟ Severity.critical then cs ++ (critical_event e ∷ []) else cs

module _ (hmac : Text → Text) (canonical : Fields → Text) where
  -- One round of the loop over the entries.
  unfoldable pub count_entry : LogEntry → AuditReport → AuditReport
  unfolding add_critical text_dec severity_dec
  count_entry e r = record {
    total_events = r.total_events;
    tampering_events = count_if (is_set e.fields.is_tampering) r.tampering_events;
    access_denials = count_if (is_set e.fields.client_info.access_denied) r.access_denials;
    by_user = tally (user_key e) r.by_user;
    by_action = tally e.fields.action r.by_action;
    by_severity = tally e.fields.severity r.by_severity;
    integrity_verified = count_if (verify_log_integrity hmac canonical e) r.integrity_verified;
    integrity_failed =
        if verify_log_integrity hmac canonical e
        then r.integrity_failed
        else r.integrity_failed + 1;
    recent_critical_events = add_critical e r.recent_critical_events;
  }

  unfoldable pub count_entries : List LogEntry → AuditReport → AuditReport
  unfolding count_entry
  count_entries [] r = r
  count_entries (e ∷ es) r = count_entries es (count_entry e r)

  unfoldable pub report_of : List LogEntry → AuditReport
  unfolding count_entries
  report_of es =
      let r = count_entries es (empty_report (length es)) in
      record r { recent_critical_events = last 10 r.recent_critical_events }

  unfoldable pub generate_audit_report :
      (Text → Option LogEntry) → Bool → TamperLogger → AuditReport
  unfolding report_of all_logs
  generate_audit_report loads from_file t = report_of (all_logs loads from_file t)
