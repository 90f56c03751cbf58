-- ===== src/Examples/Audit.antt =====
-- A log of a change, a refusal and a reading of the rules.
use s_com_control_plane.Base.{
  All, List, Option, Text, [], arith, codes, false, if◌then◌else◌, keep, length, map, none, not,
  refl, some, text_dec, text_eq, true, ◌++◌, ◌+◌, ◌∷◌, ◌≟◌, ◌≡◌, ◌≢◌, ◌≤◌,
}
use s_com_control_plane.Audit.Entry.{ClientAddr, Severity, Fields, LogEntry, no_info, severity_eq}
use s_com_control_plane.Audit.Logger.{TamperLogger, Event, Surroundings, start, fields_of}
use s_com_control_plane.Audit.Logger.Runs.{Call, entry_of, log_all}
use s_com_control_plane.Audit.Logger.Restart.{Reads, start-log_all}
use s_com_control_plane.Audit.Queries.{get_logs, get_tampering_events, indicates_tampering}
use s_com_control_plane.Audit.Queries.Laws.{
  Occurrence, Noted, event_of, call_of, telling, get_tampering_events-log_all,
}
use s_com_control_plane.Audit.Report.{critical_event, report_of, user_key}
use s_com_control_plane.Base.Slices.{last}
use s_com_control_plane.Audit.Report.Laws.{
  Tallies, altered, report_of-Tallies, is_signed, is_critical, report_of-altered,
}

abbrev digest : Text → Text
digest t = t

abbrev canonical : Fields → Text
canonical f = f.details

abbrev dumps : LogEntry → Text
dumps e = e.fields.details

abbrev event : Text → Text → Event
event action details = record {
  event_type = codes "gnmi";
  action = action;
  details = details;
  client_info =
      some (record no_info { client_addr = ClientAddr.host_port (codes "10.10.6.5") 5000 });
  severity = Severity.info;
  is_tampering = none;
  transaction_id = none;
  request = none;
  before = none;
  after = none;
  user_identity = none;
}

abbrev works : Surroundings
works = record { now = codes "2026-01-01T00:00:00+00:00"; uuid = codes "id-1"; writes = true }

abbrev noted : List Noted
noted =
    (
      Occurrence.change (event (codes "push_acl_rule") (codes "rule-1")) false
          (some (codes "timeout")),
      works,
    )
    ∷ (Occurrence.denial (event (codes "edit") (codes "agent")), works)
    ∷ (
      Occurrence.other (event (codes "get_interfaces") (codes "ports")),
      record works { writes = false },
    )
    ∷ []

abbrev calls : List Call
calls = map call_of noted

abbrev taken : List Call
taken =
    (event (codes "get") (codes "rule-1"), works)
    ∷ (event (codes "set") (codes "agent"), works)
    ∷ []

-- The decoder of the texts of some calls.
abbrev loads_of : List Call → Text → Option LogEntry
unfolding text_dec
loads_of [] t = none
loads_of (c ∷ cs) t =
    if t ≟ c.0.details then some (entry_of digest canonical digest c) else loads_of cs t

loads_empty : loads_of taken [] ≡ none
unfolding loads_of text_dec
loads_empty = refl

taken-Reads :
    All (Reads dumps (loads_of taken)) ([] ++ map (entry_of digest canonical digest) taken)
unfolding loads_of entry_of fields_of text_dec
taken-Reads = ((refl, refl), ((refl, refl), tt))

start-log_all_example :
    start
      (loads_of taken)
      1
      (log_all digest canonical digest dumps taken (start (loads_of taken) 1 (map dumps []))).file
    ≡ log_all digest canonical digest dumps taken (start (loads_of taken) 1 (map dumps []))
start-log_all_example =
    start-log_all dumps (loads_of taken) loads_empty digest canonical digest 1 [] taken taken-Reads
      (refl, (refl, tt))

calls_empty : loads_of calls [] ≡ none
unfolding loads_of text_dec event_of
calls_empty = refl

calls-Reads :
    All (Reads dumps (loads_of calls)) ([] ++ map (entry_of digest canonical digest) calls)
unfolding loads_of entry_of fields_of text_dec event_of
calls-Reads = ((refl, refl), ((refl, refl), ((refl, refl), tt)))

get_tampering_events-log_all_example :
    get_tampering_events
      (loads_of calls)
      true
      (log_all digest canonical digest dumps calls (start (loads_of calls) 5 (map dumps [])))
    ≡ keep indicates_tampering []
      ++ map (entry_of digest canonical digest) (map call_of (telling noted))
get_tampering_events-log_all_example =
    get_tampering_events-log_all digest canonical digest dumps (loads_of calls) calls_empty 5 []
      noted calls-Reads

-- A buffer with room, and one entry in it.
abbrev logger : TamperLogger
logger = record {
  max_logs = 3;
  logs = entry_of digest canonical digest (event (codes "get") (codes "first"), works) ∷ [];
  file = [];
}

logger_full : 1 ≤ length (get_logs (loads_of taken) false none none none logger)
unfolding get_logs
logger_full = omega arith

abbrev entries : List LogEntry
entries = map (entry_of digest canonical digest) taken

report_of-Tallies_example :
    ((report_of digest canonical entries).total_events ≡ length entries)
    × Tallies (codes "unknown") (map user_key entries) (report_of digest canonical entries).by_user
    × Tallies
        (codes "get")
        (map (λ (e : LogEntry). e.fields.action) entries)
        (report_of digest canonical entries).by_action
    × Tallies Severity.info
        (map (λ (e : LogEntry). e.fields.severity) entries)
        (report_of digest canonical entries).by_severity
    × ((report_of digest canonical entries).integrity_verified
        ≡ length (keep (is_signed digest canonical) entries))
    × ((report_of digest canonical entries).integrity_failed
        ≡ length (keep (λ e. not (is_signed digest canonical e)) entries))
    × ((report_of digest canonical entries).recent_critical_events
        ≡ last 10 (map critical_event (keep (is_critical digest canonical) entries)))
report_of-Tallies_example =
    report_of-Tallies digest canonical entries (codes "unknown") (codes "get") Severity.info

abbrev culprit : Call
culprit = (event (codes "set") (codes "agent"), works)

-- Its entry with other details.
abbrev forged : Fields
forged = record (fields_of digest (event (codes "set") (codes "agent")) works) {
  details = codes "nobody";
}

forged-ne : digest (canonical forged) ≢ digest (canonical (fields_of digest culprit.0 culprit.1))
unfolding fields_of
forged-ne h = cc

report_of-altered_example :
    ((report_of digest canonical
        (altered digest canonical digest taken culprit forged taken)).integrity_failed
      ≡ 1)
    × ((report_of digest canonical
          (altered digest canonical digest taken culprit forged taken)).integrity_verified
        ≡ length taken + length taken)
report_of-altered_example =
    report_of-altered digest canonical digest taken taken culprit forged forged-ne
