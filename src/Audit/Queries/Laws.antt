-- ===== src/Audit/Queries/Laws.antt =====
-- What the queries of the log find after calls of the logger.
use s_com_control_plane.Base.{
  All, Bool, List, Option, Text, [], ap, arith, false, keep, keep-append, length, length-append,
  map, none, or_else, refl, some, true, ℕ, ◌&&◌, ◌++◌, ◌<◌, ◌==◌, ◌∙◌, ◌∷◌, ◌≡◌, ◌≤◌,
}
use s_com_control_plane.Base.Slices.{take, take-append, last_all}
use s_com_control_plane.Audit.Entry.{Severity, Fields, LogEntry, severity_eq}
use s_com_control_plane.Audit.Relevance.{is_tampering_relevant}
use s_com_control_plane.Audit.Logger.{
  TamperLogger, Event, Surroundings, fields_of, signed, log, data_modification, access_denial,
  start,
}
use s_com_control_plane.Audit.Logger.Runs.{Call, entry_of, log_all, written}
use s_com_control_plane.Audit.Logger.Restart.{Reads, read_from_file-log_all}
use s_com_control_plane.Audit.Queries.{
  of_type, of_severity, indicates_tampering, all_logs, get_logs, get_tampering_events,
}

-- What a caller reports: a change of data with its outcome, a refusal, or any other event.
pub data Occurrence : Type 0 where
  change : Event → Bool → Option Text → Occurrence
  denial : Event → Occurrence
  other : Event → Occurrence

unfoldable pub event_of : Occurrence → Event
unfolding data_modification access_denial
event_of (Occurrence.change e success error_msg) = data_modification e success error_msg
event_of (Occurrence.denial e) = access_denial e
event_of (Occurrence.other e) = e

-- Whether a report is of a change or a refusal, or is marked as one, or, with no mark, reads so.
abbrev pub tells : Occurrence → Bool
tells (Occurrence.change e success error_msg) = true
tells (Occurrence.denial e) = true
tells (Occurrence.other e) =
    or_else e.is_tampering (is_tampering_relevant e.action e.details e.severity)

abbrev pub Noted : Type 0
Noted = Occurrence × Surroundings

abbrev pub call_of : Noted → Call
call_of (r, w) = (event_of r, w)

-- The occurrences whose line the file took and that tell of tampering.
abbrev pub telling : List Noted → List Noted
telling = keep (λ (r : Noted). r.1.writes && tells r.0)

module _ (hmac : Text → Text) (canonical : Fields → Text) (sha256 : Text → Text)
    (dumps : LogEntry → Text) where
  indicates_tampering-entry_of :
      (r : Occurrence) (w : Surroundings)
      → indicates_tampering (entry_of hmac canonical sha256 (event_of r, w)) ≡ tells r
  unfolding indicates_tampering entry_of signed fields_of event_of
  indicates_tampering-entry_of (Occurrence.change e success error_msg) w = refl
  indicates_tampering-entry_of (Occurrence.denial e) w = refl
  indicates_tampering-entry_of (Occurrence.other e) w = refl

  keep-entries :
      (rs : List Noted)
      → keep indicates_tampering (map (entry_of hmac canonical sha256) (written (map call_of rs)))
        ≡ map (entry_of hmac canonical sha256) (map call_of (telling rs))
  keep-entries [] = refl
  keep-entries ((r, w) ∷ rs) = ground (arith, keep-entries rs, indicates_tampering-entry_of r w)

  module _ (loads : Text → Option LogEntry) (loads_empty : loads [] ≡ none) where
    -- With a file of dumped entries, all entries such that `json` reads them back, the tampering events that are read from the file after some
    -- occurrences are logged are those among the old entries, and then the entries of exactly
    -- those occurrences whose line the file took and that are a change of data, successful or
    -- not, a refused access, or another event that its caller marks as tampering or that, with no
    -- mark, has the keywords of one; in order.
    pub get_tampering_events-log_all :
        (m : ℕ) (old : List LogEntry) (rs : List Noted)
        → All (Reads dumps loads) (old ++ map (entry_of hmac canonical sha256) (map call_of rs))
        → get_tampering_events loads true
            (log_all hmac canonical sha256 dumps (map call_of rs) (start loads m (map dumps old)))
          ≡ keep indicates_tampering old
            ++ map (entry_of hmac canonical sha256) (map call_of (telling rs))
    unfolding get_tampering_events
    get_tampering_events-log_all m old rs h =
        ap (keep indicates_tampering) (
          read_from_file-log_all dumps loads loads_empty hmac canonical sha256 m old
            (map call_of rs) h)
        ∙ (keep-append indicates_tampering old
              (map (entry_of hmac canonical sha256) (written (map call_of rs)))
            ∙ ap (◌++◌ (keep indicates_tampering old)) (keep-entries rs))

matching : Option Text → Option Severity → List LogEntry → List LogEntry
unfolding of_type of_severity
matching ty s es = keep (of_severity s) (keep (of_type ty) es)

matching-append :
    (ty : Option Text) (s : Option Severity) (xs ys : List LogEntry)
    → matching ty s (xs ++ ys) ≡ matching ty s xs ++ matching ty s ys
unfolding matching of_type of_severity
matching-append ty s xs ys =
    ap (keep (of_severity s)) (keep-append (of_type ty) xs ys)
    ∙ keep-append (of_severity s) (keep (of_type ty) xs) (keep (of_type ty) ys)

-- A limited answer from the buffer shows the oldest entries: where the buffer has room and already
-- holds as many matching entries as the limit, which is not 0, logging a further event, whatever it
-- is, leaves the answer as it was.
pub get_logs-log :
    (hmac : Text → Text) (canonical : Fields → Text) (sha256 : Text → Text)
    (dumps : LogEntry → Text) (loads : Text → Option LogEntry) (n : ℕ) (ty : Option Text)
    (s : Option Severity) (e : Event) (w : Surroundings) (t : TamperLogger)
    → 0 < n
    → n ≤ length (get_logs loads false none ty s t)
    → length t.logs < t.max_logs
    → get_logs loads false (some n) ty s (log hmac canonical sha256 dumps e w t).0
      ≡ get_logs loads false (some n) ty s t
unfolding get_logs all_logs log of_type of_severity matching
get_logs-log hmac canonical sha256 dumps loads n ty s e w t pos full room =
    let added : List LogEntry = signed hmac canonical (fields_of sha256 e w) ∷ [] in
    let nonzero : (n == 0) ≡ false = ground arith in
    let fits : length (t.logs ++ added) ≤ t.max_logs = omega (arith, length-append t.logs added) in
    rw nonzero (
      ap (λ es. take n (matching ty s es)) (last_all t.max_logs (t.logs ++ added) fits)
      ∙ (ap (take n) (matching-append ty s t.logs added)
          ∙ take-append n (matching ty s t.logs) (matching ty s added) full))
