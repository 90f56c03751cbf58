-- ===== src/Audit/Logger.antt =====
-- The buffer and the file of `TamperLogger` in secure-framework/tamper_logger.py, and the
-- operations that write them.
--
-- `log` runs under the lock, so it is one step. The clock, the fresh transaction id, and whether
-- the write to the file works are arguments. Nothing in the repository subscribes to the log, so
-- no callback is called; the line on the console is left out. The file is the list of its lines,
-- without their line ends. The parameters are `json.dumps` and `json.loads` of an entry, where
-- `none` is a JSONDecodeError, SHA-256 in hexadecimal, and the HMAC of a text under the key. The
-- text signed, `canonical`, is the JSON of the entry without its signature, keys sorted.
use s_com_control_plane.Base.{
  Bool, List, Option, Text, [], false, if◌then◌else◌, is_empty, length, ltb, none, or_else, some,
  strip, text_dec, text_eq, true, ℕ, ◌++◌, ◌==◌, ◌∷◌, ◌≟◌,
}
use s_com_control_plane.Audit.Entry.{
  Identity, ClientInfo, no_info, build_user_identity, Severity, Payload, Fields, LogEntry,
}
use s_com_control_plane.Audit.Relevance.{is_tampering_relevant}
use s_com_control_plane.Base.Slices.{last}
pub mod Runs
pub mod Restart

pub record TamperLogger : Type 0 where
  pub max_logs : ℕ
  pub logs : List LogEntry
  pub file : List Text

-- The arguments of `log`; those that a caller leaves out are `none`.
pub record Event : Type 0 where
  pub event_type : Text
  pub action : Text
  pub details : Text
  pub client_info : Option ClientInfo
  pub severity : Severity
  pub is_tampering : Option Bool
  pub transaction_id : Option Text
  pub request : Option Payload
  pub before : Option Payload
  pub after : Option Payload
  pub user_identity : Option Identity

-- What one call meets: the time, a fresh id, and whether the file takes the line.
pub record Surroundings : Type 0 where
  pub now : Text
  pub uuid : Text
  pub writes : Bool

-- `deque.append` with a bound: what is over it falls off at the left.
abbrev pub append : ℕ → List LogEntry → LogEntry → List LogEntry
append m logs e = last m (logs ++ (e ∷ []))

module _ (sha256 : Text → Text) where
  -- `self._compute_hash(x) if x else None`
  unfoldable pub hash_of : Option Payload → Option Text
  hash_of none = none
  hash_of (some p) = if p.is_falsy then none else some (sha256 p.body)

  unfoldable pub fields_of : Event → Surroundings → Fields
  unfolding hash_of
  fields_of e w = record {
    timestamp = w.now;
    event_type = e.event_type;
    action = e.action;
    severity = e.severity;
    details = e.details;
    is_tampering =
        some (or_else e.is_tampering (is_tampering_relevant e.action e.details e.severity));
    transaction_id = some (or_else e.transaction_id w.uuid);
    user_identity = some (build_user_identity e.user_identity e.client_info);
    request_hash = hash_of e.request;
    data_before_hash = hash_of e.before;
    data_after_hash = hash_of e.after;
    client_info = or_else e.client_info no_info;
  }

module _ (hmac : Text → Text) (canonical : Fields → Text) where
  unfoldable pub sign_log_entry : LogEntry → Text
  sign_log_entry e = hmac (canonical e.fields)

  abbrev compare_digest : Option Text → Text → Bool
  unfolding text_dec
  compare_digest none computed = false
  compare_digest (some stored) computed = stored ≟ computed

  unfoldable pub verify_log_integrity : LogEntry → Bool
  unfolding compare_digest sign_log_entry
  verify_log_integrity e = compare_digest e.integrity_signature (sign_log_entry e)

  -- The entry that `log` builds, its signature last.
  unfoldable pub signed : Fields → LogEntry
  unfolding sign_log_entry
  signed f = record {
    fields = f;
    integrity_signature = some (sign_log_entry (record { fields = f; integrity_signature = none }));
  }

  module _ (sha256 : Text → Text) (dumps : LogEntry → Text) where
    -- `_write_to_file`
    unfoldable pub write_to_file : Bool → LogEntry → List Text → List Text
    write_to_file writes e file = if writes then file ++ (dumps e ∷ []) else file

    unfoldable pub log : Event → Surroundings → TamperLogger → TamperLogger × Text
    unfolding write_to_file
    log e w t = (
      record t {
        logs = append t.max_logs t.logs (signed (fields_of sha256 e w));
        file = write_to_file w.writes (signed (fields_of sha256 e w)) t.file;
      },
      or_else e.transaction_id w.uuid,
    )

abbrev with_error : Option Text → ClientInfo → ClientInfo
with_error none c = c
with_error (some m) c = if is_empty m then c else record c { error = some m }

-- The call of `log` that `log_data_modification` makes of its arguments.
unfoldable pub data_modification : Event → Bool → Option Text → Event
data_modification e success error_msg = record e {
  client_info =
      some
        (with_error error_msg (record (or_else e.client_info no_info) { success = some success }));
  severity = if success then Severity.info else Severity.error;
  is_tampering = some true;
}

-- The call of `log` that `log_access_denied` makes of its arguments.
unfoldable pub access_denial : Event → Event
access_denial e = record e {
  client_info = some (record (or_else e.client_info no_info) { access_denied = some true });
  severity = Severity.critical;
  is_tampering = some true;
  before = none;
  after = none;
}

unfoldable pub clear_logs : TamperLogger → TamperLogger
clear_logs t = record t { logs = [] }

-- `lines[-n:] if len(lines) > n else lines`; `lines[-0:]` is all of them.
abbrev pub recent_lines : ℕ → List Text → List Text
recent_lines n ls = if ltb n (length ls) then (if n == 0 then ls else last n ls) else ls

abbrev pub append_each : ℕ → List LogEntry → List LogEntry → List LogEntry
append_each m logs [] = logs
append_each m logs (e ∷ es) = append_each m (append m logs e) es

module _ (loads : Text → Option LogEntry) where
  abbrev add_some : Option LogEntry → List LogEntry → List LogEntry
  add_some none rest = rest
  add_some (some e) rest = e ∷ rest

  abbrev decode_stripped : Text → List LogEntry → List LogEntry
  decode_stripped line rest = if is_empty line then rest else add_some (loads line) rest

  -- The entries of some lines, blank lines and those that are no JSON left out.
  unfoldable pub decode : List Text → List LogEntry
  decode [] = []
  decode (l ∷ ls) = decode_stripped (strip l) (decode ls)

  -- `_read_from_file`
  unfoldable pub read_from_file : TamperLogger → List LogEntry
  unfolding decode
  read_from_file t = decode t.file

  -- `_load_logs_from_file`
  unfoldable pub load_logs_from_file : TamperLogger → TamperLogger
  unfolding decode
  load_logs_from_file t = record t {
    logs = append_each t.max_logs t.logs (decode (recent_lines t.max_logs t.file));
  }

  -- The constructor, on a file that is there, perhaps empty.
  unfoldable pub start : ℕ → List Text → TamperLogger
  unfolding load_logs_from_file
  start max_logs file = load_logs_from_file (record { max_logs = max_logs; logs = []; file = file })
