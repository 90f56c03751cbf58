-- ===== src/Audit/Logger/Runs.antt =====
-- Runs of the logger.
use s_com_control_plane.Base.{
  Bool, List, Text, [], ap, append_assoc, append_nil, false, if◌then◌else◌, keep, length, map, refl,
  sym, true, ℕ, ◌++◌, ◌∙◌, ◌∷◌, ◌≡◌, ◌≤◌,
}
use s_com_control_plane.Audit.Entry.{Fields, LogEntry}
use s_com_control_plane.Audit.Logger.{
  TamperLogger, Event, Surroundings, append, fields_of, signed, log, write_to_file, append_each,
}
use s_com_control_plane.Base.Slices.{last, last-last, last_all, length-last}

pub append_each-last :
    (m : ℕ) (logs es : List LogEntry)
    → length logs ≤ m
    → append_each m logs es ≡ last m (logs ++ es)
append_each-last m logs [] h = sym (ap (last m) (append_nil logs) ∙ last_all m logs h)
append_each-last m logs (e ∷ es) h =
    append_each-last m (append m logs e) es (length-last m (logs ++ (e ∷ [])))
    ∙ (last-last m (logs ++ (e ∷ [])) es ∙ ap (last m) (append_assoc logs (e ∷ []) es))

-- One call of `log` and what it meets.
abbrev pub Call : Type 0
Call = Event × Surroundings

module _ (hmac : Text → Text) (canonical : Fields → Text) (sha256 : Text → Text) where
  -- The entry that a call leaves.
  unfoldable pub entry_of : Call → LogEntry
  unfolding signed
  entry_of c = signed hmac canonical (fields_of sha256 c.0 c.1)

-- The calls whose line the file took.
abbrev pub written : List Call → List Call
written = keep (λ (c : Call). c.1.writes)

module _ (hmac : Text → Text) (canonical : Fields → Text) (sha256 : Text → Text)
    (dumps : LogEntry → Text) where
  unfoldable pub log_all : List Call → TamperLogger → TamperLogger
  unfolding log
  log_all [] t = t
  log_all (c ∷ cs) t = log_all cs (log hmac canonical sha256 dumps c.0 c.1 t).0

  -- The lines that a call adds.
  abbrev line_of : Bool → LogEntry → List Text
  line_of true e = dumps e ∷ []
  line_of false e = []

  write_to_file-append :
      (w : Bool) (e : LogEntry) (file : List Text)
      → write_to_file hmac canonical sha256 dumps w e file ≡ file ++ line_of w e
  unfolding write_to_file
  write_to_file-append true e file = refl
  write_to_file-append false e file = sym (append_nil file)

  line_of-keep :
      (w : Bool) (c : Call) (cs : List Call)
      → line_of w (entry_of hmac canonical sha256 c)
          ++ map dumps (map (entry_of hmac canonical sha256) cs)
        ≡ map dumps (map (entry_of hmac canonical sha256) (if w then c ∷ cs else cs))
  line_of-keep true c cs = refl
  line_of-keep false c cs = refl

  pub file-log_all :
      (cs : List Call) (t : TamperLogger)
      → (log_all cs t).file
        ≡ t.file ++ map dumps (map (entry_of hmac canonical sha256) (written cs))
  unfolding log_all log entry_of
  file-log_all [] t = sym (append_nil t.file)
  file-log_all (c ∷ cs) t =
      file-log_all cs (log hmac canonical sha256 dumps c.0 c.1 t).0
      ∙ (ap (λ f. f ++ map dumps (map (entry_of hmac canonical sha256) (written cs)))
            (write_to_file-append c.1.writes (entry_of hmac canonical sha256 c) t.file)
          ∙ (append_assoc t.file (line_of c.1.writes (entry_of hmac canonical sha256 c))
                (map dumps (map (entry_of hmac canonical sha256) (written cs)))
              ∙ ap (◌++◌ t.file) (line_of-keep c.1.writes c (written cs))))

  pub logs-log_all :
      (cs : List Call) (t : TamperLogger)
      → length t.logs ≤ t.max_logs
      → (log_all cs t).logs ≡ last t.max_logs (t.logs ++ map (entry_of hmac canonical sha256) cs)
  unfolding log_all log entry_of
  logs-log_all [] t h =
      sym (ap (last t.max_logs) (append_nil t.logs) ∙ last_all t.max_logs t.logs h)
  logs-log_all (c ∷ cs) t h =
      logs-log_all cs (log hmac canonical sha256 dumps c.0 c.1 t).0
        (length-last t.max_logs (t.logs ++ (entry_of hmac canonical sha256 c ∷ [])))
      ∙ (last-last t.max_logs (t.logs ++ (entry_of hmac canonical sha256 c ∷ []))
            (map (entry_of hmac canonical sha256) cs)
          ∙ ap (last t.max_logs) (
              append_assoc t.logs (entry_of hmac canonical sha256 c ∷ [])
                (map (entry_of hmac canonical sha256) cs)))

  pub max_logs-log_all : (cs : List Call) (t : TamperLogger) → (log_all cs t).max_logs ≡ t.max_logs
  unfolding log_all log
  max_logs-log_all [] t = refl
  max_logs-log_all (c ∷ cs) t = max_logs-log_all cs (log hmac canonical sha256 dumps c.0 c.1 t).0
