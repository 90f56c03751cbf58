-- ===== src/Audit/Logger/Restart.antt =====
-- The logger after a restart, which reads the file again.
use s_com_control_plane.Base.{
  All, Bool, Bool-cases, List, Option, Text, [], ap, arith, false, if◌then◌else◌, inl, inr,
  is_empty, keep, length, ltb, map, none, refl, some, strip, suc, sym, true, zero, ℕ, ◌++◌, ◌-◌,
  ◌==◌, ◌∙◌, ◌∷◌, ◌≡◌, ◌≢◌, ◌≤◌,
}
use s_com_control_plane.Audit.Entry.{Fields, LogEntry}
use s_com_control_plane.Audit.Logger.{
  TamperLogger, decode, load_logs_from_file, read_from_file, recent_lines, start,
}
use s_com_control_plane.Audit.Logger.Runs.{
  Call, append_each-last, entry_of, file-log_all, log_all, logs-log_all, max_logs-log_all, written,
}
use s_com_control_plane.Base.Slices.{
  drop, last, last-last, last-map, last_all, length-last, map-append,
}

same_logger :
    (t u : TamperLogger) → t.max_logs ≡ u.max_logs → t.logs ≡ u.logs → t.file ≡ u.file → t ≡ u
same_logger t u p q r = λ i. record { max_logs = p i; logs = q i; file = r i }

keep-All :
    (cs : List Call)
    → All (λ (c : Call). c.1.writes ≡ true) cs
    → keep (λ (c : Call). c.1.writes) cs ≡ cs
keep-All [] h = refl
keep-All (c ∷ cs) h = ground (arith, keep-All cs h.1)

All-left : (P : LogEntry → Type 0) (xs ys : List LogEntry) → All P (xs ++ ys) → All P xs
All-left P [] ys h = tt
All-left P (x ∷ xs) ys h = (h.0, All-left P xs ys h.1)

All-drop : (P : LogEntry → Type 0) (n : ℕ) (xs : List LogEntry) → All P xs → All P (drop n xs)
All-drop P zero xs h = h
All-drop P (suc n) [] h = tt
All-drop P (suc n) (x ∷ xs) h = All-drop P n xs h.1

All-kept :
    (P : LogEntry → Type 0) (f : Call → LogEntry) (w : Bool) (c : Call) (cs : List Call)
    → P (f c)
    → All P (map f cs)
    → All P (map f (if w then c ∷ cs else cs))
All-kept P f true c cs p h = (p, h)
All-kept P f false c cs p h = h

All-written :
    (P : LogEntry → Type 0) (f : Call → LogEntry) (old : List LogEntry) (cs : List Call)
    → All P (old ++ map f cs)
    → All P (old ++ map f (written cs))
All-written P f [] [] h = tt
All-written P f [] (c ∷ cs) h =
    All-kept P f c.1.writes c (written cs) h.0 (All-written P f [] cs h.1)
All-written P f (e ∷ old) cs h = (h.0, All-written P f old cs h.1)

-- The entries that a file of `old` ones holds after some calls.
abbrev pub filed :
    (Text → Text) → (Fields → Text) → (Text → Text) → List LogEntry → List Call → List LogEntry
filed hmac canonical sha256 old cs = old ++ map (entry_of hmac canonical sha256) (written cs)

-- What is relied on of `json` for an entry: dumped, it loads as itself and has no white space
-- around it.
abbrev pub Reads : (LogEntry → Text) → (Text → Option LogEntry) → LogEntry → Type 0
Reads dumps loads e = (loads (dumps e) ≡ some e) × (strip (dumps e) ≡ dumps e)

-- The empty text does not load.
module _ (dumps : LogEntry → Text) (loads : Text → Option LogEntry)
    (loads_empty : loads [] ≡ none) where
  no_empty : (e : LogEntry) (t : Text) → loads t ≡ some e → is_empty t ≡ false
  no_empty e [] h = absurd (none-ne-some e (sym loads_empty ∙ h))
    where
      none-ne-some : (d : LogEntry) → none ≢ some d
      none-ne-some d p = cc
  no_empty e (c ∷ t) h = refl

  decode-dumps :
      (es : List LogEntry) → All (Reads dumps loads) es → decode loads (map dumps es) ≡ es
  unfolding decode
  decode-dumps [] h = refl
  decode-dumps (e ∷ es) h =
      rw (h.0.1, no_empty e (dumps e) h.0.0, h.0.0) (ap (◌∷◌ e) (decode-dumps es h.1))

  decode-recent_lines :
      (m : ℕ) (es : List LogEntry)
      → All (Reads dumps loads) es
      → last m (decode loads (recent_lines m (map dumps es))) ≡ last m es
  decode-recent_lines m es h = elim (Bool-cases (ltb m (length (map dumps es)))) [
    | inr fits ↦ rw fits (ap (last m) (decode-dumps es h))
    | inl over ↦ elim (Bool-cases (m == 0)) [
      | inl all_lines ↦ rw (over, all_lines) (ap (last m) (decode-dumps es h))
      | inr some_lines ↦
          rw (over, some_lines)
            (ap (λ ls. last m (decode loads ls)) (last-map dumps m es)
              ∙ (ap (last m)
                    (decode-dumps (last m es) (All-drop (Reads dumps loads) (length es - m) es h))
                  ∙ last_all m (last m es) (length-last m es)))
    ]
  ]

  logs-start :
      (m : ℕ) (es : List LogEntry)
      → All (Reads dumps loads) es
      → (start loads m (map dumps es)).logs ≡ last m es
  unfolding start load_logs_from_file
  logs-start m es h =
      append_each-last m [] (decode loads (recent_lines m (map dumps es))) (omega arith)
      ∙ decode-recent_lines m es h

  module _ (hmac : Text → Text) (canonical : Fields → Text) (sha256 : Text → Text) where
    restart_bound :
        (m : ℕ) (old : List LogEntry) (cs : List Call)
        → (start loads m
            (log_all hmac canonical sha256 dumps cs (start loads m (map dumps old))).file).max_logs
          ≡ (log_all hmac canonical sha256 dumps cs (start loads m (map dumps old))).max_logs
    unfolding start load_logs_from_file
    restart_bound m old cs =
        sym (max_logs-log_all hmac canonical sha256 dumps cs (start loads m (map dumps old)))

    restart_file :
        (m : ℕ) (old : List LogEntry) (cs : List Call)
        → (start loads m
            (log_all hmac canonical sha256 dumps cs (start loads m (map dumps old))).file).file
          ≡ (log_all hmac canonical sha256 dumps cs (start loads m (map dumps old))).file
    unfolding start load_logs_from_file
    restart_file m old cs = refl

    file-run :
        (m : ℕ) (old : List LogEntry) (cs : List Call)
        → (log_all hmac canonical sha256 dumps cs (start loads m (map dumps old))).file
          ≡ map dumps (filed hmac canonical sha256 old cs)
    unfolding start load_logs_from_file
    file-run m old cs =
        file-log_all hmac canonical sha256 dumps cs (start loads m (map dumps old))
        ∙ sym (map-append dumps old (map (entry_of hmac canonical sha256) (written cs)))

    logs-run :
        (m : ℕ) (old : List LogEntry) (cs : List Call)
        → All (Reads dumps loads) old
        → (log_all hmac canonical sha256 dumps cs (start loads m (map dumps old))).logs
          ≡ last m (old ++ map (entry_of hmac canonical sha256) cs)
    unfolding start load_logs_from_file
    logs-run m old cs h =
        let bounded : length (start loads m (map dumps old)).logs ≤ m =
          rw (logs-start m old h) (length-last m old) in
        logs-log_all hmac canonical sha256 dumps cs (start loads m (map dumps old)) bounded
        ∙ (ap (λ l. last m (l ++ map (entry_of hmac canonical sha256) cs)) (logs-start m old h)
            ∙ last-last m old (map (entry_of hmac canonical sha256) cs))

    -- After any calls of `log` on a file of dumped entries, all entries such that `json` reads them
    -- back, the file reads as the old entries and those of the calls whose line it took, in order.
    pub read_from_file-log_all :
        (m : ℕ) (old : List LogEntry) (cs : List Call)
        → All (Reads dumps loads) (old ++ map (entry_of hmac canonical sha256) cs)
        → read_from_file loads
            (log_all hmac canonical sha256 dumps cs (start loads m (map dumps old)))
          ≡ filed hmac canonical sha256 old cs
    unfolding read_from_file
    read_from_file-log_all m old cs h =
        ap (decode loads) (file-run m old cs)
        ∙ decode-dumps (filed hmac canonical sha256 old cs)
            (All-written (Reads dumps loads) (entry_of hmac canonical sha256) old cs h)

    -- With a file of dumped entries, and calls of `log` whose lines the file all takes, all entries
    -- such that `json` reads them back, a logger that starts again on the file is the logger as it was: the same buffer, bound and file.
    pub start-log_all :
        (m : ℕ) (old : List LogEntry) (cs : List Call)
        → All (Reads dumps loads) (old ++ map (entry_of hmac canonical sha256) cs)
        → All (λ (c : Call). c.1.writes ≡ true) cs
        → start loads m
            (log_all hmac canonical sha256 dumps cs (start loads m (map dumps old))).file
          ≡ log_all hmac canonical sha256 dumps cs (start loads m (map dumps old))
    start-log_all m old cs h writes =
        same_logger _ _ (restart_bound m old cs)
          (ap (λ f. (start loads m f).logs) (file-run m old cs)
            ∙ (logs-start m (filed hmac canonical sha256 old cs)
                  (All-written (Reads dumps loads) (entry_of hmac canonical sha256) old cs h)
                ∙ (ap (λ ds. last m (old ++ map (entry_of hmac canonical sha256) ds))
                      (keep-All cs writes)
                    ∙ sym (
                        logs-run m old cs (
                          All-left (Reads dumps loads) old (map (entry_of hmac canonical sha256) cs)
                            h)))))
          (restart_file m old cs)
