-- ===== src/Audit/Report/Laws.antt =====
-- The figures of the audit report.
use s_com_control_plane.Base.{
  Bool, Bool-cases, Eq, List, Option, Text, [], ap, append_assoc, append_nil, arith, before,
  eq_of_≟, false, if◌then◌else◌, inl, inr, keep, keep-append, length, length-append, map, none, not,
  or_else, refl, some, suc, sum, sym, text_dec, text_eq, true, ℕ, ≟-refl, ◌++◌, ◌+◌, ◌∙◌, ◌∷◌, ◌≟◌,
  ◌≡◌, ◌≢◌,
}
use s_com_control_plane.Base.Dict.{Dict, occurrences, lookup, insert, values, lookup-insert}
use s_com_control_plane.Base.Slices.{last, length-map}
use s_com_control_plane.Audit.Entry.{Severity, Fields, LogEntry, severity_dec, severity_eq}
use s_com_control_plane.Audit.Logger.{fields_of, signed, verify_log_integrity, sign_log_entry}
use s_com_control_plane.Audit.Logger.Runs.{Call, entry_of}
use s_com_control_plane.Audit.Report.{
  AuditReport, tally, empty_report, user_key, count_entry, count_entries, report_of, critical_event,
  CriticalEvent,
}

module _ {ℓ} {K : Type ℓ} ⦃e : Eq K⦄ where
  sum-insert :
      (k : K) (v : ℕ) (d : Dict K ℕ)
      → sum (values (insert k v d)) + or_else (lookup k d) 0 ≡ sum (values d) + v
  sum-insert k v [] = omega arith
  sum-insert k v ((j, w) ∷ d) = ground (arith, sum-insert k v d)

  sum-tally : (k : K) (d : Dict K ℕ) → sum (values (tally k d)) ≡ sum (values d) + 1
  sum-tally k d = omega (arith, sum-insert k (or_else (lookup k d) 0 + 1) d)

  abbrev pub counted : K → Dict K ℕ → ℕ
  counted k d = or_else (lookup k d) 0

  counted-tally :
      (j k : K) (d : Dict K ℕ)
      → counted j (tally k d) ≡ (if j ≟ k then suc (counted j d) else counted j d)
  counted-tally j k d = elim (Bool-cases (j ≟ k)) [
    | inr other ↦ rw (lookup-insert j k (or_else (lookup k d) 0 + 1) d, other) refl
    | inl same ↦
        rw (lookup-insert j k (or_else (lookup k d) 0 + 1) d, same)
          (ap (λ i. counted i d + 1) (sym (eq_of_≟ j k same)) ∙ (omega arith))
  ]

  -- The tally of some keys, and how often a key is among them.
  abbrev tally_all : List K → Dict K ℕ → Dict K ℕ
  tally_all [] d = d
  tally_all (k ∷ ks) d = tally_all ks (tally k d)

  sum-tally_all :
      (ks : List K) (d : Dict K ℕ) → sum (values (tally_all ks d)) ≡ sum (values d) + length ks
  sum-tally_all [] d = omega arith
  sum-tally_all (k ∷ ks) d = omega (arith, sum-tally_all ks (tally k d), sum-tally k d)

  counted-tally_all :
      (j : K) (ks : List K) (d : Dict K ℕ)
      → counted j (tally_all ks d) ≡ counted j d + occurrences j ks
  counted-tally_all j [] d = omega arith
  counted-tally_all j (k ∷ ks) d =
      ground (arith, counted-tally_all j ks (tally k d), counted-tally j k d)

  -- A table that has for `j` how often it is among the keys, and in all as many as there are keys.
  abbrev pub Tallies : K → List K → Dict K ℕ → Type 0
  Tallies j ks d = (counted j d ≡ occurrences j ks) × (sum (values d) ≡ length ks)

  tally_all-Tallies : (j : K) (ks : List K) (d : Dict K ℕ) → d ≡ tally_all ks [] → Tallies j ks d
  tally_all-Tallies j ks d p =
      rw p (omega (arith, counted-tally_all j ks []), omega (arith, sum-tally_all ks []))

module _ (hmac : Text → Text) (canonical : Fields → Text) where
  by_user-count_entries :
      (es : List LogEntry) (r : AuditReport)
      → (count_entries hmac canonical es r).by_user ≡ tally_all (map user_key es) r.by_user
  unfolding count_entries count_entry text_dec
  by_user-count_entries [] r = refl
  by_user-count_entries (e ∷ es) r = by_user-count_entries es (count_entry hmac canonical e r)

  by_action-count_entries :
      (es : List LogEntry) (r : AuditReport)
      → (count_entries hmac canonical es r).by_action
        ≡ tally_all (map (λ (e : LogEntry). e.fields.action) es) r.by_action
  unfolding count_entries count_entry text_dec
  by_action-count_entries [] r = refl
  by_action-count_entries (e ∷ es) r = by_action-count_entries es (count_entry hmac canonical e r)

  by_severity-count_entries :
      (es : List LogEntry) (r : AuditReport)
      → (count_entries hmac canonical es r).by_severity
        ≡ tally_all (map (λ (e : LogEntry). e.fields.severity) es) r.by_severity
  unfolding count_entries count_entry severity_dec
  by_severity-count_entries [] r = refl
  by_severity-count_entries (e ∷ es) r =
      by_severity-count_entries es (count_entry hmac canonical e r)

  totals-count_entries :
      (es : List LogEntry) (r : AuditReport)
      → ((count_entries hmac canonical es r).total_events ≡ r.total_events)
        × ((count_entries hmac canonical es r).integrity_verified
            ≡ r.integrity_verified + length (keep (verify_log_integrity hmac canonical) es))
        × ((count_entries hmac canonical es r).integrity_verified
              + (count_entries hmac canonical es r).integrity_failed
            ≡ r.integrity_verified + r.integrity_failed + length es)
  unfolding count_entries count_entry
  totals-count_entries [] r = ground arith
  totals-count_entries (e ∷ es) r =
      ground (arith, totals-count_entries es (count_entry hmac canonical e r))

  abbrev pub signed_by : Text → Option Text → Bool
  unfolding text_dec
  signed_by digest none = false
  signed_by digest (some t) = t ≟ digest

  -- An entry that carries the HMAC of what it says.
  abbrev pub is_signed : LogEntry → Bool
  is_signed e = signed_by (hmac (canonical e.fields)) e.integrity_signature

  abbrev pub is_critical : LogEntry → Bool
  unfolding severity_dec
  is_critical e = e.fields.severity ≟ Severity.critical

  verify-is_signed :
      (f : Fields) (o : Option Text)
      → verify_log_integrity hmac canonical (record { fields = f; integrity_signature = o })
        ≡ is_signed (record { fields = f; integrity_signature = o })
  unfolding verify_log_integrity sign_log_entry
  verify-is_signed f none = refl
  verify-is_signed f (some t) = refl

  keep-signed :
      (es : List LogEntry) → keep (verify_log_integrity hmac canonical) es ≡ keep is_signed es
  keep-signed [] = refl
  keep-signed (e ∷ es) =
      let same : verify_log_integrity hmac canonical e ≡ is_signed e =
        verify-is_signed e.fields e.integrity_signature in
      ap
        (λ b.
          if b
          then e ∷ keep (verify_log_integrity hmac canonical) es
          else keep (verify_log_integrity hmac canonical) es)
        same
      ∙ ap (λ kept. if is_signed e then e ∷ kept else kept) (keep-signed es)

  length-keep-not :
      (p : LogEntry → Bool) (es : List LogEntry)
      → length (keep p es) + length (keep (λ e. not (p e)) es) ≡ length es
  length-keep-not p [] = refl
  length-keep-not p (e ∷ es) = ground (arith, length-keep-not p es)

  critical_step :
      (b : Bool) (e : LogEntry) (cs : List CriticalEvent) (kept : List LogEntry)
      → (if b then cs ++ (critical_event e ∷ []) else cs) ++ map critical_event kept
        ≡ cs ++ map critical_event (if b then e ∷ kept else kept)
  critical_step true e cs kept = append_assoc cs (critical_event e ∷ []) (map critical_event kept)
  critical_step false e cs kept = refl

  critical-count_entries :
      (es : List LogEntry) (r : AuditReport)
      → (count_entries hmac canonical es r).recent_critical_events
        ≡ r.recent_critical_events ++ map critical_event (keep is_critical es)
  unfolding count_entries count_entry severity_dec
  critical-count_entries [] r = sym (append_nil r.recent_critical_events)
  critical-count_entries (e ∷ es) r =
      critical-count_entries es (count_entry hmac canonical e r)
      ∙ critical_step (is_critical e) e r.recent_critical_events (keep is_critical es)

  -- For each user, action and severity the report has the number of entries of that user, action
  -- and severity, and these numbers add up to the number of entries in each of the three tables. It
  -- counts the entries that carry the HMAC of what they say as verified and all others as failed,
  -- and shows the last ten of the critical entries, in order.
  pub report_of-Tallies :
      (es : List LogEntry) (u a : Text) (s : Severity)
      → ((report_of hmac canonical es).total_events ≡ length es)
        × Tallies u (map user_key es) (report_of hmac canonical es).by_user
        × Tallies a
            (map (λ (e : LogEntry). e.fields.action) es)
            (report_of hmac canonical es).by_action
        × Tallies s
            (map (λ (e : LogEntry). e.fields.severity) es)
            (report_of hmac canonical es).by_severity
        × ((report_of hmac canonical es).integrity_verified ≡ length (keep is_signed es))
        × ((report_of hmac canonical es).integrity_failed
            ≡ length (keep (λ e. not (is_signed e)) es))
        × ((report_of hmac canonical es).recent_critical_events
            ≡ last 10 (map critical_event (keep is_critical es)))
  unfolding report_of text_dec severity_dec
  report_of-Tallies es u a s =
      let r : AuditReport = empty_report (length es) in
      let t = totals-count_entries es r in
      (
        t.0,
        tally_all-Tallies u (map user_key es) _ (by_user-count_entries es r),
        tally_all-Tallies a (map (λ (e : LogEntry). e.fields.action) es) _
            (by_action-count_entries es r),
        tally_all-Tallies s (map (λ (e : LogEntry). e.fields.severity) es) _
            (by_severity-count_entries es r),
        omega (arith, t.1, ap length (keep-signed es)),
        omega (arith, t.1, t.2, ap length (keep-signed es), length-keep-not is_signed es),
        ap (last 10) (critical-count_entries es r),
      )

  module _ (sha256 : Text → Text) where
    verify-entry_of :
        (c : Call) → verify_log_integrity hmac canonical (entry_of hmac canonical sha256 c) ≡ true
    unfolding verify_log_integrity entry_of signed sign_log_entry text_dec
    verify-entry_of c = ≟-refl (hmac (canonical (fields_of sha256 c.0 c.1)))

    verified-entries :
        (cs : List Call)
        → length
            (keep (verify_log_integrity hmac canonical) (map (entry_of hmac canonical sha256) cs))
          ≡ length cs
    verified-entries [] = refl
    verified-entries (c ∷ cs) = rw (verify-entry_of c) (ap suc (verified-entries cs))

    verify_altered :
        (c : Call) (f : Fields)
        → hmac (canonical f) ≢ hmac (canonical (fields_of sha256 c.0 c.1))
        → verify_log_integrity hmac canonical
            (record (entry_of hmac canonical sha256 c) { fields = f })
          ≡ false
    unfolding verify_log_integrity entry_of signed sign_log_entry text_dec
    verify_altered c f h =
        elim (Bool-cases (hmac (canonical (fields_of sha256 c.0 c.1)) ≟ hmac (canonical f))) [
          | inl same ↦ absurd (
              h (
                sym (
                  eq_of_≟ (hmac (canonical (fields_of sha256 c.0 c.1))) (hmac (canonical f)) same)))
          | inr differ ↦ differ
        ]

    -- The entries of some calls, the one of a middle call with other fields.
    abbrev pub altered : List Call → Call → Fields → List Call → List LogEntry
    altered before c f after =
        map (entry_of hmac canonical sha256) before
        ++ (record (entry_of hmac canonical sha256 c) { fields = f }
            ∷ map (entry_of hmac canonical sha256) after)

    length-altered :
        (before after : List Call) (c : Call) (f : Fields)
        → length (altered before c f after) ≡ length before + length after + 1
    length-altered before after c f = omega (
      arith,
      length-append (map (entry_of hmac canonical sha256) before) (
          record (entry_of hmac canonical sha256 c) { fields = f }
          ∷ map (entry_of hmac canonical sha256) after),
      length-map (entry_of hmac canonical sha256) before,
      length-map (entry_of hmac canonical sha256) after,
    )

    verified_altered :
        (before after : List Call) (c : Call) (f : Fields)
        → hmac (canonical f) ≢ hmac (canonical (fields_of sha256 c.0 c.1))
        → length (keep (verify_log_integrity hmac canonical) (altered before c f after))
          ≡ length before + length after
    verified_altered before after c f h =
        let e = record (entry_of hmac canonical sha256 c) { fields = f } in
        let rest = map (entry_of hmac canonical sha256) after in
        rw
          (
            keep-append (verify_log_integrity hmac canonical)
                (map (entry_of hmac canonical sha256) before) (e ∷ rest),
            length-append
                (keep (verify_log_integrity hmac canonical)
                  (map (entry_of hmac canonical sha256) before))
                (keep (verify_log_integrity hmac canonical) (e ∷ rest)),
            verify_altered c f h,
            verified-entries before,
            verified-entries after,
          )
          refl

    -- The log of some calls in which the entry of one call was altered, so that the HMAC of what it
    -- says now is not that of what it said: of all its entries, the report finds exactly one whose
    -- signature fails, and the others verified.
    pub report_of-altered :
        (before after : List Call) (c : Call) (f : Fields)
        → hmac (canonical f) ≢ hmac (canonical (fields_of sha256 c.0 c.1))
        → ((report_of hmac canonical (altered before c f after)).integrity_failed ≡ 1)
          × ((report_of hmac canonical (altered before c f after)).integrity_verified
              ≡ length before + length after)
    unfolding report_of
    report_of-altered before after c f h =
        let es = altered before c f after in
        let t = totals-count_entries es (empty_report (length es)) in
        omega
          (arith, t.1, t.2, verified_altered before after c f h, length-altered before after c f)
