-- ===== src/Judgement/Labels.antt =====
-- intelligence-layer/src/storage/incident_memory.py: the labels that past decisions get. The answers
-- of the IDS are a parameter, the two tables are lists of rows. Times are seconds; traces, the wait
-- between two cycles and the times of the labels are left out. As in the code, an alert from before
-- the decision counts.
use s_com_control_plane.Base.{
  Bool, List, Option, Text, [], any, codes, false, if◌then◌else◌, keep, leb, length, ltb, map, none,
  not, some, suc, text_dec, text_eq, true, zero, ℕ, ◌&&◌, ◌+◌, ◌∷◌, ◌≟◌,
}
use s_com_control_plane.Base.Slices.{take}
use s_com_control_plane.Judgement.Reputation.{Outcome, true_positive, recurrence, inconclusive}
pub mod Laws

-- What comes of a timestamp: it is not readable, or a time with or without a zone.
pub data Stamp : Type 0 where
  unreadable : Stamp
  zoned zoneless : ℕ → Stamp

-- An entry of the answer; one that is no dictionary raises.
pub data Entry : Type 0 where
  alert : Option Text → Stamp → Entry
  no_object : Entry

-- What the IDS answers.
pub data Answer : Type 0 where
  failed : Text → Answer
  status : ℕ → Answer
  unexpected : Answer
  alerts : List Entry → Answer

pub data Notes : Type 0 where
  missing_source unexpected_payload no_recurrence : Notes
  api_status : ℕ → Notes
  query_failed : Text → Notes
  during_ttl after_ttl : ℕ → Notes

-- The columns that are read or written.
pub record Row : Type 0 where
  pub id : Text
  pub alert_src_ip : Option Text
  pub outcome : Text
  pub created_at : ℕ
  pub ttl_seconds : Option ℕ
  pub label : Option (Outcome × Notes)

abbrev pub is_from : Text → Option Text → Bool
unfolding text_dec
is_from src none = false
is_from src (some s) = s ≟ src

-- The timestamps of the alerts from the source.
abbrev pub recurrences : Text → List Entry → List Stamp
unfolding is_from
recurrences src [] = []
recurrences src (no_object ∷ es) = recurrences src es
recurrences src (alert s t ∷ es) =
    let ts = recurrences src es in if is_from src s then t ∷ ts else ts

abbrev pub is_no_object : Entry → Bool
is_no_object no_object = true
is_no_object (alert s t) = false

-- The comparison with a time that has no zone raises.
abbrev pub is_zoneless : Stamp → Bool
is_zoneless (zoneless t) = true
is_zoneless t = false

abbrev pub within_ttl : ℕ → Stamp → Bool
within_ttl end (zoned t) = ltb t end
within_ttl end t = false

abbrev pub past_ttl : ℕ → Stamp → Bool
past_ttl end (zoned t) = not (ltb t end)
past_ttl end t = false

-- `decision.ttl_seconds or 3600`
abbrev pub ttl_of : Option ℕ → ℕ
ttl_of none = 3600
ttl_of (some zero) = 3600
ttl_of (some (suc n)) = suc n

abbrev pub judged : List Stamp → (within after : ℕ) → Outcome × Notes
judged [] within after = (true_positive, no_recurrence)
judged (t ∷ ts) zero after = (true_positive, after_ttl after)
judged (t ∷ ts) (suc n) after = (recurrence, during_ttl (suc n))

abbrev pub judge_stamps : ℕ → List Stamp → Option (Outcome × Notes)
judge_stamps end ts =
    if any is_zoneless ts
    then none
    else some (judged ts (length (keep (within_ttl end) ts)) (length (keep (past_ttl end) ts)))

abbrev pub judge : Text → ℕ → Answer → Option (Outcome × Notes)
unfolding recurrences
judge src end (failed m) = some (inconclusive, query_failed m)
judge src end (status n) = some (inconclusive, api_status n)
judge src end unexpected = some (inconclusive, unexpected_payload)
judge src end (alerts es) =
    if any is_no_object es then none else judge_stamps end (recurrences src es)

-- `_label_one`; `none` is an exception.
unfoldable pub label_one : Row → Answer → Option (Outcome × Notes)
unfolding judge
label_one d answer = elim d.alert_src_ip [
  | none ↦ some (inconclusive, missing_source)
  | some src ↦ judge src (d.created_at + ttl_of d.ttl_seconds) answer
]

abbrev pub is_none {ℓ} : {A : Type ℓ} → Option A → Bool
is_none none = true
is_none (some a) = false

-- The rows of the first query.
abbrev pub pending : ℕ → Row → Bool
unfolding text_dec
pending cutoff d = (d.outcome ≟ codes "enforced") && is_none d.label && leb d.created_at cutoff

abbrev pub set_label : Text → Outcome × Notes → List Row → List Row
unfolding text_dec
set_label id l rows = map (λ (d : Row). if d.id ≟ id then record d { label = some l } else d) rows

-- `decisions` and `decisions_history`
pub record Tables : Type 0 where
  pub decisions : List Row
  pub history : List Row

module _ (ask : Row → Answer) where
  -- The loop over the rows that were read.
  unfoldable pub label_all : List Row → Tables → Option Tables
  unfolding set_label
  label_all [] t = some t
  label_all (d ∷ ds) t = elim (label_one d (ask d)) [
    | none ↦ none
    | some l ↦
        label_all ds (record {
          decisions = set_label d.id l t.decisions;
          history = set_label d.id l t.history;
        })
  ]

  -- What `commit` leaves; after an exception nothing is committed.
  abbrev pub committed : Tables → Option Tables → Tables
  committed t none = t
  committed t (some t') = t'

  -- `_label_pending`, with the errors that `_run_loop` catches.
  unfoldable pub label_pending : ℕ → Tables → Tables
  unfolding label_all pending
  label_pending cutoff t = committed t (label_all (take 20 (keep (pending cutoff) t.decisions)) t)
