-- ===== src/Judgement/Reputation.antt =====
-- intelligence-layer/src/core/asset_reputation.py: the score of an address from labelled decisions.
-- The SQL query is a parameter: its rows. The score is exact, in hundredths: the rounding of the
-- code's floats is not modelled, nor is the band, which depends on it at its edges, nor the text.
use s_com_control_plane.Base.{
  Bool, List, Option, Text, [], arith, false, if◌then◌else◌, ltb, min, none, or_else, some, ℕ, ◌*◌,
  ◌+◌, ◌-◌, ◌∷◌, ◌≡◌, ◌≤◌,
}

pub data Outcome : Type 0 where
  true_positive false_positive recurrence inconclusive : Outcome

-- `max(0.0, min(1.0, raw))`, with what lowers the score on one side and what raises it on the other.
unfoldable pub compute_score : (tp fp recur unsure : ℕ) → ℕ
compute_score tp fp recur unsure = min 100 ((100 + 15 * fp) - (20 * tp + 10 * recur + 5 * unsure))

-- A row of the query: an outcome, or `none` for what is no label, with its count and its latest
-- instant.
pub record Row : Type 0 where
  pub outcome : Option Outcome
  pub count : Option ℕ
  pub max_ts : Option ℕ

pub record Counts : Type 0 where
  pub tp : ℕ
  pub fp : ℕ
  pub recur : ℕ
  pub unsure : ℕ
  pub unlabelled : ℕ
  pub last_seen : Option ℕ

abbrev pub later : Option ℕ → Option ℕ → Option ℕ
later none seen = seen
later (some t) none = some t
later (some t) (some seen) = if ltb seen t then some t else some seen

abbrev pub add_count : Option Outcome → ℕ → Counts → Counts
add_count none n c = record c { unlabelled = c.unlabelled + n }
add_count (some true_positive) n c = record c { tp = c.tp + n }
add_count (some false_positive) n c = record c { fp = c.fp + n }
add_count (some recurrence) n c = record c { recur = c.recur + n }
add_count (some inconclusive) n c = record c { unsure = c.unsure + n }

abbrev pub counted : Row → Counts → Counts
counted r c =
    let c' = add_count r.outcome (or_else r.count 0) c in
    record c' { last_seen = later r.max_ts c.last_seen }

abbrev pub no_counts : Counts
no_counts = record { tp = 0; fp = 0; recur = 0; unsure = 0; unlabelled = 0; last_seen = none }

-- The loop over the rows.
unfoldable pub count_rows : List Row → Counts → Counts
count_rows [] c = c
count_rows (r ∷ rs) c = count_rows rs (counted r c)

pub record AssetReputation : Type 0 where
  pub src_ip : Text
  pub window_hours : ℕ
  pub score : ℕ
  pub tp_count : ℕ
  pub fp_count : ℕ
  pub recurrence_count : ℕ
  pub inconclusive_count : ℕ
  pub total_decisions : ℕ
  pub has_history : Bool
  pub last_seen : Option ℕ

abbrev pub total_of : Counts → ℕ
total_of c = c.tp + c.fp + c.recur + c.unsure + c.unlabelled

abbrev pub reputation_of : Text → ℕ → Counts → AssetReputation
unfolding compute_score
reputation_of src_ip window_hours c =
    let has_history = ltb 0 (total_of c) in
    let score = if has_history then compute_score c.tp c.fp c.recur c.unsure else 100 in
    record {
      src_ip = src_ip;
      window_hours = window_hours;
      score = score;
      tp_count = c.tp;
      fp_count = c.fp;
      recurrence_count = c.recur;
      inconclusive_count = c.unsure;
      total_decisions = total_of c;
      has_history = has_history;
      last_seen = c.last_seen;
    }

-- `fetch_reputation`; without a database (`none`), the neutral default.
unfoldable pub fetch_reputation : Option (List Row) → Text → ℕ → AssetReputation
unfolding reputation_of count_rows
fetch_reputation none src_ip window_hours = record {
  src_ip = src_ip;
  window_hours = window_hours;
  score = 100;
  tp_count = 0;
  fp_count = 0;
  recurrence_count = 0;
  inconclusive_count = 0;
  total_decisions = 0;
  has_history = false;
  last_seen = none;
}
fetch_reputation (some rows) src_ip window_hours =
    reputation_of src_ip window_hours (count_rows rows no_counts)

-- The counts of the rows, added up.
abbrev pub rows_total : List Row → ℕ
rows_total [] = 0
rows_total (r ∷ rs) = or_else r.count 0 + rows_total rs

add_count-total :
    (o : Option Outcome) (n : ℕ) (c : Counts) → total_of (add_count o n c) ≡ total_of c + n
add_count-total none n c = omega arith
add_count-total (some true_positive) n c = omega arith
add_count-total (some false_positive) n c = omega arith
add_count-total (some recurrence) n c = omega arith
add_count-total (some inconclusive) n c = omega arith

count_rows-total :
    (rs : List Row) (c : Counts) → total_of (count_rows rs c) ≡ total_of c + rows_total rs
unfolding count_rows
count_rows-total [] c = omega arith
count_rows-total (r ∷ rs) c =
    omega
      (arith, count_rows-total rs (counted r c), add_count-total r.outcome (or_else r.count 0) c)

-- More true positives, recurrences and inconclusive outcomes, and fewer false positives, never
-- raise the score, and it is at most 1.
compute_score-antitone :
    (tp fp recur unsure tp' fp' recur' unsure' : ℕ)
    → tp ≤ tp'
    → fp' ≤ fp
    → recur ≤ recur'
    → unsure ≤ unsure'
    → (compute_score tp' fp' recur' unsure' ≤ compute_score tp fp recur unsure)
      × (compute_score tp fp recur unsure ≤ 100)
unfolding compute_score
compute_score-antitone tp fp recur unsure tp' fp' recur' unsure' a b c d =
    (omega arith, omega arith)

-- A reputation counts each decision of the query once, labelled or not.
fetch_reputation-total :
    (rows : List Row) (src_ip : Text) (hours : ℕ)
    → (fetch_reputation (some rows) src_ip hours).total_decisions ≡ rows_total rows
unfolding fetch_reputation reputation_of
fetch_reputation-total rows src_ip hours = omega (arith, count_rows-total rows no_counts)
