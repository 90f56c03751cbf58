-- ===== src/Safety/Confidence.antt =====
-- agent/safety/confidence.py (layer L7): what is done at which confidence.
use s_com_control_plane.Base.{Option, if◌then◌else◌, leb, none, some, ℕ}

pub data ConfidenceOutcome : Type 0 where
  enforce enforce_and_notify hold reject : ConfidenceOutcome

pub record Thresholds : Type 0 where
  pub auto_enforce : ℕ
  pub notify : ℕ
  pub hold_at : ℕ

-- The defaults of `config.py`, in millionths.
abbrev pub default_thresholds : Thresholds
default_thresholds = record { auto_enforce = 850000; notify = 700000; hold_at = 500000 }

-- The reason is empty for `enforce`; else it names the confidence and the threshold missed.
unfoldable pub evaluate_confidence : ℕ → Thresholds → ConfidenceOutcome × Option (ℕ × ℕ)
evaluate_confidence confidence t =
    if leb t.auto_enforce confidence
    then (enforce, none)
    else if leb t.notify confidence
    then (enforce_and_notify, some (confidence, t.auto_enforce))
    else if leb t.hold_at confidence
    then (hold, some (confidence, t.notify))
    else (reject, some (confidence, t.hold_at))
