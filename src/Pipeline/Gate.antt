-- ===== src/Pipeline/Gate.antt =====
-- intelligence-layer/src/pipeline/filters.py and gate.py: which alerts the agent sees. Redis is a
-- parameter: `is_duplicate` tells whether a source and a signature were seen, and leaves a store.
use s_com_control_plane.Base.{
  Bool, List, Option, Text, before, contains, if◌then◌else◌, ltb, none, some, text_dec, text_eq, ℕ,
}
pub mod Laws
use s_com_control_plane.Models.{SuricataAlert}
use s_com_control_plane.Safety.Guardrails.{is_protected_ip}

-- The reason of a filter that does not pass.
pub data Refusal : Type 0 where
  severity_above : ℕ → ℕ → Refusal
  duplicate : ℕ → Text → Refusal
  never_blocked : Text → Refusal
  whitelisted : Text → Refusal

unfoldable pub severity_filter : SuricataAlert → ℕ → Option Refusal
severity_filter a min_severity =
    if ltb min_severity a.severity then some (severity_above a.severity min_severity) else none

unfoldable pub whitelist_filter : SuricataAlert → List Text → Option Refusal
unfolding is_protected_ip text_dec
whitelist_filter a whitelist_ips =
    if is_protected_ip a.src_ip
    then some (never_blocked a.src_ip)
    else if contains (before b'/' a.src_ip) whitelist_ips
    then some (whitelisted (before b'/' a.src_ip))
    else none

-- It refuses nothing: an unknown zone only changes the reason, which a passing filter does not
-- report.
unfoldable pub zone_filter : SuricataAlert → Option Refusal
zone_filter a = none

module _ {R : Type 0} (is_duplicate : R → Text → ℕ → R × Bool) (min_severity : ℕ)
    (whitelist_ips : List Text) where
  unfoldable pub dedup_filter : SuricataAlert → R → R × Option Refusal
  dedup_filter a r =
      let (r', seen) = is_duplicate r a.src_ip a.sid in
      (r', if seen then some (duplicate a.sid a.src_ip) else none)

  abbrev pub first_refusal : Option Refusal → Option Refusal → Option Refusal
  first_refusal (some x) y = some x
  first_refusal none y = y

  abbrev pub after_dedup : SuricataAlert → R × Option Refusal → R × Option Refusal
  unfolding whitelist_filter zone_filter
  after_dedup a (r, some x) = (r, some x)
  after_dedup a (r, none) = (r, first_refusal (whitelist_filter a whitelist_ips) (zone_filter a))

  abbrev pub after_severity : Option Refusal → SuricataAlert → R → R × Option Refusal
  unfolding dedup_filter after_dedup
  after_severity (some x) a r = (r, some x)
  after_severity none a r = after_dedup a (dedup_filter a r)

  -- `should_process`: no refusal is the answer `True`.
  unfoldable pub should_process : SuricataAlert → R → R × Option Refusal
  unfolding severity_filter after_severity
  should_process a r = after_severity (severity_filter a min_severity) a r
