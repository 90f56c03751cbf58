-- ===== src/Pipeline/Gate/Laws.antt =====
-- Which alerts reach the agent.
use s_com_control_plane.Base.{
  Bool, List, Text, arith, before, contains, false, if◌then◌else◌, is_some, leb, not, text_dec,
  text_eq, ℕ, ◌&&◌, ◌≡◌,
}
use s_com_control_plane.Models.{SuricataAlert}
use s_com_control_plane.Safety.Guardrails.{is_protected_ip}
use s_com_control_plane.Pipeline.Gate.{
  severity_filter, whitelist_filter, dedup_filter, zone_filter, after_dedup, after_severity,
  should_process,
}

-- The source is neither protected nor on the list.
abbrev pub may_be_reported : List Text → SuricataAlert → Bool
unfolding text_dec
may_be_reported whitelist_ips a =
    not (is_protected_ip a.src_ip) && not (contains (before b'/' a.src_ip) whitelist_ips)

module _ {R : Type 0} (is_duplicate : R → Text → ℕ → R × Bool) (min_severity : ℕ)
    (whitelist_ips : List Text) where
  -- The answer in one table: what is not severe enough is refused, and leaves the store alone; for
  -- the rest the store is asked once.
  abbrev pub read_gate : SuricataAlert → R → R × Bool
  read_gate a r =
      if leb a.severity min_severity
      then (
        (is_duplicate r a.src_ip a.sid).0,
        not (is_duplicate r a.src_ip a.sid).1 && may_be_reported whitelist_ips a,
      )
      else (r, false)

  -- An alert passes the gate exactly if it is severe enough, was not seen before, and its source
  -- is neither protected nor whitelisted. Redis is asked exactly if it is severe enough.
  should_process-read_gate :
      (a : SuricataAlert) (r : R)
      → (
        (should_process is_duplicate min_severity whitelist_ips a r).0,
        not (is_some (should_process is_duplicate min_severity whitelist_ips a r).1),
      )
        ≡ read_gate a r
  unfolding should_process after_severity after_dedup severity_filter dedup_filter whitelist_filter
      zone_filter text_dec
  should_process-read_gate a r = ground arith
