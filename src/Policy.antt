-- ===== src/Policy.antt =====
-- intelligence-layer/src/core/policy.py, core/knowledge.py and the catalogue of
-- core/threat_playbook.py: what the agent knows of zones and signatures.
pub mod Sids
use s_com_control_plane.Base.{
  Bool, Eq, Option, Text, [], codes, false, if◌then◌else◌, is_infix, nat_eq, none, some, text_dec,
  text_eq, true, upper, ℕ, ℕ_discrete, ◌&&◌, ◌∷◌, ◌≟◌,
}
use s_com_control_plane.Base.Dict.{Dict, lookup}
use s_com_control_plane.Topology.{Zone, web, db, app, mgt, ip_to_zone}

pub data Verdict : Type 0 where
  allow deny : Verdict

unfoldable pub pair_dec : Discrete (Zone × Zone)
pair_dec = hlevel

instance abbrev pub pair_eq : Eq (Zone × Zone)
pair_eq = record { dec = pair_dec }

-- `POLICY_MATRIX` and `SID_DETECTIONS` are replaced at startup by what the graph database holds,
-- so they are an argument: the verdicts, and the recommended response of each signature.
pub record Knowledge : Type 0 where
  pub matrix : Dict (Zone × Zone) Verdict
  pub responses : Dict ℕ Text

-- The matrix and the responses that the Markdown sources under `knowledge/infra` give.
abbrev pub authored : Knowledge
authored = record {
  matrix =
      ((web, db), deny)
      ∷ ((web, app), allow)
      ∷ ((web, mgt), deny)
      ∷ ((db, web), deny)
      ∷ ((db, app), deny)
      ∷ ((db, mgt), deny)
      ∷ ((app, web), deny)
      ∷ ((app, db), allow)
      ∷ ((app, mgt), deny)
      ∷ ((mgt, web), allow)
      ∷ ((mgt, db), allow)
      ∷ ((mgt, app), allow)
      ∷ [];
  responses =
      (9000001, codes "DROP src_ip")
      ∷ (9000002, codes "DROP src_ip")
      ∷ (9000030, codes "DROP targeted (src+dst+port)")
      ∷ (9000031, codes "DROP targeted (src+dst+port)")
      ∷ (9000032, codes "DROP targeted (src+dst+port)")
      ∷ (9000033, codes "DROP targeted (src+dst+port) + escalate")
      ∷ (
        9000034,
        codes "agent-evaluated (log_only in business hours, DROP off-hours with corroboration)",
      )
      ∷ (9000035, codes "DROP targeted (src+dst+port) + flag src host as suspicious")
      ∷ (9000010, codes "log_only")
      ∷ (9000011, codes "log_only")
      ∷ (9000020, codes "log_only")
      ∷ [];
}

-- A pair that is not listed is denied.
abbrev verdict_or_deny : Option Verdict → Verdict
verdict_or_deny none = deny
verdict_or_deny (some v) = v

unfoldable pub check_policy : Knowledge → Zone → Zone → Verdict
unfolding pair_dec
check_policy k src dst = verdict_or_deny (lookup (src, dst) k.matrix)

-- `det and det.recommended_response and "DROP" in det.recommended_response.upper()`
abbrev pub recommends_drop : Option Text → Bool
recommends_drop none = false
recommends_drop (some []) = false
recommends_drop (some (c ∷ s)) = is_infix (codes "DROP") (upper (c ∷ s))

abbrev response_of : Knowledge → Option ℕ → Option Text
response_of k none = none
response_of k (some sid) = lookup sid k.responses

unfoldable pub overrides : Knowledge → Option ℕ → Bool
unfolding ℕ_discrete
overrides k sid = recommends_drop (response_of k sid)

abbrev is_allow : Verdict → Bool
is_allow allow = true
is_allow deny = false

abbrev pub conflict_of :
    Knowledge → Option Zone → Option Zone → Text → Option ℕ → Option (Zone × Zone)
conflict_of k (some src) (some dst) action sid =
    if action ≟ codes "DROP" && is_allow (check_policy k src dst)
    then (if overrides k sid then none else some (src, dst))
    else none
conflict_of k _ _ action sid = none

-- The zones of a DROP that would break an allowed flow; the message names them.
unfoldable pub detect_conflict : Knowledge → Text → Text → Text → Option ℕ → Option (Zone × Zone)
unfolding ip_to_zone check_policy overrides text_dec
detect_conflict k src_ip dst_ip action sid =
    conflict_of k (ip_to_zone src_ip) (ip_to_zone dst_ip) action sid
