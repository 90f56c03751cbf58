-- ===== src/Policy/Sids.antt =====
-- intelligence-layer/src/core/knowledge.py: the signatures that the agent knows. The descriptions
-- and the MITRE texts, which only prompts show, are left out.
use s_com_control_plane.Base.{Option, Text, [], codes, nat_eq, ℕ, ℕ_discrete, ◌∷◌}
use s_com_control_plane.Base.Dict.{Dict, lookup}

pub record SidInfo : Type 0 where
  pub severity : ℕ
  pub action : Text
  pub ttl : ℕ

-- `SID_KNOWLEDGE`
abbrev pub sid_knowledge : Dict ℕ SidInfo
sid_knowledge =
    (9000001, record { severity = 1; action = codes "block"; ttl = 3600 })
    ∷ (9000002, record { severity = 1; action = codes "block"; ttl = 3600 })
    ∷ (9000010, record { severity = 3; action = codes "log_only"; ttl = 0 })
    ∷ (9000011, record { severity = 3; action = codes "log_only"; ttl = 0 })
    ∷ (9000020, record { severity = 4; action = codes "log_only"; ttl = 0 })
    ∷ (9000030, record { severity = 2; action = codes "block_targeted"; ttl = 1800 })
    ∷ (9000031, record { severity = 2; action = codes "block_targeted"; ttl = 1800 })
    ∷ (9000032, record { severity = 2; action = codes "block_targeted"; ttl = 1800 })
    ∷ (9000033, record { severity = 1; action = codes "block_targeted_escalate"; ttl = 3600 })
    ∷ (9000034, record { severity = 3; action = codes "agent_time_eval"; ttl = 900 })
    ∷ (9000035, record { severity = 1; action = codes "block_targeted_flag_host"; ttl = 3600 })
    ∷ []

unfoldable pub get_sid_info : ℕ → Option SidInfo
unfolding ℕ_discrete
get_sid_info sid = lookup sid sid_knowledge
