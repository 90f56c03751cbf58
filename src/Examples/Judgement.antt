-- ===== src/Examples/Judgement.antt =====
-- The reputation of an address at concrete rows.
use s_com_control_plane.Base.{List, [], none, some, ◌∷◌}
use s_com_control_plane.Judgement.Reputation.{Row, true_positive, inconclusive}

abbrev rows : List Row
rows =
    record { outcome = some true_positive; count = some 2; max_ts = some 30 }
    ∷ record { outcome = some inconclusive; count = none; max_ts = none }
    ∷ record { outcome = none; count = some 4; max_ts = some 50 }
    ∷ []
