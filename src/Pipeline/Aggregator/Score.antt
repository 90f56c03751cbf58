-- ===== src/Pipeline/Aggregator/Score.antt =====
-- Which pairs are worth a call of the LLM.
use s_com_control_plane.Base.{Bool, arith, leb, ltb, ◌+◌, ◌||◌, ◌≡◌}
use s_com_control_plane.Pipeline.Aggregator.{
  AggregatedIpPair, suspect_score, crosses_into_critical, uses_admin_port, fans_out, leaves_db,
  points,
}

score_of_signals :
    (a b c d e : Bool)
    → leb 2 (points a 2 + points b 2 + points c 1 + points d 2 + points e 3) ≡ (a || b || d || e)
score_of_signals a b c d e = ground arith

-- A pair reaches the score 2, from which it is dispatched, exactly if it shows one of the four
-- signals: several flows into another zone that is critical, an administration port used from
-- outside MGT, more than five ports, or a flow out of DB. Many flows alone never suffice.
pub suspect_score-signals :
    (p : AggregatedIpPair)
    → leb 2 (suspect_score p)
      ≡ (crosses_into_critical p || uses_admin_port p || fans_out p || leaves_db p)
unfolding suspect_score
suspect_score-signals p =
    score_of_signals (crosses_into_critical p) (uses_admin_port p) (ltb 10 p.flow_count)
      (fans_out p) (leaves_db p)
