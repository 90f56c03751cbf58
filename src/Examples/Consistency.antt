-- ===== src/Examples/Consistency.antt =====
-- Three runs of the LLM that agree, the second after a failure.
use s_com_control_plane.Base.{
  Bool, List, arith, codes, false, if◌then◌else◌, length, none, refl, some, suc, text_dec, zero, ℕ,
  ◌+◌, ◌==◌, ◌≡◌, ◌≤◌,
}
use s_com_control_plane.Base.Int.{pos}
use s_com_control_plane.Topology.{ip_to_zone}
use s_com_control_plane.Agent.Consistency.{
  Reply, RunResult, answers, do_runs, fails, results_of, self_consistency_vote,
}
use s_com_control_plane.Agent.Consistency.Runs.{AreRuns, do_runs-AreRuns}
use s_com_control_plane.Agent.Consistency.Winner.{IsWinner, self_consistency_vote-IsWinner}

abbrev drop_web : RunResult
drop_web = record {
  id = 1;
  action = some (codes "DROP");
  src_ip = some (codes "10.1.100.10/32");
  dst_ip = none;
  dst_port = none;
  ttl_seconds = some (pos 3600);
}

abbrev llm : ℕ → ℕ → Reply
llm run zero = if run == 1 then fails (codes "timeout") else answers drop_web
llm run (suc attempt) = answers drop_web

abbrev never : List ℕ → Bool
never counts = false

do_runs-AreRuns_example :
    AreRuns llm (2 + 1) 0 (do_runs llm 3 0 2) × (length (do_runs llm 3 0 2) ≡ 3)
do_runs-AreRuns_example = do_runs-AreRuns llm 3 0 2

vote : self_consistency_vote never llm 3 2 2 ≡ some drop_web
unfolding self_consistency_vote text_dec ip_to_zone
vote = refl

self_consistency_vote-IsWinner_example :
    IsWinner 2 (results_of (do_runs llm 3 0 2)) (codes "hold") drop_web
self_consistency_vote-IsWinner_example =
    self_consistency_vote-IsWinner never llm 3 2 2 (codes "hold") drop_web vote

three_results : length (results_of (do_runs llm 3 0 2)) ≡ 3
unfolding do_runs results_of
three_results = refl

three_answers :
    (2 ≤ length (results_of (do_runs llm 3 0 2))) × (length (results_of (do_runs llm 3 0 2)) ≤ 3)
three_answers = omega (arith, three_results)
