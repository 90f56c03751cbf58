-- ===== src/Agent/Consistency.antt =====
-- intelligence-layer/src/agent/safety/consistency.py and semantic_uncertainty.py: the vote over
-- several runs of the LLM. The messages of a rejection are left out.
--
-- `chat` is the LLM: what the attempt of a run, both counted from 0, gives. The entropy is a float;
-- the parameter `too_uncertain` tells of the sizes of the clusters, in the order in which they come
-- up, whether it is above the limit. The wait between attempts is left out.
use s_com_control_plane.Base.{
  Bool, List, Option, Text, [], codes, false, if◌then◌else◌, is_empty, leb, length, ltb, map, max,
  none, or_else, some, suc, text_dec, text_eq, true, zero, ℕ, ◌*◌, ◌++◌, ◌+◌, ◌==◌, ◌∷◌,
}
use s_com_control_plane.Base.Int.{ℤ, pos, negsuc}
use s_com_control_plane.Base.Dict.{Dict, lookup, insert, values}
use s_com_control_plane.Topology.{Zone, web, db, app, mgt, ip_to_zone}
use s_com_control_plane.Agent.Intent.{show_ℤ}
pub mod Runs
pub mod Winner
pub mod Tally
pub mod Sources

-- The keys of an answer that the vote reads; `none` is a key that is missing. `id` stands for the
-- rest of the answer.
pub record RunResult : Type 0 where
  pub id : ℕ
  pub action : Option Text
  pub src_ip : Option Text
  pub dst_ip : Option Text
  pub dst_port : Option ℤ
  pub ttl_seconds : Option ℤ

pub data Reply : Type 0 where
  fails : Text → Reply
  answers : RunResult → Reply

-- The answer of one run, and how many attempts it took.
pub record Run : Type 0 where
  pub result : Option RunResult
  pub attempts : ℕ

abbrev one_more : Run → Run
one_more r = record r { attempts = suc r.attempts }

module _ (chat : ℕ → ℕ → Reply) where
  -- The loop over the attempts of a run, `left` of which are allowed.
  unfoldable pub attempt_run : ℕ → ℕ → ℕ → Run
  attempt_run run zero at = record { result = none; attempts = 0 }
  attempt_run run (suc left) at = elim (chat run at) [
    | fails e ↦ one_more (attempt_run run left (at + 1))
    | answers r ↦ record { result = some r; attempts = 1 }
  ]

  -- The runs from number `run` on.
  unfoldable pub do_runs : ℕ → ℕ → ℕ → List Run
  unfolding attempt_run
  do_runs zero run max_retries = []
  do_runs (suc n) run max_retries =
      attempt_run run (max_retries + 1) 0 ∷ do_runs n (run + 1) max_retries

-- The answers of some runs, in order.
abbrev pub add_result : Option RunResult → List RunResult → List RunResult
add_result none rs = rs
add_result (some r) rs = r ∷ rs

unfoldable pub results_of : List Run → List RunResult
results_of [] = []
results_of (r ∷ rs) = add_result r.result (results_of rs)

abbrev pub Votes : Type 0
Votes = Dict Text (List RunResult)

abbrev pub action_of : RunResult → Text
action_of r = or_else r.action (codes "UNKNOWN")

-- `votes.setdefault(action, []).append(result)`
abbrev pub votes_for : Text → Votes → List RunResult
unfolding text_dec
votes_for a v = or_else (lookup a v) []

unfoldable pub add_vote : RunResult → Votes → Votes
unfolding votes_for text_dec
add_vote r v = insert (action_of r) (votes_for (action_of r) v ++ (r ∷ [])) v

unfoldable pub count_votes : List RunResult → Votes → Votes
unfolding add_vote
count_votes [] v = v
count_votes (r ∷ rs) v = count_votes rs (add_vote r v)

-- `max(votes, key=lambda a: len(votes[a]))`, with its votes: the first of those with the most.
unfoldable pub best_from : Text × List RunResult → Votes → Text × List RunResult
best_from b [] = b
best_from b (v ∷ vs) = best_from (if ltb (length b.1) (length v.1) then v else b) vs

unfoldable pub ttl_bucket : ℤ → Text
ttl_bucket (negsuc n) = codes "none"
ttl_bucket (pos n) =
    if n == 0
    then codes "none"
    else if ltb n 600
    then codes "short"
    else if ltb n 1800
    then codes "medium"
    else if ltb n 3600
    then codes "long"
    else codes "max"

abbrev pub zone_text : Option Zone → Text
zone_text none = codes "unknown"
zone_text (some web) = codes "WEB"
zone_text (some db) = codes "DB"
zone_text (some app) = codes "APP"
zone_text (some mgt) = codes "MGT"

unfoldable pub decision_signature : RunResult → Text
unfolding ip_to_zone ttl_bucket
decision_signature r =
    let dst = or_else r.dst_ip [] in
    let dst_zone = if is_empty dst then codes "none" else zone_text (ip_to_zone dst) in
    action_of r
    ++ (codes "|src="
        ++ (zone_text (ip_to_zone (or_else r.src_ip []))
            ++ (codes "|dst="
                ++ (dst_zone
                    ++ (codes "|port="
                        ++ (show_ℤ (or_else r.dst_port (pos 0))
                            ++ (codes "|ttl=" ++ ttl_bucket (or_else r.ttl_seconds (pos 0)))))))))

-- `Counter(xs)`
unfoldable pub counter : List Text → Dict Text ℕ → Dict Text ℕ
unfolding text_dec
counter [] d = d
counter (x ∷ xs) d = counter xs (insert x (or_else (lookup x d) 0 + 1) d)

abbrev pub maximum : List ℕ → ℕ
maximum [] = 0
maximum (n ∷ ns) = max n (maximum ns)

-- The sources that are named.
abbrev pub named : Option Text → List Text → List Text
named none rest = rest
named (some t) rest = if is_empty t then rest else t ∷ rest

abbrev pub src_ips : List RunResult → List Text
src_ips [] = []
src_ips (r ∷ rs) = named r.src_ip (src_ips rs)

-- The count of `most_common(1)`; 0 where no source is named.
unfoldable pub dominant_count : List RunResult → ℕ
unfolding counter
dominant_count rs = maximum (values (counter (src_ips rs) []))

-- `[r for action_runs in votes.values() for r in action_runs]`
abbrev pub all_results : Votes → List RunResult
all_results [] = []
all_results ((a, rs) ∷ v) = rs ++ all_results v

-- `xs[-1]` of the votes of the best action.
abbrev pub last_of : List RunResult → Option RunResult
last_of [] = none
last_of (r ∷ []) = some r
last_of (r ∷ s ∷ rs) = last_of (s ∷ rs)

module _ (too_uncertain : List ℕ → Bool) where
  -- Whether `evaluate_uncertainty` passes, with its limit of 0.67 on the share of the source that
  -- is named most.
  unfoldable pub evaluate_uncertainty : List RunResult → Bool
  unfolding dominant_count decision_signature counter
  evaluate_uncertainty rs =
      if leb (length rs) 1
      then true
      else if too_uncertain (values (counter (map decision_signature rs) []))
      then false
      else if ltb (dominant_count rs * 100) (67 * length rs)
      then false
      else true

  unfoldable pub decide : ℕ → Votes → Option RunResult
  unfolding best_from evaluate_uncertainty
  decide min_agree [] = none
  decide min_agree (v ∷ vs) =
      let best = best_from v vs in
      if ltb (length best.1) min_agree
      then none
      else if evaluate_uncertainty (all_results (v ∷ vs))
      then last_of best.1
      else none

  -- `none` is a rejection.
  unfoldable pub self_consistency_vote : (ℕ → ℕ → Reply) → ℕ → ℕ → ℕ → Option RunResult
  unfolding decide count_votes results_of do_runs
  self_consistency_vote chat n_runs min_agree max_retries =
      decide min_agree (count_votes (results_of (do_runs chat n_runs 0 max_retries)) [])
