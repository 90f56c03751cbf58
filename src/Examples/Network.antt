-- ===== src/Examples/Network.antt =====
-- Addresses, limits and the circuit at concrete inputs.
use s_com_control_plane.Base.{List, [], arith, codes, some, ℕ, ◌++◌, ◌∷◌, ◌≡◌}
use s_com_control_plane.Net.Dotted.{dotted, digits}
use s_com_control_plane.Topology.{ip_to_zone}
use s_com_control_plane.Topology
use s_com_control_plane.Gateway.Pool.{ip_to_leaf}
use s_com_control_plane.Gateway.Pool.Routing.{leaf_host, ip_to_leaf-agrees}
use s_com_control_plane.Safety.RateLimiter.{default_limits, new}
use s_com_control_plane.Safety.RateLimiter.Runs.{Request, Ordered, run, spec_run, run-eq-spec_run}
use s_com_control_plane.Safety.RateLimiter.Runs.Bounds.{
  WithinLimits, grants, last_time, grants-WithinLimits,
}
use s_com_control_plane.Safety.CircuitBreaker.{is_open}
use s_com_control_plane.Safety.CircuitBreaker.Laws.{
  Event, success, failure, replay, read_open, is_open-replay,
}

ip_to_leaf-agrees_example :
    ip_to_leaf (dotted 10 2 100 10 ++ b'/' ∷ digits 32)
    ≡ some (leaf_host (Topology.ip_to_leaf (dotted 10 2 100 10 ++ b'/' ∷ digits 32)))
ip_to_leaf-agrees_example =
    ip_to_leaf-agrees 10 2 100 10 (omega arith) (omega arith) (omega arith) (omega arith) 32
      (omega arith) (omega arith)

abbrev asked : ℕ → Request
asked at = record { src_ip = codes "10.1.100.10/32"; at = at }

-- Four requests of one host within three seconds: the last is refused.
abbrev four_requests : List Request
four_requests = asked 1000000 ∷ asked 2000000 ∷ asked 3000000 ∷ asked 4000000 ∷ []

four-Ordered : Ordered 0 four_requests
four-Ordered = (omega arith, (omega arith, (omega arith, (omega arith, tt))))

run-eq-spec_run_example :
    run (new default_limits) four_requests ≡ spec_run default_limits [] four_requests
run-eq-spec_run_example = run-eq-spec_run default_limits four_requests four-Ordered

grants-WithinLimits_example :
    WithinLimits default_limits
      (grants four_requests (run (new default_limits) four_requests))
      (last_time 0 four_requests)
grants-WithinLimits_example = grants-WithinLimits default_limits four_requests four-Ordered

-- Two failures, a success and three failures, newest first.
abbrev events : List Event
events = failure 900 ∷ failure 800 ∷ failure 700 ∷ success ∷ failure 500 ∷ failure 400 ∷ []

is_open-replay_example : is_open (replay 3 300 events) 1000 1001 ≡ read_open 3 300 events 1000 1001
is_open-replay_example = is_open-replay 3 300 events 1000 1001
