-- ===== src/Examples/Pipeline.antt =====
-- A window of flows, and alerts at the gate.
use s_com_control_plane.Base.{
  Bool, List, Text, [], arith, codes, keep, length, map, none, some, sum, ℕ, ◌%◌, ◌++◌, ◌+◌, ◌==◌,
  ◌∷◌, ◌≡◌,
}
use s_com_control_plane.Models.{SuricataAlert}
use s_com_control_plane.Pipeline.Aggregator.{
  FlowEvent, IpPair, AggregatedIpPair, aggregate_flows, has_both,
}
use s_com_control_plane.Pipeline.Aggregator.Totals.{aggregate_flows-conserves}
use s_com_control_plane.Pipeline.Window.{FlowWindow}
use s_com_control_plane.Pipeline.Window.Laws.{push_all, push_all-last}
use s_com_control_plane.Base.Slices.{last}

abbrev flow : ℕ → Text → FlowEvent
flow n dest = record {
  flow_id = n;
  src_ip = codes "10.1.100.10";
  dest_ip = dest;
  dest_port = 22;
  proto = codes "TCP";
  app_proto = [];
  pkts_toserver = 3;
  pkts_toclient = 2;
  bytes_toserver = 300;
  bytes_toclient = 200;
  flow_state = codes "new";
}

-- Two flows to one server, and one with no destination.
abbrev flows : List FlowEvent
flows = flow 1 (codes "10.1.200.10") ∷ flow 2 [] ∷ flow 3 (codes "10.1.200.10") ∷ []

abbrev web_to_db : IpPair
web_to_db = record { src = codes "10.1.100.10"; dst = codes "10.1.200.10" }

aggregate_flows-conserves_example :
    (sum (map (λ (p : AggregatedIpPair). p.flow_count) (aggregate_flows [] [] none flows))
      ≡ length (keep has_both flows))
    × (sum (map (λ (p : AggregatedIpPair). p.pkts_toserver_sum) (aggregate_flows [] [] none flows))
        ≡ sum (map (λ (f : FlowEvent). f.pkts_toserver) (keep has_both flows)))
    × (sum (map (λ (p : AggregatedIpPair). p.pkts_toclient_sum) (aggregate_flows [] [] none flows))
        ≡ sum (map (λ (f : FlowEvent). f.pkts_toclient) (keep has_both flows)))
    × (sum (map (λ (p : AggregatedIpPair). p.bytes_toserver_sum) (aggregate_flows [] [] none flows))
        ≡ sum (map (λ (f : FlowEvent). f.bytes_toserver) (keep has_both flows)))
    × (sum (map (λ (p : AggregatedIpPair). p.bytes_toclient_sum) (aggregate_flows [] [] none flows))
        ≡ sum (map (λ (f : FlowEvent). f.bytes_toclient) (keep has_both flows)))
aggregate_flows-conserves_example = aggregate_flows-conserves [] [] none flows

abbrev pair : AggregatedIpPair
pair = record {
  src_ip = codes "10.1.100.10";
  dest_ip = codes "10.1.200.10";
  window_start = [];
  window_end = [];
  flow_count = 2;
  tcp_flow_count = 2;
  udp_flow_count = 0;
  pkts_toserver_sum = 6;
  pkts_toclient_sum = 4;
  bytes_toserver_sum = 600;
  bytes_toclient_sum = 400;
  pkts_toserver_max = 3;
  pkts_toclient_max = 2;
  bytes_toserver_max = 300;
  bytes_toclient_max = 200;
  unique_dst_ports = 22 ∷ [];
  unique_dst_port_count = 1;
  unique_app_protos = [];
  states_observed = codes "new" ∷ [];
  flow_ids = 1 ∷ 3 ∷ [];
  src_zone = codes "WEB";
  dest_zone = codes "DB";
}

abbrev small_window : List ℕ → FlowWindow ℕ
small_window b = record { max_buffer = 2; buffer = b; window_start = [] }

push_all-last_example :
    push_all (2 ∷ 3 ∷ []) (small_window (1 ∷ []))
    ≡ some (small_window (last 2 ((1 ∷ []) ++ (2 ∷ 3 ∷ []))))
push_all-last_example = push_all-last (2 ∷ 3 ∷ []) 2 [] (1 ∷ []) (omega arith) (omega arith)

abbrev noisy_alert : SuricataAlert
noisy_alert = record {
  src_ip = codes "10.1.100.10";
  dest_ip = codes "10.1.200.10";
  src_port = 40000;
  dest_port = 5432;
  proto = codes "TCP";
  sid = 9000001;
  severity = 1;
}

-- A store that counts the questions, and finds each second one seen.
abbrev counting : ℕ → Text → ℕ → ℕ × Bool
counting n ip sid = (n + 1, n % 2 == 1)
