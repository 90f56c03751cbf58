-- ===== src/Pipeline/Aggregator.antt =====
-- intelligence-layer/src/pipeline/flow_aggregator.py, with models/flow.py: the flows of a window by
-- pair of addresses. The counters of a flow are natural numbers.
use s_com_control_plane.Base.{
  Bool, Eq, List, Option, Text, [], any, codes, contains, false, if◌then◌else◌, is_empty, keep,
  length, lower, ltb, map, max, nat_eq, none, not, or_else, some, sum, text_dec, text_eq, true,
  upper, ℕ, ◌&&◌, ◌++◌, ◌+◌, ◌==◌, ◌||◌, ◌∷◌, ◌≟◌,
}
use s_com_control_plane.Base.Dict.{Dict, lookup, insert}
pub mod Grouping
pub mod Totals
pub mod Score

pub record FlowEvent : Type 0 where
  pub flow_id : ℕ
  pub src_ip : Text
  pub dest_ip : Text
  pub dest_port : ℕ
  pub proto : Text
  pub app_proto : Text
  pub pkts_toserver : ℕ
  pub pkts_toclient : ℕ
  pub bytes_toserver : ℕ
  pub bytes_toclient : ℕ
  pub flow_state : Text

pub record IpPair : Type 0 where
  pub src : Text
  pub dst : Text

unfoldable pub pair_dec : Discrete IpPair
pair_dec = hlevel (text_dec)

instance abbrev pub pair_eq : Eq IpPair
pair_eq = record { dec = pair_dec }

pub record AggregatedIpPair : Type 0 where
  pub src_ip : Text
  pub dest_ip : Text
  pub window_start : Text
  pub window_end : Text
  pub flow_count : ℕ
  pub tcp_flow_count : ℕ
  pub udp_flow_count : ℕ
  pub pkts_toserver_sum : ℕ
  pub pkts_toclient_sum : ℕ
  pub bytes_toserver_sum : ℕ
  pub bytes_toclient_sum : ℕ
  pub pkts_toserver_max : ℕ
  pub pkts_toclient_max : ℕ
  pub bytes_toserver_max : ℕ
  pub bytes_toclient_max : ℕ
  pub unique_dst_ports : List ℕ
  pub unique_dst_port_count : ℕ
  pub unique_app_protos : List Text
  pub states_observed : List Text
  pub flow_ids : List ℕ
  pub src_zone : Text
  pub dest_zone : Text

-- A flow without both addresses is skipped.
abbrev pub has_both : FlowEvent → Bool
has_both f = not (is_empty f.src_ip) && not (is_empty f.dest_ip)

abbrev pub pair_of : FlowEvent → IpPair
pair_of f = record { src = f.src_ip; dst = f.dest_ip }

-- `buckets[key].append(f)` on a `defaultdict(list)`
unfoldable pub put : FlowEvent → Dict IpPair (List FlowEvent) → Dict IpPair (List FlowEvent)
unfolding pair_dec
put f d = insert (pair_of f) (or_else (lookup (pair_of f) d) [] ++ (f ∷ [])) d

abbrev pub put_if : Bool → FlowEvent → Dict IpPair (List FlowEvent) → Dict IpPair (List FlowEvent)
unfolding put
put_if true f d = put f d
put_if false f d = d

-- The first loop.
unfoldable pub fill : List FlowEvent → Dict IpPair (List FlowEvent) → Dict IpPair (List FlowEvent)
unfolding put_if
fill [] d = d
fill (f ∷ fs) d = fill fs (put_if (has_both f) f d)

abbrev pub maximum : List ℕ → ℕ
maximum [] = 0
maximum (x ∷ xs) = max x (maximum xs)

-- `sorted({…})`, by insertion: `earlier` is the order of the elements.
module _ {A : Type 0} ⦃e : Eq A⦄ (earlier : A → A → Bool) where
  abbrev pub insert_sorted : A → List A → List A
  insert_sorted x [] = x ∷ []
  insert_sorted x (y ∷ ys) =
      if x ≟ y then y ∷ ys else if earlier x y then x ∷ y ∷ ys else y ∷ insert_sorted x ys

  abbrev pub sorted_set : List A → List A
  sorted_set [] = []
  sorted_set (x ∷ xs) = insert_sorted x (sorted_set xs)

-- The order of `str`.
abbrev pub text_ltb : Text → Text → Bool
text_ltb [] [] = false
text_ltb [] (b ∷ t) = true
text_ltb (a ∷ s) [] = false
text_ltb (a ∷ s) (b ∷ t) = ltb a b || (a == b && text_ltb s t)

abbrev pub with_proto : Text → List FlowEvent → List FlowEvent
unfolding text_dec
with_proto p = keep (λ (f : FlowEvent). lower f.proto ≟ p)

-- `ip_to_zone(ip) or ""`, or "" where no lookup is given.
abbrev pub zone_name : Option (Text → Option Text) → Text → Text
zone_name none ip = []
zone_name (some zone) ip = or_else (zone ip) []

module _ (window_start window_end : Text) (ip_to_zone : Option (Text → Option Text)) where
  unfoldable pub summarize : IpPair × List FlowEvent → AggregatedIpPair
  unfolding with_proto text_dec
  summarize (k, fs) =
      let ports =
        sorted_set ltb (keep (λ n. not (n == 0)) (map (λ (f : FlowEvent). f.dest_port) fs)) in
      record {
        src_ip = k.src;
        dest_ip = k.dst;
        window_start = window_start;
        window_end = window_end;
        flow_count = length fs;
        tcp_flow_count = length (with_proto (codes "tcp") fs);
        udp_flow_count = length (with_proto (codes "udp") fs);
        pkts_toserver_sum = sum (map (λ (f : FlowEvent). f.pkts_toserver) fs);
        pkts_toclient_sum = sum (map (λ (f : FlowEvent). f.pkts_toclient) fs);
        bytes_toserver_sum = sum (map (λ (f : FlowEvent). f.bytes_toserver) fs);
        bytes_toclient_sum = sum (map (λ (f : FlowEvent). f.bytes_toclient) fs);
        pkts_toserver_max = maximum (map (λ (f : FlowEvent). f.pkts_toserver) fs);
        pkts_toclient_max = maximum (map (λ (f : FlowEvent). f.pkts_toclient) fs);
        bytes_toserver_max = maximum (map (λ (f : FlowEvent). f.bytes_toserver) fs);
        bytes_toclient_max = maximum (map (λ (f : FlowEvent). f.bytes_toclient) fs);
        unique_dst_ports = ports;
        unique_dst_port_count = length ports;
        unique_app_protos =
            sorted_set text_ltb
              (keep (λ s. not (is_empty s)) (map (λ (f : FlowEvent). f.app_proto) fs));
        states_observed = sorted_set text_ltb (map (λ (f : FlowEvent). f.flow_state) fs);
        flow_ids = keep (λ n. not (n == 0)) (map (λ (f : FlowEvent). f.flow_id) fs);
        src_zone = zone_name ip_to_zone k.src;
        dest_zone = zone_name ip_to_zone k.dst;
      }

  unfoldable pub aggregate_flows : List FlowEvent → List AggregatedIpPair
  unfolding fill
  aggregate_flows fs = map summarize (fill fs [])

abbrev pub admin_ports : List ℕ
admin_ports = 22 ∷ 3389 ∷ 5985 ∷ 5986 ∷ []

abbrev pub points : Bool → ℕ → ℕ
points true n = n
points false n = 0

-- The four signals of two or more points.
abbrev pub crosses_into_critical : AggregatedIpPair → Bool
unfolding text_dec
crosses_into_critical p =
    not (upper p.src_zone ≟ upper p.dest_zone)
    && contains (upper p.dest_zone) (codes "DB" ∷ codes "MGT" ∷ [])
    && ltb 1 p.flow_count

abbrev pub uses_admin_port : AggregatedIpPair → Bool
unfolding text_dec
uses_admin_port p =
    any (λ n. contains n admin_ports) p.unique_dst_ports && not (upper p.src_zone ≟ codes "MGT")

abbrev pub fans_out : AggregatedIpPair → Bool
fans_out p = ltb 5 p.unique_dst_port_count

abbrev pub leaves_db : AggregatedIpPair → Bool
unfolding text_dec
leaves_db p =
    (upper p.src_zone ≟ codes "DB")
    && not (is_empty (upper p.dest_zone))
    && not (upper p.dest_zone ≟ codes "DB")

unfoldable pub suspect_score : AggregatedIpPair → ℕ
unfolding crosses_into_critical uses_admin_port leaves_db
suspect_score p =
    points (crosses_into_critical p) 2
    + points (uses_admin_port p) 2
    + points (ltb 10 p.flow_count) 1
    + points (fans_out p) 2
    + points (leaves_db p) 3
