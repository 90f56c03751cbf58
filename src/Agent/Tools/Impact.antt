-- ===== src/Agent/Tools/Impact.antt =====
-- `query_asset_neighbors` and `simulate_block_impact` of intelligence-layer/src/agent/tools.py, with
-- `get_asset` of core/system_model.py. The assets and the normal flows are read from Markdown at
-- startup and are arguments.
use s_com_control_plane.Base.{
  Bool, List, Option, Text, [], before, codes, contains, if◌then◌else◌, is_empty, keep, leb, length,
  ltb, none, not, some, text_dec, text_eq, ℕ, ◌&&◌, ◌||◌, ◌∷◌, ◌≟◌,
}
use s_com_control_plane.Base.Dict.{Dict, lookup}
use s_com_control_plane.Judgement.Traffic.{TrafficPattern, match_baseline}
pub mod Laws

-- The members that are read.
pub record Asset : Type 0 where
  pub hostname : Text
  pub tier : Text
  pub criticality : Text
  pub if_blocked_impact : Text

-- `get_asset`
unfoldable pub get_asset : Dict Text Asset → Text → Option Asset
unfolding text_dec
get_asset assets ip_or_cidr = lookup (before b'/' ip_or_cidr) assets

pub record Neighbors : Type 0 where
  pub hostname : Text
  pub tier : Text
  pub criticality : Text
  pub outbound_flows : List TrafficPattern
  pub inbound_flows : List TrafficPattern
  pub blast_radius_score : Text
  pub if_blocked : Text

abbrev pub rotating : TrafficPattern → Bool
unfolding text_dec
rotating b = b.dst_ip ≟ codes "rotating"

abbrev pub flows_as_source : Text → List TrafficPattern → List TrafficPattern
unfolding text_dec
flows_as_source ip all = keep (λ b. b.src_ip ≟ ip) all

abbrev pub flows_as_destination : Text → List TrafficPattern → List TrafficPattern
unfolding rotating text_dec
flows_as_destination ip all =
    keep (λ b. b.dst_ip ≟ ip || (rotating b && (b.src_ip ≟ codes "10.2.50.10"))) all

unfoldable pub blast_radius : Text → ℕ → Text
unfolding text_dec
blast_radius criticality inbound =
    if leb 3 inbound
    then codes "high"
    else if criticality ≟ codes "critical"
    then codes "high"
    else if criticality ≟ codes "high"
    then codes "medium"
    else codes "low"

-- `query_asset_neighbors`; `none` is an address that is no asset.
unfoldable pub query_asset_neighbors :
    Dict Text Asset → List TrafficPattern → Text → Option Neighbors
unfolding get_asset flows_as_source flows_as_destination blast_radius text_dec
query_asset_neighbors assets all ip = elim (lookup (before b'/' ip) assets) [
  | none ↦ none
  | some a ↦
      let inbound = flows_as_destination (before b'/' ip) all in
      some (record {
        hostname = a.hostname;
        tier = a.tier;
        criticality = a.criticality;
        outbound_flows = flows_as_source (before b'/' ip) all;
        inbound_flows = inbound;
        blast_radius_score = blast_radius a.criticality (length inbound);
        if_blocked = a.if_blocked_impact;
      })
]

-- The members of the answer that are not text for display.
pub record Impact : Type 0 where
  pub outbound_flows_broken : List TrafficPattern
  pub inbound_flows_broken_count : ℕ
  pub asset_consequence : Text
  pub targeted : Option TrafficPattern
  pub prefers_targeted : Bool

abbrev pub polled_hosts : List Text
polled_hosts = codes "10.1.100.10" ∷ codes "10.2.100.10" ∷ codes "10.1.200.10" ∷ []

abbrev pub affected_inbound : Text → List TrafficPattern → List TrafficPattern
unfolding rotating text_dec
affected_inbound src all =
    keep (λ b. b.dst_ip ≟ src || (rotating b && contains src polled_hosts)) all

abbrev pub bare_or_empty : Text → Text
bare_or_empty [] = []
bare_or_empty (c ∷ s) = before b'/' (c ∷ s)

abbrev pub consequence_of : Option Asset → Text
consequence_of none = codes "unknown impact"
consequence_of (some a) = a.if_blocked_impact

-- `simulate_block_impact`; the protocol of the targeted match is its default.
unfoldable pub simulate_block_impact :
    Dict Text Asset → List TrafficPattern → (src_ip dst_ip : Text) → ℕ → Impact
unfolding get_asset flows_as_source affected_inbound match_baseline
simulate_block_impact assets all src_ip dst_ip dst_port =
    let src = before b'/' src_ip in
    let dst = bare_or_empty dst_ip in
    record {
      outbound_flows_broken = flows_as_source src all;
      inbound_flows_broken_count = length (affected_inbound src all);
      asset_consequence = consequence_of (get_asset assets src);
      targeted =
          if not (is_empty dst) && ltb 0 dst_port
          then match_baseline all src dst dst_port (codes "tcp")
          else none;
      prefers_targeted = not (is_empty dst_ip) && ltb 0 dst_port;
    }
