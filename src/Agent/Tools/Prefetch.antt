-- ===== src/Agent/Tools/Prefetch.antt =====
-- `prefetch_investigation_context` of intelligence-layer/src/agent/tools.py: the three tools at one
-- alert, before the LLM is called.
use s_com_control_plane.Base.{
  List, Option, Text, [], codes, if◌then◌else◌, is_space, lstrip, none, some, strip, ℕ, ◌++◌, ◌∷◌,
}
use s_com_control_plane.Base.Dict.{Dict}
use s_com_control_plane.Topology.{Zone, ip_to_zone}
use s_com_control_plane.Agent.Intent.{show_ℕ}
use s_com_control_plane.Judgement.Traffic.{TrafficPattern}
use s_com_control_plane.Agent.Tools.Incidents.{
  Decision, Incidents, Failures, find_similar_past_incidents,
}
use s_com_control_plane.Agent.Tools.Impact.{
  Asset, Neighbors, Impact, query_asset_neighbors, simulate_block_impact,
}

-- The members of a signature of the playbook that are read.
pub record SidDetection : Type 0 where
  pub signature_msg : Text
  pub mitre_technique : Text
  pub mitre_tactic : Text

abbrev pub first_word : Text → Text
first_word [] = []
first_word (c ∷ s) = let rest = first_word s in if is_space c then [] else c ∷ rest

-- The technique's number; the outer `none` is a technique of white space, which raises.
unfoldable pub mitre_of : Option SidDetection → Option Text
mitre_of none = some []
mitre_of (some d) = elim d.mitre_technique [
  | [] ↦ some []
  | c ∷ s ↦ elim (first_word (lstrip (c ∷ s))) [ [] ↦ none | w ∷ ws ↦ some (w ∷ ws) ]
]

abbrev pub zone_or : (Zone → Text) → Option Zone → Text
zone_or name none = codes "?"
zone_or name (some z) = name z

-- The text for the search by embedding; `name` gives a zone's name.
unfoldable pub semantic_text :
    (name : Zone → Text) → Option SidDetection → ℕ → Text → (src dst : Option Zone) → Text
semantic_text name (some d) sid signature src dst = strip (
    codes "SID "
    ++ (show_ℕ sid
        ++ (b' '
            ∷ (d.signature_msg
                ++ (codes " flow "
                    ++ (zone_or name src
                        ++ (codes " to "
                            ++ (zone_or name dst
                                ++ (codes " MITRE "
                                    ++ (d.mitre_technique ++ (b' ' ∷ d.mitre_tactic)))))))))))
semantic_text name none sid [] src dst = []
semantic_text name none sid (c ∷ signature) src dst =
    codes "SID "
    ++ (show_ℕ sid
        ++ (b' '
            ∷ (c ∷ signature
                ++ (codes " flow " ++ (zone_or name src ++ (codes " to " ++ zone_or name dst))))))

pub record Context : Type 0 where
  pub asset_neighbors : Option Neighbors
  pub past_incidents : Incidents Decision
  pub block_impact : Impact

abbrev pub zone_of_dst : Text → Option Zone
unfolding ip_to_zone
zone_of_dst [] = none
zone_of_dst (c ∷ s) = ip_to_zone (c ∷ s)

module _ {V : Type 0} (newest_first : List Decision → List Decision) (sha1 : Text → Text)
    (embed : Text → Option (List V)) (similarity : List V → Decision → Option ℕ)
    (nearest_first : List V → List Decision → List Decision) (name : Zone → Text)
    (assets : Dict Text Asset) (all : List TrafficPattern) where
  abbrev pub context_with :
      Failures
      → (cutoff later sid : ℕ) → (src_ip dst_ip : Text) → ℕ
      → Text
      → Option Text
      → Option (Text → Option (List V))
      → Option (List Decision)
      → Option (Context × Option (Text × List V))
  unfolding query_asset_neighbors find_similar_past_incidents simulate_block_impact
  context_with f cutoff later sid src_ip dst_ip dst_port text none redis stored = none
  context_with f cutoff later sid src_ip dst_ip dst_port text (some technique) redis stored =
      let past =
        find_similar_past_incidents newest_first sha1 embed similarity nearest_first f cutoff later
          5 sid text technique redis stored in
      some (
        record {
          asset_neighbors = query_asset_neighbors assets all src_ip;
          past_incidents = past.0;
          block_impact = simulate_block_impact assets all src_ip dst_ip dst_port;
        },
        past.1,
      )

  -- `prefetch_investigation_context`, from what the playbook says of the signature; `none` is an
  -- exception.
  unfoldable pub prefetch_investigation_context :
      Failures
      → (cutoff later sid : ℕ) → Option SidDetection
      → (src_ip dst_ip : Text) → ℕ
      → Text
      → Option (Text → Option (List V))
      → Option (List Decision)
      → Option (Context × Option (Text × List V))
  unfolding context_with semantic_text mitre_of ip_to_zone zone_of_dst
  prefetch_investigation_context f cutoff later sid info src_ip dst_ip dst_port signature redis
        stored =
      context_with f cutoff later sid src_ip dst_ip dst_port
        (semantic_text name info sid signature (ip_to_zone src_ip) (zone_of_dst dst_ip))
        (mitre_of info) redis stored
