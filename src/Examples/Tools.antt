-- ===== src/Examples/Tools.antt =====
-- A look at the web host before it is blocked.
use s_com_control_plane.Base.{
  Bool, List, Option, Text, [], codes, false, length, none, refl, some, text_dec, ℕ, ◌++◌, ◌==◌,
  ◌∷◌, ◌≡◌,
}
use s_com_control_plane.Base.Dict.{Dict}
use s_com_control_plane.Judgement.Traffic.{TrafficPattern}
use s_com_control_plane.Agent.Tools.Query.{
  Cell, other, Ran, answers, execute_query_kg, search_write,
}
use s_com_control_plane.Agent.Tools.Query.ReadOnly.{execute_query_kg-ReadOnly}
use s_com_control_plane.Agent.Tools.Incidents.{
  Decision, similar, Failures, find_similar_past_incidents, found_of, exact_sid_match,
}
use s_com_control_plane.Agent.Tools.Impact.{simulate_block_impact}

abbrev web_to_app : TrafficPattern
web_to_app = record {
  name = codes "web-app";
  src_ip = codes "10.1.100.10";
  dst_ip = codes "10.2.100.10";
  dst_port = 8080;
  proto = codes "tcp";
}

abbrev node_count : Dict Text (Cell ℕ)
node_count = (codes "n", other 5) ∷ []

abbrev graph : Text → Ran ℕ
graph _ = answers (node_count ∷ [])

-- No letters or digits outside of ASCII.
abbrev no_others : ℕ → Bool
no_others _ = false

asset_word_passes : search_write no_others false (codes "MATCH (a:Asset) RETURN a") ≡ none
unfolding search_write
asset_word_passes = refl

load_csv_found : search_write no_others false (codes "load  csv x") ≡ some (codes "load  csv")
unfolding search_write
load_csv_found = refl

-- A letter before it makes a keyword part of a longer word.
inside_word_passes : search_write (λ c. c == 233) false (233 ∷ codes "SET") ≡ none
unfolding search_write
inside_word_passes = refl

execute_query_kg-ReadOnly_example :
    let r =
      execute_query_kg no_others
        (some graph)
        (codes "MATCH (n) " ++ (codes "Delete" ++ codes " n")) in
    (r.0 ≡ none) × (r.1.ok ≡ false)
unfolding text_dec
execute_query_kg-ReadOnly_example =
    execute_query_kg-ReadOnly no_others graph (codes "MATCH (n) ") (codes "Delete") (codes " n")
      refl refl refl

abbrev enforced_once : Decision
enforced_once = record {
  id = codes "d1";
  alert_sid = 9000001;
  created_at = 500;
  outcome = codes "enforced";
  action = some (codes "DROP");
  confidence = some 900000;
  mitre_technique = some (codes "T1021");
  primary_hypothesis = none;
}

abbrev all_well : Failures
all_well = record {
  counting = false;
  exact = false;
  embedding = false;
  searching = false;
  mitre = false;
}

abbrev embed_length : Text → Option (List ℕ)
embed_length t = some (length t ∷ [])

abbrev alike : List ℕ → Decision → Option ℕ
alike v d = some 900000

abbrev as_they_are : List Decision → List Decision
as_they_are ds = ds

abbrev as_near : List ℕ → List Decision → List Decision
as_near v ds = ds

abbrev hash : Text → Text
hash t = t

enforced_before_found :
    (find_similar_past_incidents as_they_are hash embed_length alike as_near all_well 100 101 5
      9000001
      (codes "SID")
      []
      none
      (some (enforced_once ∷ []))).0
    ≡ similar (
        found_of 5 []
          (exact_sid_match as_they_are 100 5 9000001 (enforced_once ∷ []))
          (enforced_once ∷ [])
          [])
unfolding find_similar_past_incidents
enforced_before_found = refl

web_targeted :
    (simulate_block_impact []
      (web_to_app ∷ [])
      (codes "10.1.100.10/32")
      (codes "10.2.100.10")
      8080).targeted
    ≡ some web_to_app
unfolding simulate_block_impact
web_targeted = refl
