-- ===== src/Agent/Tools/Incidents.antt =====
-- `find_similar_past_incidents` of intelligence-layer/src/agent/tools.py. The decisions stored are a
-- list, and the database's queries are tests on it; the order that it gives the newest in, the
-- embedding of a text, the search by embedding, its cache and SHA-1 are parameters.
use s_com_control_plane.Base.{
  Bool, List, Option, Text, [], codes, false, if◌then◌else◌, is_some, keep, leb, length, ltb, none,
  not, or_else, some, suc, text_dec, text_eq, true, ℕ, ◌&&◌, ◌++◌, ◌+◌, ◌==◌, ◌∷◌, ◌≟◌,
}
use s_com_control_plane.Base.Dict.{Dict, lookup}
use s_com_control_plane.Base.Slices.{take}
use s_com_control_plane.Agent.Intent.{show_ℕ}
pub mod Laws

-- The columns that are read. Times are seconds, confidence is in millionths.
pub record Decision : Type 0 where
  pub id : Text
  pub alert_sid : ℕ
  pub created_at : ℕ
  pub outcome : Text
  pub action : Option Text
  pub confidence : Option ℕ
  pub mitre_technique : Option Text
  pub primary_hypothesis : Option Text

pub record ExactMatch : Type 0 where
  pub match_count : ℕ
  pub outcome_breakdown : Dict Text ℕ
  pub last_decisions : List Decision

pub record Found (M : Type 0) : Type 0 where
  pub match_count : ℕ
  pub semantic_match_count : ℕ
  pub mitre_match_count : ℕ
  pub outcome_breakdown : Dict Text ℕ
  pub last_decisions : List Decision
  pub semantic_matches : List M
  pub mitre_matches : List Decision
  pub pattern_assessment : Text

-- The answers; `errored` is an exception of the first count.
pub data Incidents (M : Type 0) : Type 0 where
  unavailable errored empty_window nothing_similar : Incidents M
  similar : Found M → Incidents M

-- `GROUP BY outcome`
abbrev pub bump : Text → Dict Text ℕ → Dict Text ℕ
unfolding text_dec
bump k [] = (k, 1) ∷ []
bump k ((j, n) ∷ t) = if k ≟ j then (j, suc n) ∷ t else (j, n) ∷ bump k t

abbrev pub tally : List Decision → Dict Text ℕ
unfolding bump
tally [] = []
tally (d ∷ ds) = bump d.outcome (tally ds)

abbrev pub no_exact : ExactMatch
no_exact = record { match_count = 0; outcome_breakdown = []; last_decisions = [] }

abbrev pub in_window : ℕ → Decision → Bool
in_window cutoff d = leb cutoff d.created_at

abbrev pub has_technique : Text → Decision → Bool
unfolding text_dec
has_technique t d = elim d.mitre_technique [ some u ↦ u ≟ t | none ↦ false ]

abbrev pub enforced_of : ExactMatch → ℕ
unfolding text_dec
enforced_of e = or_else (lookup (codes "enforced") e.outcome_breakdown) 0

abbrev pub part_if : Bool → Text → Text
part_if true t = t
part_if false t = []

-- `accuracy_signal`
unfoldable pub assessment : ExactMatch → (semantic mitre : ℕ) → Text → Text
unfolding enforced_of
assessment e semantic mitre technique =
    (if ltb 0 (enforced_of e)
      then codes "agent enforced "
        ++ (show_ℕ (enforced_of e)
            ++ (codes "/"
                ++ (show_ℕ e.match_count ++ codes " times — pattern is recurring threat")))
      else codes "no signal")
    ++ (part_if (ltb 0 semantic)
          (codes "; +" ++ (show_ℕ semantic ++ codes " semantically-similar prior incident(s)"))
        ++ part_if (ltb 0 mitre) (
            codes "; +"
            ++ (show_ℕ mitre ++ (codes " MITRE " ++ (technique ++ codes " match(es)")))))

module _ (newest_first : List Decision → List Decision) (cutoff limit sid : ℕ) where
  abbrev pub same_sid : Decision → Bool
  same_sid d = d.alert_sid == sid && in_window cutoff d

  abbrev pub summary : List Decision → ExactMatch
  unfolding tally
  summary [] = no_exact
  summary (d ∷ ds) = record {
    match_count = length (d ∷ ds);
    outcome_breakdown = tally (d ∷ ds);
    last_decisions = take limit (newest_first (d ∷ ds));
  }

  -- `_exact_sid_match`
  unfoldable pub exact_sid_match : List Decision → ExactMatch
  unfolding summary
  exact_sid_match ds = summary (keep same_sid ds)

  abbrev pub same_technique : Text → Decision → Bool
  unfolding has_technique
  same_technique t d = has_technique t d && not (d.alert_sid == sid) && in_window cutoff d

  -- `_mitre_match`
  unfoldable pub mitre_match : Text → List Decision → List Decision
  unfolding same_technique
  mitre_match [] ds = []
  mitre_match (c ∷ t) ds = take limit (newest_first (keep (same_technique (c ∷ t)) ds))

module _ {V M : Type 0} (sha1 : Text → Text) (embed : Text → Option V) (search : V → List M) where
  abbrev pub embed_anew : Text → Option V → Option V × Option (Text × V)
  embed_anew text none = (none, none)
  embed_anew text (some v) = (some v, some (sha1 text, v))

  -- The embedding, and what is put in the cache; `none` is no cache.
  abbrev pub embedding : Option (Text → Option V) → Text → Option V × Option (Text × V)
  embedding none text = (embed text, none)
  embedding (some get) text = elim (get (sha1 text)) [
    | some v ↦ (some v, none)
    | none ↦ embed_anew text (embed text)
  ]

  abbrev pub searched : Option V → List M
  searched none = []
  searched (some v) = search v

  -- `_semantic_match`
  unfoldable pub semantic_match : Option (Text → Option V) → Text → List M × Option (Text × V)
  semantic_match redis [] = ([], none)
  semantic_match redis (c ∷ text) = let e = embedding redis (c ∷ text) in (searched e.0, e.1)

unfoldable pub found_of : {M : Type 0} → ℕ → Text → ExactMatch → List M → List Decision → Found M
unfolding assessment
found_of limit technique exact semantic mitre = record {
  match_count = exact.match_count;
  semantic_match_count = length semantic;
  mitre_match_count = length mitre;
  outcome_breakdown = exact.outcome_breakdown;
  last_decisions = exact.last_decisions;
  semantic_matches = take limit semantic;
  mitre_matches = take limit mitre;
  pattern_assessment = assessment exact (length semantic) (length mitre) technique;
}

-- What is made of the three results.
unfoldable pub merged : {M : Type 0} → ℕ → Text → ExactMatch → List M → List Decision → Incidents M
unfolding found_of
merged limit technique exact semantic mitre =
    if exact.match_count + length semantic + length mitre == 0
    then nothing_similar
    else similar (found_of limit technique exact semantic mitre)

-- Which of the five queries raise.
pub record Failures : Type 0 where
  pub counting : Bool
  pub exact : Bool
  pub embedding : Bool
  pub searching : Bool
  pub mitre : Bool

abbrev pub unless {ℓ} : {A : Type ℓ} → Bool → A → A → A
unless true x default = default
unless false x default = x

-- pgvector: the similarity of a decision's embedding to another, in millionths, `none` where the
-- decision has no embedding, and the order in which it gives the nearest.
module _ {V : Type 0} (similarity : List V → Decision → Option ℕ)
    (nearest_first : List V → List Decision → List Decision) where
  abbrev pub similar_enough : List V → Decision → Bool
  similar_enough v d = leb 300000 (or_else (similarity v d) 0)

  abbrev pub embedded_since : ℕ → List V → Decision → Bool
  embedded_since cutoff v d = is_some (similarity v d) && in_window cutoff d

  -- `search_similar_by_embedding` of storage/postgres.py, as it is called here; it catches the errors
  -- of its query.
  unfoldable pub search_similar_by_embedding :
      (fails : Bool) → (cutoff limit : ℕ) → List Decision → List V → List Decision
  search_similar_by_embedding fails cutoff limit ds [] = []
  search_similar_by_embedding true cutoff limit ds (x ∷ v) = []
  search_similar_by_embedding false cutoff limit ds (x ∷ v) =
      keep (similar_enough (x ∷ v))
        (take limit (nearest_first (x ∷ v) (keep (embedded_since cutoff (x ∷ v)) ds)))

module _ {V : Type 0} (newest_first : List Decision → List Decision) (sha1 : Text → Text)
    (embed : Text → Option (List V)) (similarity : List V → Decision → Option ℕ)
    (nearest_first : List V → List Decision → List Decision) where
  -- The three retrievals, and what is put in the cache. The search by embedding reads the clock again,
  -- so that its window starts at `later`.
  unfoldable pub gathered :
      Failures
      → (cutoff later limit sid : ℕ) → (text technique : Text) → Option (Text → Option (List V))
      → List Decision
      → Incidents Decision × Option (Text × List V)
  unfolding exact_sid_match mitre_match semantic_match merged search_similar_by_embedding
  gathered f cutoff later limit sid text technique redis ds =
      let search =
        search_similar_by_embedding similarity nearest_first f.searching later limit ds in
      let s = unless f.embedding (semantic_match sha1 embed search redis text) ([], none) in
      (
        merged limit technique
            (unless f.exact (exact_sid_match newest_first cutoff limit sid ds) no_exact) s.0
            (unless f.mitre (mitre_match newest_first cutoff limit sid technique ds) []),
        s.1,
      )

  -- `find_similar_past_incidents`; `none` is a database that is not available.
  unfoldable pub find_similar_past_incidents :
      Failures
      → (cutoff later limit sid : ℕ) → (text technique : Text) → Option (Text → Option (List V))
      → Option (List Decision)
      → Incidents Decision × Option (Text × List V)
  unfolding gathered
  find_similar_past_incidents f cutoff later limit sid text technique redis none =
      (unavailable, none)
  find_similar_past_incidents f cutoff later limit sid text technique redis (some ds) =
      let full = gathered f cutoff later limit sid text technique redis ds in
      if f.counting
      then (errored, none)
      else if length (keep (in_window cutoff) ds) == 0
      then (empty_window, none)
      else full
