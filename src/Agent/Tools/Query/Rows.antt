-- ===== src/Agent/Tools/Query/Rows.antt =====
-- How many rows of the knowledge graph reach the LLM.
use s_com_control_plane.Base.{
  Bool, List, Text, [], ap, append_assoc, append_nil, arith, false, leb, length, length-append, ltb,
  map, none, refl, some, suc, true, zero, ℕ, ◌++◌, ◌+◌, ◌∙◌, ◌∷◌, ◌≡◌,
}
use s_com_control_plane.Base.Dict.{Dict}
use s_com_control_plane.Base.Slices.{take}
use s_com_control_plane.Agent.Tools.Query.{
  Cell, Ran, answers, collect, plain_row, execute_query_kg, search_write,
}

module _ {V : Type 0} where
  collect-take :
      (rs rows : List (Dict Text (Cell V))) (room : ℕ)
      → length rows + room ≡ 50
      → collect rs rows ≡ (rows ++ map plain_row (take room rs), ltb room (length rs))
  unfolding collect
  collect-take [] rows zero h =
      let none_left : ltb 0 0 ≡ false = refl in rw (append_nil rows, none_left) refl
  collect-take [] rows (suc room) h =
      let none_left : ltb (suc room) 0 ≡ false = ground arith in
      rw (append_nil rows, none_left) refl
  collect-take (r ∷ rs) rows zero h =
      let full : leb 50 (length rows) ≡ true = ground arith in
      let more : ltb 0 (suc (length rs)) ≡ true = ground arith in
      rw (full, append_nil rows, more) refl
  collect-take (r ∷ rs) rows (suc room) h =
      let free : leb 50 (length rows) ≡ false = ground arith in
      let same : ltb (suc room) (suc (length rs)) ≡ ltb room (length rs) = ground arith in
      rw (free, same)
        (collect-take rs (rows ++ (plain_row r ∷ [])) room
            (omega (arith, length-append rows (plain_row r ∷ [])))
          ∙ ap (λ xs. (xs, ltb room (length rs))) (append_assoc rows (plain_row r ∷ []) _))

  -- A query that is sent and answered gives the first fifty rows of the answer, with the marks of
  -- management taken off, and says that there are more exactly if there are more than fifty.
  pub execute_query_kg-first_fifty :
      (is_alnum : ℕ → Bool) (run : Text → Ran V) (cypher : Text) (rs : List (Dict Text (Cell V)))
      → search_write is_alnum false cypher ≡ none
      → run cypher ≡ answers rs
      → let r = (execute_query_kg is_alnum (some run) cypher).1 in
        (r.rows ≡ map plain_row (take 50 rs)) × (r.truncated ≡ ltb 50 (length rs))
  unfolding execute_query_kg
  execute_query_kg-first_fifty is_alnum run cypher rs unwritten answered =
      rw (unwritten, answered) (ap (λ p. p.0) e, ap (λ p. p.1) e)
    where
      e : collect rs [] ≡ (map plain_row (take 50 rs), ltb 50 (length rs))
      e = collect-take rs [] 50 refl
