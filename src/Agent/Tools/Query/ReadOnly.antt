-- ===== src/Agent/Tools/Query/ReadOnly.antt =====
-- A query that writes is not sent.
use s_com_control_plane.Base.{
  Bool, Bool-cases, List, Option, Text, [], ap, arith, contains, eq_of_≟, false, if◌then◌else◌, inl,
  inr, is_some, map, none, refl, some, sym, text_eq, true, ℕ, ◌++◌, ◌∙◌, ◌∷◌, ◌≟◌, ◌≡◌,
}
use s_com_control_plane.Agent.Tools.Query.{
  Ran, is_word, write_keywords, after_word, ends_there, whole, first_keyword, match_here, matched,
  folded, search_write, execute_query_kg, first_of, checked,
}

after_word-folded : (w s : Text) → after_word (map folded w) (w ++ s) ≡ some s
after_word-folded [] s = refl
after_word-folded (c ∷ w) s = ground (arith, after_word-folded w s)

first_of-left : (o p : Option Text) → is_some o ≡ true → is_some (first_of o p) ≡ true
first_of-left none p h = cc
first_of-left (some t) p h = refl

first_of-right : (o p : Option Text) → is_some p ≡ true → is_some (first_of o p) ≡ true
first_of-right none p h = h
first_of-right (some t) p h = refl

matched-is_some : (s : Text) (o : Option Text) → is_some (matched s o) ≡ is_some o
matched-is_some s none = refl
matched-is_some s (some rest) = refl

checked-unsent :
    {V : Type 0} (run : Text → Ran V) (q : Text) (o : Option Text)
    → is_some o ≡ true
    → let r = checked run q o in (r.0 ≡ none) × (r.1.ok ≡ false)
unfolding checked
checked-unsent run q none h = cc
checked-unsent run q (some m) h = (refl, refl)

module _ (is_alnum : ℕ → Bool) where
  -- Whether the place after a text is inside of a word, given that the place before it is.
  abbrev pub inside_after : Bool → Text → Bool
  inside_after inside [] = inside
  inside_after inside (c ∷ s) = inside_after (is_word is_alnum c) s

  -- A keyword of the list is found.
  first_keyword-is_some :
      (ks : List Text) (w s : Text)
      → contains (map folded w) ks ≡ true
      → ends_there is_alnum s ≡ true
      → is_some (first_keyword is_alnum ks (w ++ s)) ≡ true
  first_keyword-is_some [] w s listed ends = cc
  first_keyword-is_some (k ∷ ks) w s listed ends = elim (Bool-cases (map folded w ≟ k)) [
    | inl same ↦
        let at : after_word k (w ++ s) ≡ some s =
          ap (λ v. after_word v (w ++ s)) (sym (eq_of_≟ (map folded w) k same))
          ∙ after_word-folded w s in
        first_of-left (whole is_alnum (after_word k (w ++ s))) (first_keyword is_alnum ks (w ++ s))
          (rw (at, ends) refl)
    | inr other ↦ first_of-right _ _ (first_keyword-is_some ks w s (rw other at listed) ends)
  ]

  -- A match at a place that is not inside of a word, behind any text.
  search_write-found :
      (inside : Bool) (a s : Text) (c : ℕ)
      → inside_after inside a ≡ false
      → is_some (match_here is_alnum (c ∷ s)) ≡ true
      → is_some (search_write is_alnum inside (a ++ (c ∷ s))) ≡ true
  unfolding search_write
  search_write-found inside [] s c out found =
      first_of-left (if inside then none else matched (c ∷ s) (match_here is_alnum (c ∷ s)))
        (search_write is_alnum (is_word is_alnum c) s)
        (rw out (matched-is_some (c ∷ s) (match_here is_alnum (c ∷ s)) ∙ found))
  search_write-found inside (b ∷ a) s c out found =
      first_of-right _ _ (search_write-found (is_word is_alnum b) a s c out found)

  -- A query with one of the eight keywords that write as a whole word, in whatever case and place, is
  -- not sent, and the reply is an error, whatever counts as a letter or a digit outside of ASCII.
  pub execute_query_kg-ReadOnly :
      {V : Type 0} (run : Text → Ran V) (a w b : Text)
      → inside_after false a ≡ false
      → contains (map folded w) write_keywords ≡ true
      → ends_there is_alnum b ≡ true
      → let r = execute_query_kg is_alnum (some run) (a ++ (w ++ b)) in
        (r.0 ≡ none) × (r.1.ok ≡ false)
  unfolding execute_query_kg match_here
  execute_query_kg-ReadOnly run a [] b out listed ends = cc
  execute_query_kg-ReadOnly run a (c ∷ w) b out listed ends =
      checked-unsent run (a ++ (c ∷ (w ++ b))) (search_write is_alnum false (a ++ (c ∷ (w ++ b)))) (
        search_write-found false a (w ++ b) c out
          (first_of-left _ _ (first_keyword-is_some write_keywords (c ∷ w) b listed ends)))
