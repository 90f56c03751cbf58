-- ===== src/Agent/Tools/Query.antt =====
-- `execute_query_kg` of intelligence-layer/src/agent/tools.py: the LLM's Cypher at the knowledge
-- graph. What the driver makes of a query is a parameter; the regular expression of the words that
-- write is a search, with what Python takes for a letter or a digit outside of ASCII as a parameter.
use s_com_control_plane.Base.{
  Bool, List, Option, Text, [], codes, false, if◌then◌else◌, is_digit, is_space, keep, leb, length,
  lstrip, ltb, map, none, not, some, text_dec, text_eq, true, upper, upper_code, ℕ, ◌&&◌, ◌++◌, ◌-◌,
  ◌==◌, ◌||◌, ◌∷◌, ◌≟◌,
}
use s_com_control_plane.Base.Dict.{Dict}
use s_com_control_plane.Base.Slices.{take}
pub mod Rows
pub mod ReadOnly

-- A letter of a text as `IGNORECASE` compares it with a letter from A to Z: of the letters outside of
-- ASCII, İ and ı are an I, ſ is an S and the Kelvin sign is a K.
abbrev pub folded : ℕ → ℕ
folded c =
    if c == 304 || c == 305
    then b'I'
    else if c == 383
    then b'S'
    else if c == 8490
    then b'K'
    else upper_code c

-- The keywords that are one word.
abbrev pub write_keywords : List Text
write_keywords =
    codes "CREATE"
    ∷ codes "DELETE"
    ∷ codes "MERGE"
    ∷ codes "SET"
    ∷ codes "REMOVE"
    ∷ codes "DROP"
    ∷ codes "DETACH"
    ∷ codes "FOREACH"
    ∷ []

-- The others: two words, with white space between.
abbrev pub write_phrases : List (Text × Text)
write_phrases =
    (codes "LOAD", codes "CSV")
    ∷ (codes "CALL", codes "DBMS")
    ∷ (codes "CALL", codes "APOC.LOAD")
    ∷ []

-- What follows a word, whatever its case.
abbrev pub after_word : Text → Text → Option Text
after_word [] s = some s
after_word (k ∷ ks) [] = none
after_word (k ∷ ks) (c ∷ s) = let rest = after_word ks s in if k == folded c then rest else none

-- `\s+`
abbrev pub after_spaces : Option Text → Option Text
after_spaces none = none
after_spaces (some []) = none
after_spaces (some (c ∷ s)) = if is_space c then some (lstrip s) else none

-- The first that matches, of two alternatives.
abbrev pub first_of : Option Text → Option Text → Option Text
first_of none o = o
first_of (some t) o = some t

-- The matched text.
abbrev pub matched : Text → Option Text → Option Text
matched s none = none
matched s (some rest) = some (take (length s - length rest) s)

-- `is_alnum` is Python's answer outside of ASCII: whether a character is a letter or a digit.
module _ (is_alnum : ℕ → Bool) where
  -- `\w`
  abbrev pub is_word : ℕ → Bool
  is_word c =
      if ltb c 128
      then is_digit c || (leb b'A' c && leb c b'Z') || (leb b'a' c && leb c b'z') || c == b'_'
      else is_alnum c

  -- `\b`, before a text that follows a word.
  abbrev pub ends_there : Text → Bool
  ends_there [] = true
  ends_there (c ∷ s) = not (is_word c)

  abbrev pub whole : Option Text → Option Text
  whole none = none
  whole (some s) = if ends_there s then some s else none

  abbrev pub then_word : Text → Option Text → Option Text
  then_word w none = none
  then_word w (some s) = whole (after_word w s)

  abbrev pub first_keyword : List Text → Text → Option Text
  first_keyword [] s = none
  first_keyword (k ∷ ks) s = first_of (whole (after_word k s)) (first_keyword ks s)

  abbrev pub first_phrase : List (Text × Text) → Text → Option Text
  first_phrase [] s = none
  first_phrase ((k, w) ∷ ks) s =
      first_of (then_word w (after_spaces (after_word k s))) (first_phrase ks s)

  -- What follows the match that starts at this place.
  unfoldable pub match_here : Text → Option Text
  match_here s = first_of (first_keyword write_keywords s) (first_phrase write_phrases s)

  -- `_KG_WRITE_KEYWORD_RE.search`; `inside` says that the character before is part of a word.
  unfoldable pub search_write : (inside : Bool) → Text → Option Text
  unfolding match_here
  search_write inside [] = none
  search_write inside (c ∷ s) =
      first_of (if inside then none else matched (c ∷ s) (match_here (c ∷ s)))
        (search_write (is_word c) s)

-- A value of a row: a node or an edge, a list or a tuple, or anything else.
pub data Cell (V : Type 0) : Type 0 where
  entity : Dict Text V → Cell V
  sequence : List V → Cell V
  other : V → Cell V

pub data Problem : Type 0 where
  offline : Problem
  write_rejected cypher_error : Text → Problem

-- What the driver makes of a query.
pub data Ran (V : Type 0) : Type 0 where
  answers : List (Dict Text (Cell V)) → Ran V
  raises : Text → Ran V

-- The members of the reply; `row_count` is the length of `rows`.
pub record Reply (V : Type 0) : Type 0 where
  pub ok : Bool
  pub rows : List (Dict Text (Cell V))
  pub truncated : Bool
  pub error : Option Problem

abbrev pub result_limit : ℕ
result_limit = 50

module _ {V : Type 0} where
  abbrev pub without_managed : Dict Text V → Dict Text V
  unfolding text_dec
  without_managed d = keep (λ kv. not (kv.0 ≟ codes "kg_managed")) d

  abbrev pub plain_cell : Cell V → Cell V
  unfolding without_managed
  plain_cell (entity d) = entity (without_managed d)
  plain_cell (sequence vs) = sequence vs
  plain_cell (other v) = other v

  abbrev pub plain_row : Dict Text (Cell V) → Dict Text (Cell V)
  unfolding plain_cell
  plain_row r = map (λ kv. (kv.0, plain_cell kv.1)) r

  -- The loop over the rows, with those collected before.
  abbrev pub collect :
      List (Dict Text (Cell V)) → List (Dict Text (Cell V)) → List (Dict Text (Cell V)) × Bool
  unfolding plain_row
  collect [] rows = (rows, false)
  collect (r ∷ rs) rows =
      let rest = collect rs (rows ++ (plain_row r ∷ [])) in
      if leb result_limit (length rows) then (rows, true) else rest

  abbrev pub failed : Problem → Reply V
  failed p = record { ok = false; rows = []; truncated = false; error = some p }

  abbrev pub reply_to : Ran V → Reply V
  unfolding collect
  reply_to (answers rs) =
      let r = collect rs [] in record { ok = true; rows = r.0; truncated = r.1; error = none }
  reply_to (raises m) = failed (cypher_error m)

  abbrev pub checked : (Text → Ran V) → Text → Option Text → Option Text × Reply V
  unfolding reply_to
  checked run cypher (some m) = (none, failed (write_rejected (upper m)))
  checked run cypher none = (some cypher, reply_to (run cypher))

  -- `execute_query_kg`: the query that is sent, if any, and the reply. `none` is a driver that is
  -- `None`.
  unfoldable pub execute_query_kg :
      (is_alnum : ℕ → Bool) → Option (Text → Ran V) → Text → Option Text × Reply V
  unfolding checked search_write
  execute_query_kg is_alnum none cypher = (none, failed offline)
  execute_query_kg is_alnum (some run) cypher =
      checked run cypher (search_write is_alnum false cypher)
