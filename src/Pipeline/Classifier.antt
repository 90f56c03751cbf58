-- ===== src/Pipeline/Classifier.antt =====
-- intelligence-layer/src/pipeline/llama_batch_classifier.py: what the batch classifier makes of the
-- answer of its LLM. The prompt is left out. Confidence is in millionths.
use s_com_control_plane.Base.{
  List, Option, Text, [], codes, if◌then◌else◌, is_empty, none, some, text_dec, text_eq, ℕ, ◌==◌,
  ◌∷◌,
}
use s_com_control_plane.Base.Dict.{Dict, insert}
use s_com_control_plane.Base.Slices.{take}

-- An element of the list of classifications: a dictionary, with `none` for a key that is missing or
-- has the value None (for the confidence, one that is no number, too), or something else.
pub data Item : Type 0 where
  no_dict : Item
  dict : Option Text → Option Text → Option ℕ → Option Text → Item

-- `chat_json` of the LLM, after the parsing of a list that came as a text.
pub data Answer : Type 0 where
  raises : Answer
  no_list : Answer
  items : List Item → Answer

pub record Classification : Type 0 where
  pub label : Text
  pub confidence : ℕ
  pub reason : Text

-- `x or d`, for a text that may be missing.
abbrev text_or : Option Text → Text → Text
text_or none d = d
text_or (some t) d = if is_empty t then d else t

-- `float(item.get("confidence", 0.5) or 0.5)`
abbrev confidence_or_half : Option ℕ → ℕ
confidence_or_half none = 500000
confidence_or_half (some c) = if c == 0 then 500000 else c

unfoldable pub classification : Option Text → Option ℕ → Option Text → Classification
classification label confidence reason = record {
  label = text_or label (codes "SUSPECT_other");
  confidence = confidence_or_half confidence;
  reason = take 160 (text_or reason []);
}

abbrev pub add_item : Item → Dict Text Classification → Dict Text Classification
unfolding text_dec classification
add_item Item.no_dict out = out
add_item (Item.dict pair_id label confidence reason) out =
    if is_empty (text_or pair_id [])
    then out
    else insert (text_or pair_id []) (classification label confidence reason) out

abbrev pub add_items : List Item → Dict Text Classification → Dict Text Classification
unfolding add_item
add_items [] out = out
add_items (i ∷ is) out = add_items is (add_item i out)

-- `classify_batch`, of some pairs.
unfoldable pub classify_batch : Answer → Dict Text Classification
unfolding add_items
classify_batch Answer.raises = []
classify_batch Answer.no_list = []
classify_batch (Answer.items is) = add_items is []
