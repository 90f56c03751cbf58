-- ===== src/Judgement/Labels/Laws.antt =====
-- What a label says of the alerts that came after a decision.
use s_com_control_plane.Base.{
  All, Bool, List, Option, Text, [], any, ap, arith, false, if◌then◌else◌, keep, length, ltb, none,
  refl, some, suc, sym, true, zero, ℕ, ◌&&◌, ◌+◌, ◌∙◌, ◌∷◌, ◌≡◌,
}
use s_com_control_plane.Judgement.Reputation.{Outcome, true_positive, recurrence}
use s_com_control_plane.Judgement.Labels.{
  Stamp, unreadable, zoned, zoneless, Entry, alert, no_object, Answer, alerts, Notes, Row, is_from,
  recurrences, is_no_object, is_zoneless, within_ttl, past_ttl, ttl_of, judged, judge_stamps, judge,
  label_one, label_pending, Tables, label_all, pending, take,
}

-- An alert from the source before the end of the rule.
abbrev pub is_during : Text → ℕ → Entry → Bool
unfolding is_from
is_during src end (alert s (zoned t)) = is_from src s && ltb t end
is_during src end (alert s (zoneless t)) = false
is_during src end (alert s unreadable) = false
is_during src end no_object = false

-- The label, by whether there is such an alert.
abbrev pub label_by : Bool → Outcome
label_by true = recurrence
label_by false = true_positive

positive-keep : {A : Type 0} (p : A → Bool) (xs : List A) → ltb 0 (length (keep p xs)) ≡ any p xs
positive-keep p [] = refl
positive-keep p (x ∷ xs) = ground (arith, positive-keep p xs)

any-recurrences :
    (src : Text) (end : ℕ) (es : List Entry)
    → any (within_ttl end) (recurrences src es) ≡ any (is_during src end) es
unfolding recurrences is_during
any-recurrences src end [] = refl
any-recurrences src end (no_object ∷ es) = any-recurrences src end es
any-recurrences src end (alert s (zoned t) ∷ es) = ground (arith, any-recurrences src end es)
any-recurrences src end (alert s (zoneless t) ∷ es) = ground (arith, any-recurrences src end es)
any-recurrences src end (alert s unreadable ∷ es) = ground (arith, any-recurrences src end es)

judged-label :
    (end : ℕ) (ts : List Stamp) (n after : ℕ)
    → n ≡ length (keep (within_ttl end) ts)
    → (judged ts n after).0 ≡ label_by (any (within_ttl end) ts)
judged-label end [] n after h = refl
judged-label end (t ∷ ts) zero after h =
    ap label_by (
      zero-ltb (length (keep (within_ttl end) (t ∷ ts))) h
      ∙ positive-keep (within_ttl end) (t ∷ ts))
  where
    zero-ltb : (m : ℕ) → 0 ≡ m → false ≡ ltb 0 m
    zero-ltb m h = ground arith
judged-label end (t ∷ ts) (suc n) after h = ap label_by (
    suc-ltb n (length (keep (within_ttl end) (t ∷ ts))) h ∙ positive-keep (within_ttl end) (t ∷ ts))
  where
    suc-ltb : (k m : ℕ) → suc k ≡ m → true ≡ ltb 0 m
    suc-ltb k m h = ground arith

-- The value of a test that does not raise.
unless-raised :
    {A : Type 0} (b : Bool) (o : Option A) (a : A) → (if b then none else o) ≡ some a → o ≡ some a
unless-raised true o a h = cc
unless-raised false o a h = h

judge-label :
    (src : Text) (end : ℕ) (es : List Entry) (l : Outcome × Notes)
    → judge src end (alerts es) ≡ some l
    → l.0 ≡ label_by (any (is_during src end) es)
unfolding judge
judge-label src end es l h =
    let ts = recurrences src es in
    let kept = keep (within_ttl end) ts in
    let stamps : judge_stamps end ts ≡ some l = unless-raised (any is_no_object es) _ l h in
    let made : some (judged ts (length kept) (length (keep (past_ttl end) ts))) ≡ some l =
      unless-raised (any is_zoneless ts) _ l stamps in
    let same : judged ts (length kept) (length (keep (past_ttl end) ts)) ≡ l = cc in
    ap (λ k. k.0) (sym same)
    ∙ judged-label end ts _ _ refl
    ∙ ap label_by (any-recurrences src end es)

-- Where the IDS answers and nothing raises, a decision is labelled a recurrence exactly if an alert
-- from its source came, with a readable time, before its rule ran out, be it before the decision or
-- after, and a true positive if not.
pub label_one-label :
    (d : Row) (src : Text) (es : List Entry) (l : Outcome × Notes)
    → d.alert_src_ip ≡ some src
    → label_one d (alerts es) ≡ some l
    → l.0 ≡ label_by (any (is_during src (d.created_at + ttl_of d.ttl_seconds)) es)
unfolding label_one
label_one-label d src es l known h =
    judge-label src (d.created_at + ttl_of d.ttl_seconds) es l (rw known at h)

module _ (ask : Row → Answer) where
  -- The labelling over and over, at any times.
  abbrev pub cycles : List ℕ → Tables → Tables
  unfolding label_pending
  cycles [] t = t
  cycles (cutoff ∷ cs) t = cycles cs (label_pending ask cutoff t)

  label_all-raises :
      (d : Row) (ds : List Row) (t : Tables)
      → label_one d (ask d) ≡ none
      → label_all ask (d ∷ ds) t ≡ none
  unfolding label_all
  label_all-raises d ds t raises = rw (label_all, raises) refl

  -- If the first decision that waits raises, whatever the others, a cycle changes nothing.
  label_pending-stuck :
      (cutoff : ℕ) (t : Tables) (d : Row) (ds : List Row)
      → keep (pending cutoff) t.decisions ≡ d ∷ ds
      → label_one d (ask d) ≡ none
      → label_pending ask cutoff t ≡ t
  unfolding label_pending
  label_pending-stuck cutoff t d ds waits raises =
      rw (waits, label_all-raises d (take 19 ds) t raises) refl

  -- A decision whose answer raises, and that stays the first that waits, blocks all labels for good.
  pub cycles-stuck :
      (cs : List ℕ) (t : Tables) (d : Row)
      → All (λ cutoff. (ds : List Row) × (keep (pending cutoff) t.decisions ≡ d ∷ ds)) cs
      → label_one d (ask d) ≡ none
      → cycles cs t ≡ t
  unfolding cycles
  cycles-stuck [] t d first raises = refl
  cycles-stuck (cutoff ∷ cs) t d first raises =
      rw (label_pending-stuck cutoff t d first.0.0 first.0.1 raises)
        (cycles-stuck cs t d first.1 raises)
