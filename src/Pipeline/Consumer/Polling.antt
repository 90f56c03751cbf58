-- ===== src/Pipeline/Consumer/Polling.antt =====
-- `_ingest_flow_batch` of intelligence-layer/src/pipeline/consumer.py: the flows that a poll finds
-- new. A store takes what it is given: the code catches what a push raises, and goes on.
use s_com_control_plane.Base.{
  Bool, Bool-cases, List, Option, Text, [], ap, arith, contains, eq_of_≟, false, if◌then◌else◌, inl,
  inr, is_some, length, ltb, map, refl, suc, text_dec, text_eq, true, ℕ, ◌++◌, ◌+◌, ◌-◌, ◌<◌, ◌||◌,
  ◌∙◌, ◌∷◌, ◌≟◌, ◌≡◌, ◌≤◌,
}
use s_com_control_plane.Base.Dict.{occurrences, occurrences-append}
use s_com_control_plane.Base.Slices.{last, length-drop, map-append}
use s_com_control_plane.Pipeline.Aggregator.{FlowEvent}
use s_com_control_plane.Pipeline.Window.{FlowWindow}
use s_com_control_plane.Pipeline.Consumer.{push_window}

-- A flow of the answer, its members as texts; `event` is what `from_raw` makes of it.
pub record FlowRecord : Type 0 where
  pub timestamp : Text
  pub src_ip : Text
  pub src_port : Text
  pub dest_ip : Text
  pub dest_port : Text
  pub event : Option FlowEvent

unfoldable pub flow_key : FlowRecord → Text
flow_key f =
    f.timestamp
    ++ b'|' ∷ (f.src_ip ++ b'|' ∷ (f.src_port ++ b'|' ∷ (f.dest_ip ++ b'|' ∷ f.dest_port)))

-- The keys seen, and the flows handed on, in order, to the events store and to the window.
pub record Poller : Type 0 where
  pub seen : List Text
  pub stored : List FlowRecord
  pub window : Option (FlowWindow FlowEvent)

-- `order` is the order in which Python lists the set of the keys.
module _ (has_store : Bool) (order : List Text → List Text) where
  -- The set after a new key.
  abbrev pub remembered : Text → List Text → List Text
  remembered k seen = let s = k ∷ seen in if ltb 500 (length s) then last 250 (order s) else s

  abbrev pub ingest_new : FlowRecord → Poller → Poller
  unfolding flow_key push_window
  ingest_new f p = record {
    seen = remembered (flow_key f) p.seen;
    stored = if has_store then p.stored ++ (f ∷ []) else p.stored;
    window = push_window f.event p.window;
  }

  abbrev pub ingest : FlowRecord → Poller → Poller
  unfolding ingest_new text_dec
  ingest f p = if contains (flow_key f) p.seen then p else ingest_new f p

  abbrev pub ingest_all : List FlowRecord → Poller → Poller
  unfolding ingest
  ingest_all [] p = p
  ingest_all (f ∷ fs) p = ingest_all fs (ingest f p)

  -- Without a store and a window, nothing is done. What is no dictionary is passed over before.
  unfoldable pub ingest_flow_batch : List FlowRecord → Poller → Poller
  unfolding ingest_all
  ingest_flow_batch fs p = if has_store || is_some p.window then ingest_all fs p else p

  remembered-bound :
      (k : Text) (seen : List Text)
      → ((s : List Text) → length (order s) ≡ length s)
      → length seen ≤ 500
      → length (remembered k seen) ≤ 500
  remembered-bound k seen same h = elim (Bool-cases (ltb 500 (length (k ∷ seen)))) [
    | inl over ↦ rw over (
        omega (
          arith,
          length-drop (length (order (k ∷ seen)) - 250) (order (k ∷ seen)),
          same (k ∷ seen),
        ))
    | inr room ↦ rw room (ground arith)
  ]

  ingest-bound :
      (f : FlowRecord) (p : Poller)
      → ((s : List Text) → length (order s) ≡ length s)
      → length p.seen ≤ 500
      → length (ingest f p).seen ≤ 500
  unfolding ingest
  ingest-bound f p same h = elim (Bool-cases (contains (flow_key f) p.seen)) [
    | inl old ↦ rw old h
    | inr fresh ↦ rw fresh (remembered-bound (flow_key f) p.seen same h)
  ]

  -- The keys seen stay 500 at most, where listing a set gives as many keys as it has.
  pub ingest_all-bound :
      (fs : List FlowRecord) (p : Poller)
      → ((s : List Text) → length (order s) ≡ length s)
      → length p.seen ≤ 500
      → length (ingest_all fs p).seen ≤ 500
  unfolding ingest_all
  ingest_all-bound [] p same h = h
  ingest_all-bound (f ∷ fs) p same h =
      ingest_all-bound fs (ingest f p) same (ingest-bound f p same h)

  -- How often a key is to be handed on.
  abbrev pub due : Text → List Text → List Text → ℕ
  unfolding text_dec
  due k seen ks = if contains k seen then 0 else if contains k ks then 1 else 0

  abbrev pub stored_keys : Poller → List Text
  unfolding flow_key
  stored_keys p = map flow_key p.stored

  remembered-room : (k : Text) (seen : List Text) → length seen < 500 → remembered k seen ≡ k ∷ seen
  remembered-room k seen h = ground arith

  occurrences-stored :
      (k : Text) (fs : List FlowRecord) (f : FlowRecord)
      → occurrences k (map flow_key (fs ++ (f ∷ [])))
        ≡ occurrences k (map flow_key fs) + (if k ≟ flow_key f then 1 else 0)
  occurrences-stored k fs f =
      rw (map-append flow_key fs (f ∷ []))
        (occurrences-append k (map flow_key fs) (flow_key f ∷ []) ∙ ground arith)

  module _ (k : Text) (f : FlowRecord) (ks : List Text) where
    due-new :
        (seen : List Text)
        → contains (flow_key f) seen ≡ false
        → (if k ≟ flow_key f then 1 else 0) + due k (flow_key f ∷ seen) ks
          ≡ due k seen (flow_key f ∷ ks)
    unfolding due
    due-new seen fresh = elim (Bool-cases (k ≟ flow_key f)) [
      | inl same ↦
          let unseen : contains k seen ≡ false =
            ap (λ j. contains j seen) (eq_of_≟ k (flow_key f) same) ∙ fresh in
          rw (same, unseen) (ground arith)
      | inr other ↦ rw other (omega arith)
    ]

    due-old :
        (seen : List Text)
        → contains (flow_key f) seen ≡ true
        → due k seen ks ≡ due k seen (flow_key f ∷ ks)
    unfolding due
    due-old seen old = elim (Bool-cases (k ≟ flow_key f)) [
      | inl same ↦
          let known : contains k seen ≡ true =
            ap (λ j. contains j seen) (eq_of_≟ k (flow_key f) same) ∙ old in
          rw known refl
      | inr other ↦ rw other refl
    ]

    due-ingest :
        (p : Poller)
        → has_store ≡ true
        → length p.seen < 500
        → occurrences k (stored_keys (ingest f p)) + due k (ingest f p).seen ks
          ≡ occurrences k (stored_keys p) + due k p.seen (flow_key f ∷ ks)
    unfolding ingest stored_keys
    due-ingest p store room = elim (Bool-cases (contains (flow_key f) p.seen)) [
      | inl old ↦ rw old (ap (λ n. occurrences k (map flow_key p.stored) + n) (due-old p.seen old))
      | inr fresh ↦
          rw (fresh, store, remembered-room (flow_key f) p.seen room)
            (omega (arith, occurrences-stored k p.stored f, due-new p.seen fresh))
    ]

  due-nil : (k : Text) (seen : List Text) → due k seen [] ≡ 0
  unfolding due
  due-nil k seen = ground arith

  length-ingest :
      (f : FlowRecord) (p : Poller)
      → length p.seen < 500
      → length (ingest f p).seen ≤ suc (length p.seen)
  unfolding ingest
  length-ingest f p room = elim (Bool-cases (contains (flow_key f) p.seen)) [
    | inl old ↦ rw old (omega arith)
    | inr fresh ↦ rw (fresh, remembered-room (flow_key f) p.seen room) (omega arith)
  ]

  -- With an events store, and room for the keys, a batch stores each key that was not seen once,
  -- however often it stands in the batch, and no key that was seen.
  pub ingest_all-due :
      (fs : List FlowRecord) (p : Poller) (k : Text)
      → has_store ≡ true
      → length p.seen + length fs ≤ 500
      → occurrences k (stored_keys (ingest_all fs p))
        ≡ occurrences k (stored_keys p) + due k p.seen (map flow_key fs)
  unfolding ingest_all
  ingest_all-due [] p k store room = omega (arith, due-nil k p.seen)
  ingest_all-due (f ∷ fs) p k store room = omega (
    arith,
    ingest_all-due fs (ingest f p) k store (omega (arith, length-ingest f p (omega arith))),
    due-ingest k f (map flow_key fs) p store (omega arith),
  )
