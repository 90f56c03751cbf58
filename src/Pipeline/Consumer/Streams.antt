-- ===== src/Pipeline/Consumer/Streams.antt =====
-- What one connection hands on to the agent and to the events store.
use s_com_control_plane.Base.{
  All, Bool, Bool-cases, List, Option, Option-cases, Text, [], any, ap, append_assoc, append_nil,
  arith, false, if◌then◌else◌, inl, inr, is_some, length, length-append, map, none, refl, some,
  subst, sym, true, ◌++◌, ◌+◌, ◌||◌, ◌∙◌, ◌∷◌, ◌≡◌, ◌≤◌,
}
use s_com_control_plane.Models.{SuricataAlert}
use s_com_control_plane.Pipeline.Dispatcher.{Trigger, trigger_enabled}
use s_com_control_plane.Pipeline.Consumer.{
  Event, Decoded, Kind, Stream, skipped, broken, flow_line, alert_line, line_kind, on_kind,
  on_alert, on_flow, mirror_violation, consume,
}

-- The events of alerts, and their alerts.
abbrev pub events_of : List Kind → List Event
events_of [] = []
events_of (alert_line e ∷ ks) = e ∷ events_of ks
events_of (skipped ∷ ks) = events_of ks
events_of (broken ∷ ks) = events_of ks
events_of (flow_line e ∷ ks) = events_of ks

abbrev pub alerts_of : List Event → List SuricataAlert
alerts_of [] = []
alerts_of (e ∷ es) = elim e.alert [ none ↦ alerts_of es | some a ↦ a ∷ alerts_of es ]

-- A line that raises nothing by itself: no JSON but an object, no alert that `from_raw` refuses.
abbrev pub Sound : Kind → Type 0
Sound broken = ⊥
Sound skipped = Unit
Sound (flow_line e) = Unit
Sound (alert_line e) = is_some e.alert ≡ true

-- A line that ends the connection by an exception where the trigger is off.
abbrev pub ends_off : Kind → Bool
ends_off broken = true
ends_off (alert_line e) = true
ends_off skipped = false
ends_off (flow_line e) = false

module _ (decode : Text → Decoded) (has_store : Bool) (trigger : Trigger) where
  abbrev pub kinds : List Text → List Kind
  unfolding line_kind
  kinds lines = map (line_kind decode has_store trigger) lines

  -- What the off trigger leaves: no dispatch, and a violation more at most.
  abbrev Quiet : Stream → Stream → Type 0
  Quiet s s' = (s'.dispatched ≡ s.dispatched) × (length s'.violations ≤ length s.violations + 1)

  abbrev Unchanged : Stream → Stream → Type 0
  Unchanged s s' = (s'.dispatched ≡ s.dispatched) × (s'.violations ≡ s.violations)

  on_flow-Unchanged : (e : Event) (s : Stream) → Unchanged s (on_flow decode has_store trigger e s)
  unfolding on_flow
  on_flow-Unchanged e s = ground arith

  mirror_violation-Quiet :
      (e : Event) (s : Stream) → Quiet s (mirror_violation decode has_store trigger e s)
  mirror_violation-Quiet e s = elim (Bool-cases has_store) [
    | inl h ↦ rw h (refl, omega (arith, length-append s.violations (e ∷ [])))
    | inr h ↦ rw h (refl, omega arith)
  ]

  -- A line that goes on leaves dispatches and violations as they were, one that raises is quiet.
  abbrev OffStep : Stream → Stream × Bool → Type 0
  OffStep s (s', false) = Unchanged s s'
  OffStep s (s', true) = Quiet s s'

  on_alert-off :
      (o : Option SuricataAlert) (s s' : Stream)
      → trigger_enabled trigger ≡ false
      → Quiet s s'
      → OffStep s (on_alert decode has_store trigger o s')
  unfolding on_alert
  on_alert-off none s s' off q = q
  on_alert-off (some a) s s' off q = rw off q

  on_kind-off :
      (k : Kind) (s : Stream)
      → trigger_enabled trigger ≡ false
      → OffStep s (on_kind decode has_store trigger k s)
  unfolding on_kind
  on_kind-off skipped s off = (refl, refl)
  on_kind-off broken s off = (refl, omega arith)
  on_kind-off (flow_line e) s off = on_flow-Unchanged e s
  on_kind-off (alert_line e) s off =
      on_alert-off e.alert s (mirror_violation decode has_store trigger e s) off
        (mirror_violation-Quiet e s)

  rest-off :
      (lines : List Text) (s : Stream) (r : Stream × Bool)
      → ((s' : Stream) → Quiet s' (consume decode has_store trigger lines s').0)
      → OffStep s r
      → Quiet s
          (elim r.1 as (λ x. Stream × Bool) [
            | true ↦ r
            | false ↦ consume decode has_store trigger lines r.0
          ]).0
  rest-off lines s (s', true) ih q = q
  rest-off lines s (s', false) ih (same, same_violations) =
      let (later, few) = ih s' in (later ∙ same, omega (arith, few, ap length same_violations))

  consume-Quiet :
      (lines : List Text) (s : Stream)
      → trigger_enabled trigger ≡ false
      → Quiet s (consume decode has_store trigger lines s).0
  unfolding consume
  consume-Quiet [] s off = (refl, omega arith)
  consume-Quiet (line ∷ lines) s off =
      rest-off lines s
        (on_kind decode has_store trigger (line_kind decode has_store trigger line) s)
        (λ (s' : Stream). consume-Quiet lines s' off)
        (on_kind-off (line_kind decode has_store trigger line) s off)

  on_alert-raises :
      (o : Option SuricataAlert) (s : Stream)
      → trigger_enabled trigger ≡ false
      → (on_alert decode has_store trigger o s).1 ≡ true
  unfolding on_alert
  on_alert-raises none s off = refl
  on_alert-raises (some a) s off = rw off refl

  on_kind-raises :
      (k : Kind) (s : Stream)
      → trigger_enabled trigger ≡ false
      → (on_kind decode has_store trigger k s).1 ≡ ends_off k
  unfolding on_kind
  on_kind-raises skipped s off = refl
  on_kind-raises broken s off = refl
  on_kind-raises (flow_line e) s off = refl
  on_kind-raises (alert_line e) s off =
      on_alert-raises e.alert (mirror_violation decode has_store trigger e s) off

  rest-raises :
      (lines : List Text) (r : Stream × Bool) (now later : Bool)
      → r.1 ≡ now
      → ((s : Stream) → (consume decode has_store trigger lines s).1 ≡ later)
      → (elim r.1 as (λ x. Stream × Bool) [
        | true ↦ r
        | false ↦ consume decode has_store trigger lines r.0
      ]).1
        ≡ (now || later)
  rest-raises lines (s, true) now later e ih = ap (λ b. b || later) e
  rest-raises lines (s, false) now later e ih = ih s ∙ ap (λ b. b || later) e

  raises-off :
      (lines : List Text) (s : Stream)
      → trigger_enabled trigger ≡ false
      → (consume decode has_store trigger lines s).1 ≡ any ends_off (kinds lines)
  unfolding consume
  raises-off [] s off = refl
  raises-off (line ∷ lines) s off =
      rest-raises lines
        (on_kind decode has_store trigger (line_kind decode has_store trigger line) s)
        (ends_off (line_kind decode has_store trigger line)) (any ends_off (kinds lines))
        (on_kind-raises (line_kind decode has_store trigger line) s off)
        (λ (s' : Stream). raises-off lines s' off)

  -- Where the trigger is off, a connection dispatches no alert and, whatever its lines are, stores one
  -- violation at most; it ends by an exception exactly if one of its lines is an alert, or breaks
  -- by itself.
  pub consume-off :
      (lines : List Text) (s : Stream)
      → trigger_enabled trigger ≡ false
      → ((consume decode has_store trigger lines s).0.dispatched ≡ s.dispatched)
        × (length (consume decode has_store trigger lines s).0.violations ≤ length s.violations + 1)
        × ((consume decode has_store trigger lines s).1 ≡ any ends_off (kinds lines))
  consume-off lines s off =
      let quiet = consume-Quiet lines s off in (quiet.0, quiet.1, raises-off lines s off)

  -- The stream after some alert events.
  abbrev pub Handed : List Event → Stream → Stream → Type 0
  Handed es s s' =
      (s'.dispatched ≡ s.dispatched ++ alerts_of es)
      × (s'.violations ≡ (if has_store then s.violations ++ es else s.violations))

  abbrev pub OnStep : List Event → Stream → Stream × Bool → Type 0
  OnStep es s r = (r.1 ≡ false) × Handed es s r.0

  stored-nil : (xs : List Event) → xs ≡ (if has_store then xs ++ [] else xs)
  stored-nil xs = elim (Bool-cases has_store) [
    | inl h ↦ rw h (sym (append_nil xs))
    | inr h ↦ rw h refl
  ]

  Handed-Unchanged : (s s' : Stream) → Unchanged s s' → Handed [] s s'
  Handed-Unchanged s s' u = (u.0 ∙ sym (append_nil s.dispatched), u.1 ∙ stored-nil s.violations)

  mirrored-violations :
      (e : Event) (s : Stream)
      → (mirror_violation decode has_store trigger e s).violations
        ≡ (if has_store then s.violations ++ (e ∷ []) else s.violations)
  mirrored-violations e s = elim (Bool-cases has_store) [ inl h ↦ rw h refl | inr h ↦ rw h refl ]

  mirrored-dispatched :
      (e : Event) (s : Stream)
      → (mirror_violation decode has_store trigger e s).dispatched ≡ s.dispatched
  mirrored-dispatched e s = (mirror_violation-Quiet e s).0

  alerts_one : (e : Event) (a : SuricataAlert) → e.alert ≡ some a → alerts_of (e ∷ []) ≡ a ∷ []
  alerts_one e a at_hand = rw at_hand refl

  alert-on :
      (e : Event) (s : Stream) (a : SuricataAlert)
      → trigger_enabled trigger ≡ true
      → alerts_of (e ∷ []) ≡ a ∷ []
      → OnStep (e ∷ []) s (
          on_alert decode has_store trigger
            (some a)
            (mirror_violation decode has_store trigger e s))
  unfolding on_alert
  alert-on e s a on one = rw on (
    refl,
    (
      ap (λ x. x ++ (a ∷ [])) (mirrored-dispatched e s) ∙ ap (◌++◌ s.dispatched) (sym one),
      mirrored-violations e s,
    ),
  )

  on_kind-on :
      (k : Kind) (s : Stream)
      → trigger_enabled trigger ≡ true
      → Sound k
      → OnStep (events_of (k ∷ [])) s (on_kind decode has_store trigger k s)
  unfolding on_kind
  on_kind-on skipped s on k = (refl, Handed-Unchanged s s (refl, refl))
  on_kind-on broken s on k = absurd k
  on_kind-on (flow_line e) s on k =
      (refl, Handed-Unchanged s (on_flow decode has_store trigger e s) (on_flow-Unchanged e s))
  on_kind-on (alert_line e) s on k = elim (Option-cases e.alert) [
    | inl n ↦ cc (rw n at k)
    | inr (a, at_hand) ↦
        subst
          (λ o.
            OnStep (e ∷ []) s
              (on_alert decode has_store trigger o (mirror_violation decode has_store trigger e s)))
          (sym at_hand) (alert-on e s a on (alerts_one e a at_hand))
  ]

  alerts_of-append : (xs ys : List Event) → alerts_of (xs ++ ys) ≡ alerts_of xs ++ alerts_of ys
  alerts_of-append [] ys = refl
  alerts_of-append (x ∷ xs) ys = elim (Option-cases x.alert) [
    | inl n ↦ rw n (alerts_of-append xs ys)
    | inr (a, s) ↦ rw s (ap (◌∷◌ a) (alerts_of-append xs ys))
  ]

  events_of-cons :
      (k : Kind) (ks : List Kind) → events_of (k ∷ ks) ≡ events_of (k ∷ []) ++ events_of ks
  events_of-cons skipped ks = refl
  events_of-cons broken ks = refl
  events_of-cons (flow_line e) ks = refl
  events_of-cons (alert_line e) ks = refl

  Handed-append :
      (xs ys : List Event) (s s' s'' : Stream)
      → Handed xs s s'
      → Handed ys s' s''
      → Handed (xs ++ ys) s s''
  Handed-append xs ys s s' s'' h k = (
    k.0
        ∙ (ap (λ z. z ++ alerts_of ys) h.0
            ∙ (append_assoc s.dispatched (alerts_of xs) (alerts_of ys)
                ∙ ap (◌++◌ s.dispatched) (sym (alerts_of-append xs ys)))),
    elim (Bool-cases has_store) [
      | inl b ↦
          rw b (rw b at k.1 ∙ (ap (λ z. z ++ ys) (rw b at h.1) ∙ append_assoc s.violations xs ys))
      | inr b ↦ rw b (rw b at k.1 ∙ rw b at h.1)
    ],
  )

  rest-on :
      (lines : List Text) (es fs : List Event) (s : Stream) (r : Stream × Bool)
      → ((s' : Stream) → OnStep fs s' (consume decode has_store trigger lines s'))
      → OnStep es s r
      → OnStep (es ++ fs) s (elim r.1 as (λ x. Stream × Bool) [
        | true ↦ r
        | false ↦ consume decode has_store trigger lines r.0
      ])
  rest-on lines es fs s (s', true) ih (going, h) = cc
  rest-on lines es fs s (s', false) ih (going, h) =
      let (later, k) = ih s' in
      (later, Handed-append es fs s s' (consume decode has_store trigger lines s').0 h k)

  -- Where the trigger is on and every line is sound, a connection reads all its lines: it dispatches
  -- the alert of each alert event, once and in order, and, with an events store, stores each.
  pub consume-on :
      (lines : List Text) (s : Stream)
      → trigger_enabled trigger ≡ true
      → All Sound (kinds lines)
      → OnStep (events_of (kinds lines)) s (consume decode has_store trigger lines s)
  unfolding consume
  consume-on [] s on k = (refl, Handed-Unchanged s s (refl, refl))
  consume-on (line ∷ lines) s on k =
      rw (events_of-cons (line_kind decode has_store trigger line) (kinds lines)) (
        rest-on lines (events_of (line_kind decode has_store trigger line ∷ []))
          (events_of (kinds lines)) s
          (on_kind decode has_store trigger (line_kind decode has_store trigger line) s)
          (λ (s' : Stream). consume-on lines s' on k.1)
          (on_kind-on (line_kind decode has_store trigger line) s on k.0))
