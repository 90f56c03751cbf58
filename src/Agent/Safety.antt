-- ===== src/Agent/Safety.antt =====
-- What must hold when a rule is pushed.
use s_com_control_plane.Base.{
  Bool, Bool-cases, Option, Text, ap, arith, eq_of_≟, false, if◌then◌else◌, inl, inr, none, refl,
  some, subst, sym, true, ◌∙◌, ◌∷◌, ◌≟◌, ◌≡◌, ◌≢◌, ◌≤◌, ◌⊎◌,
}
use s_com_control_plane.Models.{
  SuricataAlert, PolicyIntent, DecisionOutcome, drop, action_dec, rejected, held, action_eq,
}
use s_com_control_plane.Safety.Confidence.{evaluate_confidence}
use s_com_control_plane.Safety.Validators.{ok}
use s_com_control_plane.Safety.CircuitBreaker.{OpenReason, is_open}
use s_com_control_plane.Safety.RateLimiter.{LimitError, check_and_consume}
use s_com_control_plane.Agent.Enforce.{
  AgentState, World, BackendReply, Clock, enforce, enforce_intent, guarded, limited, push,
}
use s_com_control_plane.Agent.Process.{
  Settings, Env, Classification, suspicious, threat, classify, pipeline, process, validate_decision,
  judged, gated, validation, decide_policy, check_response_cache, conclude, continued,
  after_decision, after_cache, after_classification, after_gather, after_load, start,
}

-- The layers that run at the push.
pub record PassesLive (is_dry_run : Bool) (c : Clock) (w : World) (i : PolicyIntent) : Type 0 where
  pub drops : i.action ≡ drop
  pub closed : is_open w.breaker c.at_breaker c.at_breaker_message ≡ none
  pub has_slot : (check_and_consume w.limiter i.src_ip c.at_limiter).1 ≡ none
  pub live : is_dry_run ≡ false

-- The intents handed to the backend: none, or one that passed.
abbrev pub Pushed : (World → PolicyIntent → Type 0) → World → World → Type 0
Pushed P w w' = (w'.pushed ≡ w.pushed) ⊎ ((i : PolicyIntent) × (w'.pushed ≡ i ∷ w.pushed) × P w i)

Pushed-if :
    (b : Bool) (P : World → PolicyIntent → Type 0) (w : World) (x y : AgentState × World)
    → Pushed P w x.1
    → Pushed P w y.1
    → Pushed P w (if b then x else y).1
Pushed-if true P w x y hx hy = hx
Pushed-if false P w x y hx hy = hy

module _ (is_dry_run : Bool) (backend : PolicyIntent → BackendReply) (c : Clock) where
  pushed-push :
      (i : PolicyIntent) (s : AgentState) (w : World)
      → (push backend c i s w).1.pushed ≡ i ∷ w.pushed
  unfolding push
  pushed-push i s w = ground arith

  abbrev Passed : Option PolicyIntent → World → PolicyIntent → Type 0
  Passed o w i = (o ≡ some i) × PassesLive is_dry_run c w i

  module _ (i : PolicyIntent) (s : AgentState) (w : World) (d : i.action ≡ drop)
      (closed : is_open w.breaker c.at_breaker c.at_breaker_message ≡ none) where
    limited-Pushed :
        (e : Option LimitError)
        → (check_and_consume w.limiter i.src_ip c.at_limiter).1 ≡ e
        → (w' : World) → w'.pushed ≡ w.pushed
        → Pushed (Passed (some i)) w (limited is_dry_run backend c e i s w').1
    limited-Pushed (some e) slot w' same = inl same
    limited-Pushed none slot w' same = elim (Bool-cases is_dry_run) [
      | inl dry ↦ rw dry (inl same)
      | inr live ↦ rw live (
          inr (
            i,
            pushed-push i s w' ∙ ap (◌∷◌ i) same,
            (refl, record { drops = d; closed = closed; has_slot = slot; live = refl }),
          ))
    ]

  guarded-Pushed :
      (o : Option OpenReason) (i : PolicyIntent) (s : AgentState) (w : World)
      → i.action ≡ drop
      → is_open w.breaker c.at_breaker c.at_breaker_message ≡ o
      → Pushed (Passed (some i)) w (guarded is_dry_run backend c o i s w).1
  guarded-Pushed (some r) i s w d e = inl refl
  guarded-Pushed none i s w d closed =
      limited-Pushed i s w d closed (check_and_consume w.limiter i.src_ip c.at_limiter).1 refl
        (record w { limiter = (check_and_consume w.limiter i.src_ip c.at_limiter).0 }) refl

  enforce_intent-Pushed :
      (o : Option PolicyIntent) (s : AgentState) (w : World)
      → Pushed (Passed o) w (enforce_intent is_dry_run backend c o s w).1
  unfolding enforce_intent
  enforce_intent-Pushed none s w = inl refl
  enforce_intent-Pushed (some i) s w = elim (Bool-cases (i.action ≟ drop)) [
    | inl d ↦ rw d (guarded-Pushed _ i s w (eq_of_≟ i.action drop d) refl)
    | inr other ↦ rw other (inl refl)
  ]

  -- A call of `_enforce` hands nothing to the backend, or the intent of the state, once, past both
  -- live layers.
  enforce-Pushed :
      (s : AgentState) (w : World) → Pushed (Passed s.intent) w (enforce is_dry_run backend c s w).1
  unfolding enforce
  enforce-Pushed s w = enforce_intent-Pushed s.intent s w

module _ (digest : Text → Text) (cfg : Settings) where
  -- All layers: the intent is valid for the alert, and confident enough to be enforced.
  pub record PassesAll (env : Env) (alert : SuricataAlert) (w : World) (i : PolicyIntent)
      : Type 0 where
    pub threatening : classify env.classification ≢ Classification.benign
    pub valid : ok (validation digest cfg alert i) ≡ true
    pub confident :
        (cfg.thresholds.auto_enforce ≤ i.confidence) ⊎ (cfg.thresholds.notify ≤ i.confidence)
    pub live : PassesLive cfg.dry_run env.clock w i

  confident_of :
      (i : PolicyIntent) (s : AgentState)
      → (gated digest (evaluate_confidence i.confidence cfg.thresholds) i s).outcome ≡ none
      → (cfg.thresholds.auto_enforce ≤ i.confidence) ⊎ (cfg.thresholds.notify ≤ i.confidence)
  unfolding evaluate_confidence
  confident_of i s h = ground arith

  intent-judged :
      (alert : SuricataAlert) (o : Option PolicyIntent) (s : AgentState)
      → (judged digest cfg alert o s).intent ≡ s.intent
  unfolding action_dec
  intent-judged alert none s = refl
  intent-judged alert (some i) s = ground arith

  judged-some :
      (alert : SuricataAlert) (i : PolicyIntent) (s : AgentState)
      → (judged digest cfg alert (some i) s).outcome ≡ none
      → (ok (validation digest cfg alert i) ≡ true)
        × ((cfg.thresholds.auto_enforce ≤ i.confidence) ⊎ (cfg.thresholds.notify ≤ i.confidence))
  judged-some alert i s h = elim (Bool-cases (ok (validation digest cfg alert i))) [
    | inl v ↦ (v, confident_of i s (rw v at h))
    | inr bad ↦ cc (rw bad at h)
  ]

  module _ (env : Env) (alert : SuricataAlert)
      (threatening : classify env.classification ≢ Classification.benign) where
    passes :
        (s : AgentState) (w : World) (i : PolicyIntent)
        → (validate_decision digest cfg alert s).outcome ≡ none
        → (validate_decision digest cfg alert s).intent ≡ some i
        → PassesLive cfg.dry_run env.clock w i
        → PassesAll env alert w i
    unfolding validate_decision
    passes s w i undecided at_hand live =
        let same : s.intent ≡ some i = sym (intent-judged alert s.intent s) ∙ at_hand in
        let (valid, confident) =
          judged-some alert i s
            (subst (λ o. (judged digest cfg alert o s).outcome ≡ none) same undecided) in
        record { threatening = threatening; valid = valid; confident = confident; live = live }

    concluded :
        (o : Option DecisionOutcome) (s : AgentState) (w : World)
        → (validate_decision digest cfg alert s).outcome ≡ o
        → Pushed
            (PassesAll env alert)
            w
            (conclude digest cfg env o (validate_decision digest cfg alert s) w).1
    concluded (some o) s w e = inl refl
    concluded none s w e =
        elim (enforce-Pushed cfg.dry_run env.backend env.clock
          (validate_decision digest cfg alert s) w) [
            | inl same ↦ inl same
            | inr (i, pushed, (at_hand, live)) ↦ inr (i, pushed, passes s w i e at_hand live)
          ]

    continued-Pushed :
        (o : Option DecisionOutcome) (s : AgentState) (w : World)
        → Pushed (PassesAll env alert) w (continued digest cfg env alert o s w).1
    continued-Pushed (some rejected) s w = inl refl
    continued-Pushed (some held) s w = inl refl
    continued-Pushed _ s w = concluded _ s w refl

    decided-Pushed :
        (before_it : AgentState) (r : AgentState ⊎ Text) (w : World)
        → Pushed (PassesAll env alert) w (after_decision digest cfg env alert before_it r w).1
    decided-Pushed before_it (inr e) w = inl refl
    decided-Pushed before_it (inl s) w = continued-Pushed s.outcome s w

    cache-Pushed :
        (s : AgentState) (w : World)
        → Pushed (PassesAll env alert) w (after_cache digest cfg env alert s w).1
    cache-Pushed s w =
        Pushed-if s.cache_hit (PassesAll env alert) w _ _ (continued-Pushed s.outcome s w)
          (decided-Pushed s (decide_policy digest env alert s) w)

    gathered-Pushed :
        (o : Option Text) (w : World)
        → Pushed (PassesAll env alert) w (after_gather digest cfg o env alert w).1
    gathered-Pushed (some e) w = inl refl
    gathered-Pushed none w = cache-Pushed (check_response_cache digest env alert start) w

  classified-Pushed :
      (env : Env) (alert : SuricataAlert) (w : World) (c : Classification)
      → classify env.classification ≡ c
      → Pushed (PassesAll env alert) w (after_classification digest cfg env alert c w).1
  classified-Pushed env alert w Classification.benign e = inl refl
  classified-Pushed env alert w suspicious e =
      gathered-Pushed env alert (λ b. cc (sym e ∙ b)) env.gather_error w
  classified-Pushed env alert w threat e =
      gathered-Pushed env alert (λ b. cc (sym e ∙ b)) env.gather_error w

  loaded-Pushed :
      (o : Option Text) (env : Env) (alert : SuricataAlert) (w : World)
      → Pushed (PassesAll env alert) w (after_load digest cfg o env alert w).1
  loaded-Pushed (some e) env alert w = inl refl
  loaded-Pushed none env alert w = classified-Pushed env alert w (classify env.classification) refl

  -- Whatever comes back from the LLM, the cache and the clock, one alert hands at most one intent to
  -- the backend, and that one passed every layer: the alert is not benign, the intent is valid for
  -- the alert, its confidence reaches a threshold of enforcement, it is a DROP, the circuit is
  -- closed, the rate limiter gave a slot, and the run is not dry.
  pub process_pushes_guarded :
      (env : Env) (alert : SuricataAlert) (w : World)
      → Pushed (PassesAll env alert) w (process digest cfg env alert w).1
  unfolding process pipeline
  process_pushes_guarded env alert w = loaded-Pushed env.load_error env alert w
