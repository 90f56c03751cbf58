-- ===== src/Agent/Rebind.antt =====
-- An intent that `rebind_cached_intent` (agent/response_cache.py) builds from the cache.
use s_com_control_plane.Base.{
  Bool-cases, List, Option, Text, [], any, ap, arith, codes, if◌then◌else◌, inl, inr, none, refl,
  some, text_eq, ℕ, ◌++◌, ◌==◌, ◌||◌, ◌∷◌, ◌≟◌, ◌≡◌, ◌≤◌, ◌⊎◌,
}
use s_com_control_plane.Base.Int.{ℤ, pos}
use s_com_control_plane.Models.{SuricataAlert, PolicyAction, PolicyIntent, drop, log_only}
use s_com_control_plane.Agent.Intent.{
  RawIntent, Field, missing, bad, given, get_or, required, in_unit, ◌>>=◌, full_confidence,
  has_slash, live_target, cached_action, set_deterministic_rule_id, rebind_cached_intent, rebound,
  deterministic_rule_id,
}

-- An address as a network: as it is if it has a prefix length, else with the length of one host.
abbrev pub network_of : Text → Text
network_of ip = if any (λ c. c == b'/') ip then ip else ip ++ codes "/32"

-- What a rebound intent is, whatever the cache held.
pub record IsRebound (digest : Text → Text) (alert : SuricataAlert) (i : PolicyIntent)
    : Type 0 where
  pub target : i.src_ip ≡ network_of alert.src_ip
  pub action : (i.action ≡ drop) ⊎ (i.action ≡ log_only)
  pub confidence : i.confidence ≤ full_confidence
  pub rule : i.rule_id ≡ deterministic_rule_id digest i.src_ip i.dst_ip i.dst_port i.protocol

-- An optional intent, if there is one.
pub data IfSome {A : Type 0} (P : A → Type 0) : Option A → Type 0 where
  absent : IfSome P none
  present : (a : A) → P a → IfSome P (some a)

in_unit-le : (z : ℤ) (n : ℕ) → in_unit z ≡ some n → n ≤ full_confidence
in_unit-le z n h = ground arith

module _ (digest : Text → Text) where
  cached_action-cases :
      (f : Field Text) (a : PolicyAction)
      → cached_action digest f ≡ some a
      → (a ≡ drop) ⊎ (a ≡ log_only)
  unfolding cached_action
  cached_action-cases missing a h = cc h
  cached_action-cases bad a h = inr (cc h)
  cached_action-cases (given s) a h = elim (Bool-cases (s ≟ codes "DROP")) [
    | inl same ↦ inl (cc (rw same at h))
    | inr other ↦ inr (cc (rw other at h))
  ]

  has_slash-any : (s : Text) → has_slash digest s ≡ any (λ c. c == b'/') s
  has_slash-any [] = refl
  has_slash-any (c ∷ s) = ap (λ b. c == b'/' || b) (has_slash-any s)

  live_target-network_of :
      (alert : SuricataAlert) → live_target digest alert ≡ network_of alert.src_ip
  unfolding live_target
  live_target-network_of alert =
      ap (λ b. if b then alert.src_ip else alert.src_ip ++ codes "/32") (has_slash-any alert.src_ip)

  rebound-IsRebound :
      (alert : SuricataAlert) (a : PolicyAction) (dst_ip : Text) (dst_port : ℤ) (protocol : Text)
      (priority ttl_seconds : ℤ) (comment : Text) (n : ℕ) (steps : List Text)
      → (a ≡ drop) ⊎ (a ≡ log_only)
      → n ≤ full_confidence
      → IsRebound digest alert
          (rebound digest alert a dst_ip dst_port protocol priority ttl_seconds comment n steps)
  unfolding rebound set_deterministic_rule_id
  rebound-IsRebound alert a dst_ip dst_port protocol priority ttl_seconds comment n steps is_action
        in_range =
      record {
        target = live_target-network_of alert;
        action = is_action;
        confidence = in_range;
        rule = refl;
      }

  module _ (alert : SuricataAlert) where
    rebuilt-IfSome :
        (action : PolicyAction) (dst_ip : Text) (dst_port : ℤ) (protocol : Text)
        (priority ttl_seconds : ℤ) (comment : Text) (o : Option ℕ) (l : Option (List Text))
        → (action ≡ drop) ⊎ (action ≡ log_only)
        → ((n : ℕ) → o ≡ some n → n ≤ full_confidence)
        → IfSome (IsRebound digest alert) (
            o >>= λ n. l >>= λ steps. some (
              rebound digest alert action dst_ip dst_port protocol priority ttl_seconds comment n
                steps))
    rebuilt-IfSome action dst_ip dst_port protocol priority ttl_seconds comment none l is_action
          in_range =
        absent
    rebuilt-IfSome action dst_ip dst_port protocol priority ttl_seconds comment (some n) none
          is_action in_range =
        absent
    rebuilt-IfSome action dst_ip dst_port protocol priority ttl_seconds comment (some n)
          (some steps) is_action in_range =
        present _ (
          rebound-IsRebound alert action dst_ip dst_port protocol priority ttl_seconds comment n
            steps is_action (in_range n refl))

    -- The fields that the template may lack, in the order in which they are read.
    read-IfSome :
        (a : Option PolicyAction) (d : Option Text) (p : Option ℤ) (q : Option Text)
        (r t : Option ℤ) (c : Option Text) (z : Option ℤ) (l : Option (List Text))
        → ((x : PolicyAction) → a ≡ some x → (x ≡ drop) ⊎ (x ≡ log_only))
        → IfSome (IsRebound digest alert) (
            a >>= λ action. d >>= λ dst_ip. p >>= λ dst_port. q >>= λ protocol. r >>= λ priority.
            t >>= λ ttl_seconds. c >>= λ comment. z >>= λ score. in_unit score >>= λ n.
            l >>= λ steps. some (
              rebound digest alert action dst_ip dst_port protocol priority ttl_seconds comment n
                steps))
    read-IfSome none d p q r t c z l h = absent
    read-IfSome (some a) none p q r t c z l h = absent
    read-IfSome (some a) (some d) none q r t c z l h = absent
    read-IfSome (some a) (some d) (some p) none r t c z l h = absent
    read-IfSome (some a) (some d) (some p) (some q) none t c z l h = absent
    read-IfSome (some a) (some d) (some p) (some q) (some r) none c z l h = absent
    read-IfSome (some a) (some d) (some p) (some q) (some r) (some t) none z l h = absent
    read-IfSome (some a) (some d) (some p) (some q) (some r) (some t) (some c) none l h = absent
    read-IfSome (some a) (some d) (some p) (some q) (some r) (some t) (some c) (some z) l h =
        rebuilt-IfSome a d p q r t c (in_unit z) l (h a refl) (in_unit-le z)

    -- Whatever the cache holds, an intent that is rebound from it targets the source of the alert at
    -- hand, as a network, is a DROP or logs only, has a confidence of at most 1, and the rule id of
    -- its own flow.
    pub rebind_cached_intent-IsRebound :
        (held : Option RawIntent)
        → IfSome (IsRebound digest alert) (rebind_cached_intent digest held alert)
    unfolding rebind_cached_intent
    rebind_cached_intent-IsRebound none = absent
    rebind_cached_intent-IsRebound (some r) =
        read-IfSome (cached_action digest r.action) (get_or r.dst_ip []) (get_or r.dst_port (pos 0))
          (get_or r.protocol (codes "tcp")) (get_or r.priority (pos 50))
          (get_or r.ttl_seconds (pos 3600)) (get_or r.comment []) (required r.confidence)
          (get_or r.reasoning_steps []) (cached_action-cases r.action)
