-- ===== src/Safety/Validators/Breadth.antt =====
-- The prefix length of an intent's source, in the validator (agent/safety/validators.py).
use s_com_control_plane.Base.{
  Bool, Text, [], arith, false, inl, inr, is_empty, length, refl, true, ℕ, ◌++◌, ◌<◌, ◌==◌, ◌∷◌,
  ◌≡◌, ◌≢◌,
}
use s_com_control_plane.Base.Int.{ℤ, ◌≤ℤ◌}
use s_com_control_plane.Net.{masked}
use s_com_control_plane.Net.Dotted.{dotted, digits, number, passes_under, passes_at}
use s_com_control_plane.Net.Prefix.{
  strip-dotted, strip-dotted_prefix, ip_network-dotted_prefix, not_empty_dotted,
}
use s_com_control_plane.Topology.Laws.{ip_address-dotted, ip_to_zone-prefix}
use s_com_control_plane.Models.{PolicyIntent, drop}
use s_com_control_plane.Policy.{Knowledge}
use s_com_control_plane.Policy.Sids.{get_sid_info}
use s_com_control_plane.Safety.Guardrails.{is_protected_ip, authored_actions}
use s_com_control_plane.Safety.Guardrails.Laws.{is_protected_ip-dotted, is_protected_ip-prefix}
use s_com_control_plane.Safety.Validators.{ok, ip_matches_alert_src, validate_intent}
use s_com_control_plane.Safety.Validators.Spec.{
  no_text, AcceptsDrop, FitsSeverity, validate_intent-drop,
}

not-is_empty : (s : Text) → length s ≢ 0 → is_empty s ≡ false
not-is_empty [] h = absurd (h refl)
not-is_empty (c ∷ s) h = refl

module _ (a b c d : ℕ) (ha : a < 256) (hb : b < 256) (hc : c < 256) (hd : d < 256) (a' b' c' d' : ℕ)
    (ha' : a' < 256) (hb' : b' < 256) (hc' : c' < 256) (hd' : d' < 256) (p : ℕ) (hp : p < 33) where
  -- The test of layer L4b is the test of network membership.
  pub ip_matches_alert_src-dotted :
      ip_matches_alert_src (dotted a b c d ++ b'/' ∷ digits p) (dotted a' b' c' d')
      ≡ (masked 32 p (number a' b' c' d') == masked 32 p (number a b c d))
  unfolding ip_matches_alert_src
  ip_matches_alert_src-dotted = rw (
    not-is_empty _ (not_empty_dotted a' b' c' d'),
    strip-dotted a' b' c' d' ha' hb' hc' hd',
    strip-dotted_prefix a b c d ha hb hc hd p hp,
    ip_address-dotted a' b' c' d' ha' hb' hc' hd',
    ip_network-dotted_prefix a b c d ha hb hc hd p hp,
  )

-- Any network of at most 24 bits around a web host holds the gateway of its zone.
abbrev holds_gateway : ℕ → ℕ → Bool
holds_gateway d p = masked 32 p (number 10 1 100 1) == masked 32 p (number 10 1 100 d)

gateway_table : passes_under 256 (λ d. passes_under 25 (holds_gateway d)) ≡ true
unfolding passes_under
gateway_table = refl

gateway_held : (d p : ℕ) → d < 256 → p < 25 → holds_gateway d p ≡ true
gateway_held d p hd hp =
    passes_at (holds_gateway d) 25 hp
      (passes_at (λ d. passes_under 25 (holds_gateway d)) 256 hd gateway_table)

module _ (k : Knowledge) (i : PolicyIntent) (sid : ℕ) (ttl_min ttl_max : ℤ) (d p : ℕ) (hd : d < 256)
    (host : 1 < d) (hp : p < 25) (is_drop : i.action ≡ drop)
    (target : i.src_ip ≡ dotted 10 1 100 d ++ b'/' ∷ digits p) (no_dst : i.dst_ip ≡ [])
    (severity : FitsSeverity drop (get_sid_info sid)) (low : ttl_min ≤ℤ i.ttl_seconds)
    (high : i.ttl_seconds ≤ℤ ttl_max) where
  accepted : AcceptsDrop k i sid ttl_min ttl_max (dotted 10 1 100 d)
  accepted = record {
    src_safe =
        rw
          (
            target,
            is_protected_ip-prefix 10 1 100 d (omega arith) (omega arith) (omega arith) hd
                (digits p),
          )
          (ground arith);
    dst_safe = rw no_dst no_text;
    on_target = inr (
        rw
          (
            target,
            ip_matches_alert_src-dotted 10 1 100 d (omega arith) (omega arith) (omega arith) hd 10 1
                100 d (omega arith) (omega arith) (omega arith) hd p (omega arith),
          )
          (ground arith));
    zone_known = rw (
      target,
      ip_to_zone-prefix 10 1 100 d (omega arith) (omega arith) (omega arith) hd (digits p),
    );
    no_conflict = inl no_dst;
    severity_fits = severity;
    ttl_low = low;
    ttl_high = high;
  }

  -- A DROP for a web host 10.1.100.d with d above 1, with no destination, a fitting severity and a
  -- time to live in range, passes with any prefix length up to 24, although its network then holds
  -- 10.1.100.1, which is protected.
  pub validate_intent_admits_protected :
      (ok (validate_intent authored_actions k i sid ttl_min ttl_max (dotted 10 1 100 d)) ≡ true)
      × (ip_matches_alert_src i.src_ip (dotted 10 1 100 1) ≡ true)
      × (is_protected_ip (dotted 10 1 100 1) ≡ true)
  validate_intent_admits_protected = (
    (validate_intent-drop k i sid ttl_min ttl_max (dotted 10 1 100 d) is_drop).1 accepted,
    rw
        (
          target,
          ip_matches_alert_src-dotted 10 1 100 d (omega arith) (omega arith) (omega arith) hd 10 1
              100 1 (omega arith) (omega arith) (omega arith) (omega arith) p (omega arith),
        )
        (gateway_held d p hd hp),
    rw (is_protected_ip-dotted 10 1 100 1 (omega arith) (omega arith) (omega arith) (omega arith)),
  )
