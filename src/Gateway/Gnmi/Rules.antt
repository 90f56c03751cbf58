-- ===== src/Gateway/Gnmi/Rules.antt =====
-- What `create_advanced_acl_rule` of gnmiclient.py writes at a switch, and what it tells its caller.
use s_com_control_plane.Base.{
  All, Bool, Bool-cases, List, Option, Text, [], ap, arith, codes, false, inl, inr, is_some, keep,
  length, map, none, refl, some, starts_with, subst, true, ◌&&◌, ◌++◌, ◌∷◌, ◌≡◌, ◌≤◌,
}
use s_com_control_plane.Base.Int.{ℤ, pos, ltb_ℤ}
use s_com_control_plane.Gateway.Gnmi.{
  Dial, Rpc, gives, misshapen, fails, Write, accepted, refused, GnmiClient, Ended, returned,
  not_connected, raised, LogEvent, create_success, ensure_connected, read, if_ready, ethernet_ports,
  default_interfaces, get_available_interfaces, sorted, insert_sorted, text_leb,
}
use s_com_control_plane.Gateway.Gnmi.Acl.{
  Arguments, create_advanced_acl_rule, ports_of, ports_or_first, written, AclConfig, Binding,
  config_of, entry_of, sequence_of, binding_of,
}

abbrev pub IsEthernet : Text → Type 0
IsEthernet name = starts_with (codes "Ethernet") name ≡ true

insert-All :
    (P : Text → Type 0) (x : Text) (ys : List Text) → P x → All P ys → All P (insert_sorted x ys)
insert-All P x [] h hs = (h, hs)
insert-All P x (y ∷ ys) h hs = elim (Bool-cases (text_leb x y)) [
  | inl le ↦ rw le (h, hs)
  | inr gt ↦ rw gt (hs.0, insert-All P x ys h hs.1)
]

sorted-All : (P : Text → Type 0) (xs : List Text) → All P xs → All P (sorted xs)
sorted-All P [] hs = hs
sorted-All P (x ∷ xs) hs = insert-All P x (sorted xs) hs.0 (sorted-All P xs hs.1)

keep-All : (p : Text → Bool) (xs : List Text) → All (λ x. p x ≡ true) (keep p xs)
keep-All p [] = tt
keep-All p (x ∷ xs) = elim (Bool-cases (p x)) [
  | inl kept ↦ rw kept (kept, keep-All p xs)
  | inr left ↦ rw left (keep-All p xs)
]

-- The interfaces of the answer or, where there is none, the default ones.
interfaces-All :
    (r : Rpc (List Text)) (p : GnmiClient × Bool)
    → All IsEthernet ((if_ready default_interfaces (ethernet_ports r) p).1)
unfolding if_ready
interfaces-All r (c, false) = (refl, (refl, (refl, (refl, tt))))
interfaces-All (gives names) (c, true) = sorted-All IsEthernet _ (keep-All _ names)
interfaces-All (misshapen m) (c, true) = (refl, (refl, (refl, (refl, tt))))
interfaces-All (fails m) (c, true) = (refl, (refl, (refl, (refl, tt))))

or_first-All :
    (names : List Text)
    → All IsEthernet names
    → All IsEthernet (ports_or_first names) × (1 ≤ length (ports_or_first names))
or_first-All [] hs = ((refl, tt), omega arith)
or_first-All (n ∷ ns) hs = (hs, omega arith)

-- A binding of the rule's own table at an Ethernet port.
abbrev pub BindsTo : Text → Text → Binding → Type 0
BindsTo table acl_type b =
    IsEthernet b.interface
    × (b.set_name ≡ table)
    × (b.set_type ≡ codes "openconfig-acl:" ++ acl_type)

-- Bindings at one port at least, each as it has to be.
abbrev pub AllBind : Arguments → List Binding → Type 0
AllBind a bs = All (BindsTo a.table_name a.acl_type) bs × (1 ≤ length bs)

bindings-All :
    (a : Arguments) (names : List Text)
    → All IsEthernet names
    → All (BindsTo a.table_name a.acl_type) (map (binding_of a) names)
unfolding binding_of
bindings-All a [] hs = tt
bindings-All a (n ∷ ns) hs = ((hs.0, refl, refl), bindings-All a ns hs.1)

bindings-AllBind :
    (a : Arguments) (names : List Text)
    → All IsEthernet names × (1 ≤ length names)
    → AllBind a (map (binding_of a) names)
bindings-AllBind a [] hs = (tt, hs.1)
bindings-AllBind a (n ∷ ns) hs = (bindings-All a (n ∷ ns) hs.0, omega arith)

ports_of-All :
    (given : List Text) (d : Dial) (names : Rpc (List Text)) (c : GnmiClient)
    → given ≡ []
    → All IsEthernet (ports_of given d names c).1 × (1 ≤ length (ports_of given d names c).1)
unfolding ports_of get_available_interfaces read
ports_of-All [] d names c unnamed = or_first-All _ (interfaces-All names (ensure_connected d c))
ports_of-All (n ∷ ns) d names c unnamed = cc

written-config :
    (w : Write) (o : Option Text) (t : Text) (config cfg : AclConfig) (p : GnmiClient × Bool)
    → (written w o t config p).1 ≡ some cfg
    → config ≡ cfg
written-config w o t config cfg (c, false) h = cc
written-config (refused m) o t config cfg (c, true) h = cc
written-config accepted o t config cfg (c, true) h = cc

-- With no interfaces named, a rule that is written is bound, to its own table, at one port at least
-- and at Ethernet ports only, whatever the switch answers about its interfaces.
pub create_advanced_acl_rule-BindsTo :
    (for_ports for_write : Dial) (names : Rpc (List Text)) (w : Write) (a : Arguments)
    (c : GnmiClient) (config : AclConfig)
    → a.interfaces ≡ []
    → (create_advanced_acl_rule for_ports for_write names w a c).1 ≡ some config
    → AllBind a config.bindings
unfolding create_advanced_acl_rule config_of
create_advanced_acl_rule-BindsTo d e names w a c config unnamed h =
    subst (λ k. AllBind a k.bindings) (written-config w a.ip_protocol a.table_name _ config _ h)
      (bindings-AllBind a _ (ports_of-All a.interfaces d names c unnamed))

unfoldable pub has_returned : Ended → Bool
has_returned returned = true
has_returned not_connected = false
has_returned (raised m) = false

-- The newest entry of the log reports a rule as created.
unfoldable pub reports_created : List LogEvent → Bool
reports_created (create_success t ∷ log) = true
reports_created log = false

written-agrees :
    (w : Write) (o : Option Text) (t : Text) (config : AclConfig) (p : GnmiClient × Bool)
    → let r = written w o t config p in
      (has_returned r.2 ≡ is_some r.1 && is_some o) × (reports_created r.0.log ≡ has_returned r.2)
unfolding has_returned reports_created
written-agrees w o t config (c, false) = (refl, refl)
written-agrees (refused m) o t config (c, true) = (refl, refl)
written-agrees accepted none t config (c, true) = (refl, refl)
written-agrees accepted (some p) t config (c, true) = (refl, refl)

-- With a protocol named, the caller, the tamper log and the switch agree: the call returns, and the
-- last entry of the log says that the rule is created, exactly when the switch took the rule. With
-- none, the call never returns, nor does the last entry of the log report a success.
pub create_advanced_acl_rule-agrees :
    (for_ports for_write : Dial) (names : Rpc (List Text)) (w : Write) (a : Arguments)
    (c : GnmiClient)
    → let r = create_advanced_acl_rule for_ports for_write names w a c in
      (has_returned r.2 ≡ is_some r.1 && is_some a.ip_protocol)
      × (reports_created r.0.log ≡ has_returned r.2)
unfolding create_advanced_acl_rule
create_advanced_acl_rule-agrees d e names w a c = written-agrees w a.ip_protocol a.table_name _ _

config_of-priority :
    (a : Arguments) (p q : ℤ) (names : List Text)
    → ltb_ℤ (pos 55536) p ≡ false
    → ltb_ℤ (pos 55536) q ≡ false
    → config_of (record a { priority = p }) names ≡ config_of (record a { priority = q }) names
unfolding config_of entry_of sequence_of
config_of-priority a p q names hp hq = rw (hp, hq) refl

-- Priorities of at most 55536 do not differ: the calls write the same, log the same and end alike.
pub create_advanced_acl_rule-priority :
    (for_ports for_write : Dial) (names : Rpc (List Text)) (w : Write) (a : Arguments)
    (c : GnmiClient) (p q : ℤ)
    → ltb_ℤ (pos 55536) p ≡ false
    → ltb_ℤ (pos 55536) q ≡ false
    → create_advanced_acl_rule for_ports for_write names w (record a { priority = p }) c
      ≡ create_advanced_acl_rule for_ports for_write names w (record a { priority = q }) c
unfolding create_advanced_acl_rule
create_advanced_acl_rule-priority d e names w a c p q hp hq =
    let r = ports_of a.interfaces d names c in
    ap (λ config. written w a.ip_protocol a.table_name config (ensure_connected e r.0))
      (config_of-priority a p q r.1 hp hq)
