-- ===== src/Base/Dict.antt =====
-- Python's `dict` in insertion order, over keys with a decided equality.
use Prim.Native.Nat.{ℕ, suc, ◌+◌, ◌<◌}
use mathlib.Core.Path.{◌≡◌, refl, ap, subst, sym}
use mathlib.Core.Logic.{inl, inr}
use mathlib.Core.Bool.{Bool, true, false}
use mathlib.Core.Option.{Option, none, some}
use mathlib.Core.List.{List, [], ◌∷◌, ◌++◌}
use native.Mathlib.Omega.{arith}
use s_com_control_plane.Base.Tests.{Bool-cases, Eq, contains, eq_of_≟, is_some, ◌≟◌, if◌then◌else◌}
use s_com_control_plane.Base.Lists.{All, keep}

abbrev pub Dict {ℓ κ} : Type ℓ → Type κ → Type (ℓ ⊔ κ)
Dict K V = List (K × V)

module _ {ℓ κ} {K : Type ℓ} {V : Type κ} ⦃e : Eq K⦄ where
  -- `d.get(k)`
  abbrev pub lookup : K → Dict K V → Option V
  lookup k [] = none
  lookup k ((j, v) ∷ d) = if k ≟ j then some v else lookup k d

  -- `d[k] = v`
  abbrev pub insert : K → V → Dict K V → Dict K V
  insert k v [] = (k, v) ∷ []
  insert k v ((j, w) ∷ d) = if k ≟ j then (j, v) ∷ d else (j, w) ∷ insert k v d

  -- `del d[k]`
  abbrev pub erase : K → Dict K V → Dict K V
  erase k [] = []
  erase k ((j, w) ∷ d) = if k ≟ j then erase k d else (j, w) ∷ erase k d

  pub lookup-insert :
      (j k : K) (v : V) (d : Dict K V)
      → lookup j (insert k v d) ≡ (if j ≟ k then some v else lookup j d)
  lookup-insert j k v [] = refl
  lookup-insert j k v ((i, w) ∷ d) = ground (arith, lookup-insert j k v d)

  pub lookup-erase :
      (j k : K) (d : Dict K V) → lookup j (erase k d) ≡ (if j ≟ k then none else lookup j d)
  lookup-erase j k [] = ground arith
  lookup-erase j k ((i, w) ∷ d) = ground (arith, lookup-erase j k d)

-- `d.values()`
abbrev pub values {ℓ κ} : {K : Type ℓ} {V : Type κ} → Dict K V → List V
values [] = []
values ((_, v) ∷ d) = v ∷ values d

-- `list(d)`
abbrev pub keys {ℓ κ} : {K : Type ℓ} {V : Type κ} → Dict K V → List K
keys [] = []
keys ((k, _) ∷ d) = k ∷ keys d

abbrev pub one_if : Bool → ℕ
one_if true = 1
one_if false = 0

module _ {ℓ} {K : Type ℓ} ⦃e : Eq K⦄ where
  -- How often a value stands in a list.
  abbrev pub occurrences : K → List K → ℕ
  occurrences j [] = 0
  occurrences j (k ∷ ks) = if j ≟ k then suc (occurrences j ks) else occurrences j ks

  pub occurrences-append :
      (j : K) (xs ys : List K) → occurrences j (xs ++ ys) ≡ occurrences j xs + occurrences j ys
  occurrences-append j [] ys = omega arith
  occurrences-append j (x ∷ xs) ys = ground (arith, occurrences-append j xs ys)

  pub occurrences-keep :
      (j : K) (p : K → Bool) (xs : List K)
      → occurrences j (keep p xs) ≡ (if p j then occurrences j xs else 0)
  occurrences-keep j p [] = ground arith
  occurrences-keep j p (x ∷ xs) = elim (Bool-cases (j ≟ x)) [
    | inr other ↦ ground (arith, occurrences-keep j p xs)
    | inl same ↦
        let q : p j ≡ p x = ap p (eq_of_≟ j x same) in ground (arith, occurrences-keep j p xs)
  ]

  pub All-occurring {κ} :
      (P : K → Type κ) (ks : List K) → ((k : K) → 0 < occurrences k ks → P k) → All P ks
  All-occurring P [] h = tt
  All-occurring P (k ∷ ks) h = (h k (ground arith), All-occurring P ks (λ j m. h j (ground arith)))

-- What holds of a value, if there is one.
abbrev pub IfSome {κ μ} : {V : Type κ} → (V → Type μ) → Option V → Type μ
IfSome P none = Unit
IfSome P (some v) = P v

module _ {ℓ κ} {K : Type ℓ} {V : Type κ} ⦃e : Eq K⦄ where
  pub contains-keys : (k : K) (d : Dict K V) → contains k (keys d) ≡ is_some (lookup k d)
  contains-keys k [] = refl
  contains-keys k ((j, v) ∷ d) = ground (arith, contains-keys k d)

  occurrences-insert :
      (j k : K) (v : V) (d : Dict K V)
      → occurrences j (keys (insert k v d)) + one_if (is_some (lookup j d))
        ≡ occurrences j (keys d) + one_if (is_some (lookup j (insert k v d)))
  occurrences-insert j k v [] = ground arith
  occurrences-insert j k v ((i, w) ∷ d) =
      ground (arith, occurrences-insert j k v d, lookup-insert j k v d)

  -- A key that is there stands once.
  pub keys_once-insert :
      (j k : K) (v : V) (d : Dict K V)
      → occurrences j (keys d) ≡ one_if (is_some (lookup j d))
      → occurrences j (keys (insert k v d)) ≡ one_if (is_some (lookup j (insert k v d)))
  keys_once-insert j k v d h = omega (arith, occurrences-insert j k v d)

  pub All-insert {μ} :
      (P : K → V → Type μ) (k : K) (v : V) (d : Dict K V)
      → All (λ (r : K × V). P r.0 r.1) d
      → P k v
      → All (λ (r : K × V). P r.0 r.1) (insert k v d)
  All-insert P k v [] h p = (p, tt)
  All-insert P k v ((j, w) ∷ d) h p = elim (Bool-cases (k ≟ j)) [
    | inl same ↦ rw same (subst (λ i. P i v) (eq_of_≟ k j same) p, h.1)
    | inr other ↦ rw other (h.0, All-insert P k v d h.1 p)
  ]

  pub All-lookup {μ} :
      (P : K → V → Type μ) (k : K) (d : Dict K V)
      → All (λ (r : K × V). P r.0 r.1) d
      → IfSome (P k) (lookup k d)
  All-lookup P k [] h = tt
  All-lookup P k ((j, w) ∷ d) h = elim (Bool-cases (k ≟ j)) [
    | inl same ↦ rw same (subst (λ i. P i w) (sym (eq_of_≟ k j same)) h.0)
    | inr other ↦ rw other (All-lookup P k d h.1)
  ]
