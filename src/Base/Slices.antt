-- ===== src/Base/Slices.antt =====
-- Python's slices of lists, `xs[:n]`, `xs[n:]` and the last `n` elements.
use Prim.Native.Nat.{ℕ, zero, suc, ◌+◌, ◌-◌, ◌≤◌}
use mathlib.Core.Path.{◌≡◌, refl, sym, ap, ◌∙◌}
use mathlib.Core.List.{List, [], ◌∷◌, ◌++◌, map}
use native.Mathlib.Omega.{arith}
use s_com_control_plane.Base.Lists.{length, length-append}

module _ {A : Type 0} where
  -- `xs[:n]`
  abbrev pub take : ℕ → List A → List A
  take zero xs = []
  take (suc n) [] = []
  take (suc n) (x ∷ xs) = x ∷ take n xs

  abbrev pub drop : ℕ → List A → List A
  drop zero xs = xs
  drop (suc n) [] = []
  drop (suc n) (x ∷ xs) = drop n xs

  -- The last `n` elements.
  abbrev pub last : ℕ → List A → List A
  last n xs = drop (length xs - n) xs

  pub length-drop : (k : ℕ) (xs : List A) → length (drop k xs) ≡ length xs - k
  length-drop zero xs = omega arith
  length-drop (suc k) [] = omega arith
  length-drop (suc k) (x ∷ xs) = omega (arith, length-drop k xs)

  pub drop-append : (k : ℕ) (xs ys : List A) → k ≤ length xs → drop k xs ++ ys ≡ drop k (xs ++ ys)
  drop-append zero xs ys h = refl
  drop-append (suc k) [] ys h = absurd (omega arith)
  drop-append (suc k) (x ∷ xs) ys h = drop-append k xs ys (omega arith)

  pub drop_at : {j k : ℕ} (xs : List A) → j ≡ k → drop j xs ≡ drop k xs
  drop_at xs e = ap (λ n. drop n xs) e

  pub drop_nil : (k : ℕ) → drop k [] ≡ []
  drop_nil zero = refl
  drop_nil (suc k) = refl

  pub drop-drop : (j k : ℕ) (xs : List A) → drop j (drop k xs) ≡ drop (j + k) xs
  drop-drop j zero xs = drop_at {j = j} {k = j + zero} xs (omega arith)
  drop-drop j (suc k) [] = drop_nil j ∙ sym (drop_nil (j + suc k))
  drop-drop j (suc k) (x ∷ xs) =
      drop-drop j k xs ∙ drop_at {j = suc (j + k)} {k = j + suc k} (x ∷ xs) (omega arith)

  pub last-last : (m : ℕ) (xs ys : List A) → last m (last m xs ++ ys) ≡ last m (xs ++ ys)
  last-last m xs ys =
      ap (drop (length (last m xs ++ ys) - m)) (drop-append (length xs - m) xs ys (omega arith))
      ∙ (drop-drop (length (last m xs ++ ys) - m) (length xs - m) (xs ++ ys)
          ∙ drop_at (xs ++ ys) (
              omega (
                arith,
                length-append (last m xs) ys,
                length-append xs ys,
                length-drop (length xs - m) xs,
              )))

  pub length-last : (m : ℕ) (xs : List A) → length (last m xs) ≤ m
  length-last m xs = omega (arith, length-drop (length xs - m) xs)

  pub last_all : (m : ℕ) (xs : List A) → length xs ≤ m → last m xs ≡ xs
  last_all m xs h = drop_at {j = length xs - m} {k = zero} xs (omega arith)

  pub take-append : (n : ℕ) (xs ys : List A) → n ≤ length xs → take n (xs ++ ys) ≡ take n xs
  take-append zero xs ys h = refl
  take-append (suc n) [] ys h = absurd (omega arith)
  take-append (suc n) (x ∷ xs) ys h = ap (◌∷◌ x) (take-append n xs ys (omega arith))

module _ {A B : Type 0} (f : A → B) where
  pub map-append : (xs ys : List A) → map f (xs ++ ys) ≡ map f xs ++ map f ys
  map-append [] ys = refl
  map-append (x ∷ xs) ys = ap (◌∷◌ (f x)) (map-append xs ys)

  pub length-map : (xs : List A) → length (map f xs) ≡ length xs
  length-map [] = refl
  length-map (x ∷ xs) = ap suc (length-map xs)

  drop-map : (n : ℕ) (xs : List A) → drop n (map f xs) ≡ map f (drop n xs)
  drop-map zero xs = refl
  drop-map (suc n) [] = refl
  drop-map (suc n) (x ∷ xs) = drop-map n xs

  pub last-map : (m : ℕ) (xs : List A) → last m (map f xs) ≡ map f (last m xs)
  last-map m xs = drop_at (map f xs) (omega (arith, length-map xs)) ∙ drop-map (length xs - m) xs
