-- ===== src/Pipeline/Window/Laws.antt =====
-- The buffer of a window over a run of flows.
use s_com_control_plane.Base.{
  Bool-cases, List, Option, Text, [], ap, append_assoc, append_nil, arith, false, inl, inr, leb,
  length, length-append, none, some, suc, sym, zero, ℕ, ◌++◌, ◌-◌, ◌<◌, ◌∙◌, ◌∷◌, ◌≡◌, ◌≤◌,
}
use s_com_control_plane.Base.Slices.{last, last-last, last_all, length-last, drop_at}
use s_com_control_plane.Pipeline.Window.{FlowWindow, push}

module _ {A : Type 0} where
  -- The flows of a window, in the order of their arrival.
  unfoldable pub push_all : List A → FlowWindow A → Option (FlowWindow A)
  unfolding push
  push_all [] w = some w
  push_all (f ∷ fs) w = elim (push f w) [ none ↦ none | some w' ↦ push_all fs w' ]

  abbrev window : ℕ → Text → List A → FlowWindow A
  window m t b = record { max_buffer = m; buffer = b; window_start = t }

  push-last :
      (f : A) (m : ℕ) (t : Text) (b : List A)
      → 0 < m
      → length b ≤ m
      → push f (window m t b) ≡ some (window m t (last m (b ++ (f ∷ []))))
  unfolding push
  push-last f m t [] room h =
      let not_full : leb m 0 ≡ false = ground arith in
      rw not_full (
        ap (λ z. some (window m t z)) (sym (drop_at {j = 1 - m} {k = zero} (f ∷ []) (omega arith))))
  push-last f m t (x ∷ b) room h = elim (Bool-cases (leb m (suc (length b)))) [
    | inl full ↦
        let over : suc (length (b ++ (f ∷ []))) - m ≡ suc zero =
          ground (arith, length-append b (f ∷ [])) in
        rw full (ap (λ z. some (window m t z)) (sym (drop_at (x ∷ (b ++ (f ∷ []))) over)))
    | inr free ↦
        let over : suc (length (b ++ (f ∷ []))) - m ≡ zero =
          ground (arith, length-append b (f ∷ [])) in
        rw free (ap (λ z. some (window m t z)) (sym (drop_at (x ∷ (b ++ (f ∷ []))) over)))
  ]

  -- A buffer with room for at least one flow, and not over-full, holds after any flows the last of
  -- all that it was given, as many as it has room for, in the order of their arrival; no push
  -- fails.
  pub push_all-last :
      (fs : List A) (m : ℕ) (t : Text) (b : List A)
      → 0 < m
      → length b ≤ m
      → push_all fs (window m t b) ≡ some (window m t (last m (b ++ fs)))
  unfolding push_all
  push_all-last [] m t b room h =
      ap (λ z. some (window m t z)) (sym (ap (last m) (append_nil b) ∙ last_all m b h))
  push_all-last (f ∷ fs) m t b room h =
      rw (push_all, push-last f m t b room h)
        (push_all-last fs m t (last m (b ++ (f ∷ []))) room (length-last m (b ++ (f ∷ [])))
          ∙ ap (λ z. some (window m t z))
              (last-last m (b ++ (f ∷ [])) fs ∙ ap (last m) (append_assoc b (f ∷ []) fs)))
