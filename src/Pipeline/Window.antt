-- ===== src/Pipeline/Window.antt =====
-- intelligence-layer/src/pipeline/flow_window.py: the bounded buffer of the flows of a window. The
-- operations run under the buffer's lock. The task that sleeps between two calls of `_fire` is not
-- modelled; the time stamps are arguments.
use s_com_control_plane.Base.{
  List, Option, Text, [], if◌then◌else◌, leb, length, none, some, ℕ, ◌++◌, ◌∷◌,
}
pub mod Laws

pub record FlowWindow (A : Type 0) : Type 0 where
  pub max_buffer : ℕ
  pub buffer : List A
  pub window_start : Text

module _ {A : Type 0} where
  unfoldable pub new : ℕ → FlowWindow A
  new max_buffer = record { max_buffer = max_buffer; buffer = []; window_start = [] }

  -- `start`, for a window that is not running.
  unfoldable pub start : Text → FlowWindow A → FlowWindow A
  start now w = record w { window_start = now }

  -- `pop(0)`; of an empty list, an exception.
  abbrev pub pop_first : List A → Option (List A)
  pop_first [] = none
  pop_first (x ∷ xs) = some xs

  abbrev pub pushed_onto : Option (List A) → A → FlowWindow A → Option (FlowWindow A)
  pushed_onto none f w = none
  pushed_onto (some b) f w = some (record w { buffer = b ++ (f ∷ []) })

  -- `none` is the exception of `pop`, for a buffer of size 0.
  unfoldable pub push : A → FlowWindow A → Option (FlowWindow A)
  push f w =
      if leb w.max_buffer (length w.buffer)
      then pushed_onto (pop_first w.buffer) f w
      else some (record w { buffer = w.buffer ++ (f ∷ []) })

  unfoldable pub buffer_size : FlowWindow A → ℕ
  buffer_size w = length w.buffer

  -- `_fire`: the window left, and the arguments of the callback if it is called.
  unfoldable pub fire : Text → FlowWindow A → FlowWindow A × Option (List A × Text × Text)
  fire now w = (
    record w { buffer = []; window_start = now },
    elim w.buffer [ [] ↦ none | f ∷ fs ↦ some (f ∷ fs, w.window_start, now) ],
  )
