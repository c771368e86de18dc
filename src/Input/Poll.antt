-- ===== src/Input/Poll.antt =====
-- `cart_input_poll` and `build_frame` of cart/src/input_evdev.c.
pub mod Axes
pub mod Desync
use Prim.Native.Nat.{bit_or}
use vita_linux_next.Prelude.{
  ℕ, zero, suc, ◌+◌, ◌-◌, ◌*◌, ◌/◌, ◌%◌, ◌^◌, Bool, true, false, not, ◌&&◌, ◌||◌, List, [], ◌∷◌,
  ◌++◌, Option, none, some, ltb, leb, ◌==◌, if◌then◌else◌, ◌>>=◌,
}
use vita_linux_next.Prelude.Int.{ℤ, pos, leb_ℤ}
use vita_linux_next.Prelude.Loops.{for_from}
use vita_linux_next.Input.Actions.{Action, quiet}
use vita_linux_next.Input.Normalize.{AxisRange, axis_invalid, normalize}
use vita_linux_next.Input.Defs.{
  max_sources, axis_count, u32_mod, Source, Input, Device, Event, is_absent, is_desync,
}
use vita_linux_next.Input.Pump.{Read, pump_source}

-- `struct cart_input_frame`.
pub record Frame : Type 0 where
  pub axis : ℕ → ℤ
  pub axis_present : ℕ → Bool
  pub axis_owner : ℕ → ℕ
  pub held_keys : ℕ
  pub connected_mask : ℕ
  pub generation_total : ℕ

abbrev pub empty_frame : Frame
empty_frame = record {
  axis = λ _. pos 0;
  axis_present = λ _. false;
  axis_owner = λ _. max_sources;
  held_keys = 0;
  connected_mask = 0;
  generation_total = 0;
}

unfoldable pub axis_value : Source → ℕ → ℤ
axis_value s slot = normalize (s.axis slot) (s.last_raw slot)

abbrev pub is_invalid : ℤ → Bool
is_invalid v = leb_ℤ v axis_invalid && leb_ℤ axis_invalid v

-- Does a source have a value for the slot?
unfoldable pub offers : Source → ℕ → Bool
offers s slot = ltb slot axis_count && s.axis_valid slot && not (is_invalid (axis_value s slot))

-- One source is merged in. The first writer of an axis keeps it.
unfoldable pub add_source : Input → ℕ → Frame → Frame
add_source input i frame =
    let s = input.source i in
    let takes = λ (slot : ℕ). offers s slot && not (frame.axis_present slot) in
    if is_absent s.state then frame else record frame {
      axis = λ slot. if takes slot then axis_value s slot else frame.axis slot;
      axis_present = λ slot. if takes slot then true else frame.axis_present slot;
      axis_owner = λ slot. if takes slot then i else frame.axis_owner slot;
      held_keys = bit_or frame.held_keys s.held_keys;
      connected_mask = bit_or frame.connected_mask (2 ^ i);
      generation_total = (frame.generation_total + s.generation) % u32_mod;
    }

unfoldable pub build_frame : Input → Frame
build_frame input = for_from max_sources 0 (add_source input) empty_frame

-- The oldest pending action, or the quiet one.
unfoldable pub take_action : Input → Action × Input
take_action input = elim input.pending [
  | [] ↦ (quiet, input)
  | action ∷ rest ↦ (action, record input { pending = rest })
]

abbrev is_closed : Source → Bool
is_closed s = elim s.fd [ none ↦ true | some _ ↦ false ]

module _ (dev : Device) (event_size : ℕ) (decode : List ℕ → Event) where
  -- A source that is closed or out of sync is passed over.
  unfoldable pub poll_source : ℕ → List Read → Input → Option Input
  poll_source i reads input =
      if is_closed (input.source i) || is_desync (input.source i).state
      then some input
      else pump_source dev event_size decode i reads input

  -- `left` sources from `i` on, with the reads of each.
  unfoldable pub poll_from : ℕ → ℕ → (ℕ → List Read) → Input → Option Input
  poll_from zero i reads input = some input
  poll_from (suc left) i reads input = do
    input' ← poll_source i (reads i) input
    poll_from left (i + 1) reads input'

  -- The action, the frame and the new state; `none` means that a source is still being read.
  unfoldable pub poll : (ℕ → List Read) → Input → Option (Action × Frame × Input)
  poll reads input = do
    input' ← poll_from max_sources 0 reads input
    let (action, after) = take_action input'
    some (action, build_frame after, after)
