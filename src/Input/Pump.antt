-- ===== src/Input/Pump.antt =====
-- `pump_source` of cart/src/input_evdev.c: bytes are read into a buffer of the source, and every
-- complete event in it is consumed before the next read. How `struct input_event` lies in memory is
-- the kernel's, so its size and its decoding are parameters.
pub mod Chunks
use native.Mathlib.Nat.{le_refl}
use mathlib.Core.List.{append-nil, append_assoc}
use vita_linux_next.Prelude.{
  ℕ, zero, suc, ◌+◌, ◌-◌, ◌≤◌, ◌<◌, ◌≡◌, refl, ◌∙◌, sym, ap, inl, inr, Bool, true, false, List, [],
  ◌∷◌, ◌++◌, Option, none, some, arith, tests, ltb, leb, if◌then◌else◌, length, take, drop,
  length-append, length-drop, Bool-cases,
}
use vita_linux_next.Input.Defs.{Input, Device, Event, at, handle_disconnect, consume_event}

-- What one call of `ops->read` gives: bytes, the end of the file, EINTR, EAGAIN or another error.
pub data Read : Type 0 where
  bytes : List ℕ → Read
  ended interrupted again failed : Read

abbrev pub keep_partial : ℕ → List ℕ × Input → Input
keep_partial i (buffer, input) = record input { partial = at input.partial i buffer }

module _ (dev : Device) (event_size : ℕ) (decode : List ℕ → Event) (i : ℕ) where
  -- The inner loop; each round takes an event off the buffer, so its length is fuel enough.
  unfoldable pub drain : ℕ → List ℕ → Input → List ℕ × Input
  drain zero buffer input = (buffer, input)
  drain (suc fuel) buffer input =
      let rest =
        drain fuel (drop event_size buffer)
          (consume_event dev input i (decode (take event_size buffer))) in
      if leb event_size (length buffer) then rest else (buffer, input)

  -- The outer loop, over what the reads give in turn; `none` means that it is still reading. A
  -- disconnect clears the buffer.
  unfoldable pub pump : List Read → List ℕ → Input → Option Input
  pump [] buffer input = none
  pump (bytes b ∷ reads) buffer input =
      let (left, input') = drain (length buffer) buffer input in pump reads (left ++ b) input'
  pump (interrupted ∷ reads) buffer input =
      let (left, input') = drain (length buffer) buffer input in pump reads left input'
  pump (again ∷ reads) buffer input = some (keep_partial i (drain (length buffer) buffer input))
  pump (ended ∷ reads) buffer input =
      some (handle_disconnect ((drain (length buffer) buffer input).1) i)
  pump (failed ∷ reads) buffer input =
      some (handle_disconnect ((drain (length buffer) buffer input).1) i)

  unfoldable pub pump_source : List Read → Input → Option Input
  pump_source reads input = pump reads (input.partial i) input
