-- ===== src/Input/Tests.antt =====
-- The laws of the input stack at concrete devices, events and reads.
use vita_linux_next.Prelude.{
  ℕ, ◌≡◌, ◌≢◌, refl, true, List, [], ◌∷◌, ◌++◌, none, some, arith, if◌then◌else◌, ◌==◌,
}
use vita_linux_next.Prelude.Int.{pos, negsuc, ◌≤ℤ◌, ◌+ℤ◌}
use vita_linux_next.Input.Normalize.{AxisRange, axis_invalid, normalize}
use vita_linux_next.Input.Normalize.Offset.{IsSpan}
use vita_linux_next.Input.Normalize.Response.{normalize_range, normalize_two_values}
use vita_linux_next.Input.Actions.{map_key, key_emits_action}
use vita_linux_next.Input.Defs.{
  Source, Input, Event, Device, absent, connected, desync, consume_event, process_key_event,
  enqueue_action,
}
use vita_linux_next.Input.Pump.{
  Read, bytes, interrupted, again, keep_partial, pump_source, pump, drain,
}
use vita_linux_next.Input.Pump.Chunks.{at_once, pump_chunks}
use vita_linux_next.Input.Poll.{build_frame, poll, poll_from, poll_source}
use vita_linux_next.Input.Poll.Axes.{Owned, owner_of, build_frame-Owned}
use vita_linux_next.Input.Poll.Desync.{polls, desync_stuck}

-- The stick of the console.
abbrev stick : AxisRange
stick = record { min = pos 0; max = pos 255; deadzone_pct = pos 10 }

stick-IsSpan : IsSpan stick 255 10
unfolding ◌+ℤ◌
stick-IsSpan = record {
  max-eq = refl;
  pct-eq = refl;
  long = omega arith;
  fits = omega arith;
  narrow = omega arith;
}

abbrev switch : AxisRange
switch = record { min = pos 0; max = pos 1; deadzone_pct = pos 10 }

switch-IsSpan : IsSpan switch 1 10
unfolding ◌+ℤ◌
switch-IsSpan = record {
  max-eq = refl;
  pct-eq = refl;
  long = omega arith;
  fits = omega arith;
  narrow = omega arith;
}

normalize_range_example :
    (negsuc 99 ≤ℤ normalize stick (pos 100))
    × (normalize stick (pos 100) ≤ℤ pos 100)
    × (normalize stick (pos 100) ≢ axis_invalid)
    × (normalize stick (pos 100) ≤ℤ normalize stick (pos 200))
normalize_range_example =
    normalize_range stick 255 10 stick-IsSpan (pos 100) (pos 200) (omega arith)

normalize_two_values_example : normalize switch (negsuc 4) ≡ pos 0
normalize_two_values_example = normalize_two_values switch 10 (negsuc 4) switch-IsSpan (omega arith)

abbrev some_code : ℕ
some_code = 308

abbrev pad : Source
pad = record {
  fd = some 5;
  rank = 0;
  state = connected;
  generation = 1;
  node = [];
  name = [];
  held_keys = 0;
  axis = λ _. stick;
  axis_valid = λ _. true;
  last_raw = λ _. pos 128;
}

abbrev lost : Source
lost = record pad { fd = some 6; state = desync; held_keys = 2 }

abbrev two_pads : Input
two_pads = record {
  source = λ i.
      if i == 0 then pad else if i == 1 then lost else record pad { fd = none; state = absent };
  pending = [];
  partial = λ _. [];
  closed = [];
}

-- Events of two bytes in this example: the code of a key that is pressed, and a filler.
abbrev press : List ℕ → Event
press [] = record { kind = 0; code = 0; value = pos 0 }
press (code ∷ _) = record { kind = 1; code = code; value = pos 1 }

abbrev silent : Device
silent = record {
  name = λ _. none;
  key_state = λ _. none;
  bits = λ _ _. none;
  abs_info = λ _ _. none;
}

abbrev cut_reads : List Read
cut_reads = bytes (16 ∷ []) ∷ interrupted ∷ bytes (0 ∷ 1 ∷ 0 ∷ 9 ∷ []) ∷ []

pump_chunks_example :
    pump_source silent 2 press 0 (cut_reads ++ (again ∷ [])) two_pads
    ≡ some
        (keep_partial 0 (at_once silent 2 press 0 (omega arith) (16 ∷ 0 ∷ 1 ∷ 0 ∷ 9 ∷ []) two_pads))
pump_chunks_example = pump_chunks silent 2 press 0 (omega arith) cut_reads [] two_pads tt

build_frame-Owned_example : Owned two_pads (build_frame two_pads) 3 (owner_of two_pads 3)
build_frame-Owned_example = build_frame-Owned two_pads 3

-- One poll: the first source presses a key; nothing is read of the second.
abbrev one_poll : List (ℕ → List Read)
one_poll = (λ i. if i == 0 then bytes (16 ∷ 0 ∷ []) ∷ again ∷ [] else []) ∷ []

abbrev after_poll : Input
after_poll = elim (polls silent 2 press one_poll two_pads) [ none ↦ two_pads | some after ↦ after ]

polls_example : polls silent 2 press one_poll two_pads ≡ some after_poll
unfolding polls poll poll_from poll_source pump_source pump drain consume_event process_key_event
    key_emits_action enqueue_action map_key
polls_example = refl

desync_stuck_example : after_poll.source 1 ≡ two_pads.source 1
desync_stuck_example = desync_stuck silent 2 press 1 one_poll two_pads after_poll refl polls_example
