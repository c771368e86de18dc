-- ===== src/Input/Poll/Axes.antt =====
-- Which source an axis of the merged frame comes from.
use vita_linux_next.Prelude.{
  ℕ, ◌≡◌, refl, ◌∙◌, ap, Bool, true, false, not, ◌&&◌, Option, none, some, arith, ltb,
  if◌then◌else◌,
}
use vita_linux_next.Prelude.Int.{ℤ, pos, negsuc, leb_ℤ}
use vita_linux_next.Input.Normalize.{normalize}
use vita_linux_next.Prelude.Loops.{for_from}
use vita_linux_next.Input.Defs.{Source, SourceState, absent, connected, desync, Input, is_absent}
use vita_linux_next.Input.Poll.{Frame, empty_frame, axis_value, offers, add_source, build_frame}

-- The states of a source whose axes count.
abbrev pub is_there : SourceState → Bool
is_there connected = true
is_there desync = true
is_there absent = false

-- What a source says of one of the eight slots.
abbrev pub response_of : Source → ℕ → ℤ
response_of s slot = normalize (s.axis slot) (s.last_raw slot)

-- A source that is there, whose device has the axis, and whose value is not the one for invalid
-- values, -2147483648.
unfoldable pub supplies : Input → ℕ → ℕ → Bool
supplies input slot i =
    let s = input.source i in
    is_there s.state
    && (ltb slot 8
        && s.axis_valid slot
        && not (
            leb_ℤ (response_of s slot) (negsuc 2_147_483_647)
            && leb_ℤ (negsuc 2_147_483_647) (response_of s slot)))

there_iff : (s : SourceState) → is_there s ≡ not (is_absent s)
there_iff absent = refl
there_iff connected = refl
there_iff desync = refl

supplies-offers :
    (input : Input) (slot i : ℕ)
    → supplies input slot i
      ≡ (not (is_absent (input.source i).state) && offers (input.source i) slot)
unfolding supplies offers axis_value
supplies-offers input slot i =
    ap (λ b. b && offers (input.source i) slot) (there_iff (input.source i).state)

-- The first of the sources that supplies the slot.
abbrev pub owner_of : Input → ℕ → Option ℕ
owner_of input slot =
    if supplies input slot 0
    then some 0
    else if supplies input slot 1
    then some 1
    else if supplies input slot 2
    then some 2
    else if supplies input slot 3
    then some 3
    else none

-- What the frame says of a slot without and with an owner.
abbrev pub Owned : Input → Frame → ℕ → Option ℕ → Type 0
Owned input frame slot none =
    (frame.axis_present slot ≡ false) × (frame.axis_owner slot ≡ 4) × (frame.axis slot ≡ pos 0)
Owned input frame slot (some i) =
    (frame.axis_present slot ≡ true)
    × (frame.axis_owner slot ≡ i)
    × (frame.axis slot ≡ response_of (input.source i) slot)

-- One slot of a frame.
abbrev Slot : Type 0
Slot = Bool × ℕ × ℤ

slot_of : Frame → ℕ → Slot
slot_of f slot = (f.axis_present slot, f.axis_owner slot, f.axis slot)

add_slot : Input → ℕ → ℕ → Slot → Slot
add_slot input slot i (present, owner, value) =
    if supplies input slot i && not present
    then (true, i, response_of (input.source i) slot)
    else (present, owner, value)

slot_of-add :
    (input : Input) (slot i : ℕ) (f : Frame)
    → slot_of (add_source input i f) slot ≡ add_slot input slot i (slot_of f slot)
unfolding slot_of add_slot add_source axis_value
slot_of-add input slot i f = rw (supplies-offers input slot i) (ground arith)

slots : (input : Input) (slot : ℕ) → Slot
unfolding add_slot
slots input slot =
    add_slot input slot 3
      (add_slot input slot 2 (add_slot input slot 1 (add_slot input slot 0 (false, 4, pos 0))))

slot_of-build : (input : Input) (slot : ℕ) → slot_of (build_frame input) slot ≡ slots input slot
unfolding build_frame for_from slots
slot_of-build input slot =
    slot_of-add input slot 3 _
    ∙ ap (add_slot input slot 3) (
        slot_of-add input slot 2 _
        ∙ ap (add_slot input slot 2) (
            slot_of-add input slot 1 _
            ∙ ap (add_slot input slot 1)
                (slot_of-add input slot 0 _ ∙ ap (add_slot input slot 0) start)))
  where
    start : slot_of empty_frame slot ≡ (false, 4, pos 0)
    start = unfold slot_of in refl

-- An axis of the merged frame comes from the first source, in slot order, that is connected or out
-- of sync, has the axis marked as valid and gives it a normalized value other than -2147483648, and that is
-- the value of the frame; if there is no such source, or the slot is not below 8, the axis is absent,
-- at 0, and its owner is 4.
pub build_frame-Owned :
    (input : Input) (slot : ℕ) → Owned input (build_frame input) slot (owner_of input slot)
unfolding slot_of slots add_slot
build_frame-Owned input slot = ground (arith, slot_of-build input slot)
