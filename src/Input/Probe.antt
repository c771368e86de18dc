-- ===== src/Input/Probe.antt =====
-- Probing of an open device of cart/src/input_evdev.c: what it is, and how its axes are calibrated.
use vita_linux_next.Prelude.{
  ◌<◌, ◌≡◌, ℕ, ◌+◌, ◌-◌, ◌%◌, ◌^◌, Bool, true, false, ◌&&◌, ◌||◌, List, [], ◌∷◌, Option, none, some,
  arith, ltb, leb, ◌==◌, if◌then◌else◌, length, take, get_or,
}
use vita_linux_next.Prelude.Int.{ℤ, pos, negsuc, ltb_ℤ, leb_ℤ, ◌-ℤ◌, ◌*ℤ◌, ◌≤ℤ◌}
use vita_linux_next.Input.Normalize.{AxisRange, div_ℤ}
use vita_linux_next.Input.Defs.{Source, AbsInfo, Device, axis_codes, axis_count, bit_test}

abbrev pub buttons : List ℕ
buttons = 304 ∷ 305 ∷ 306 ∷ 307 ∷ 308 ∷ 310 ∷ 311 ∷ 314 ∷ 315 ∷ 316 ∷ []

abbrev pub sticks : List ℕ
sticks = 0 ∷ 1 ∷ 3 ∷ 4 ∷ []

-- How many of the bits are set.
unfoldable pub hits : List ℕ → List ℕ → ℕ
hits buffer [] = 0
hits buffer (b ∷ bs) = bit_test buffer b + hits buffer bs

unfoldable pub probe_is_gamepad : Device → ℕ → Bool
probe_is_gamepad dev fd = elim (dev.bits fd 1) [
  | none ↦ false
  | some key_bits ↦ elim (dev.bits fd 3) [
    | none ↦ false
    | some abs_bits ↦ leb 4 (hits key_bits buttons) && leb 2 (hits abs_bits sticks)
  ]
]

-- KEY_ESC or KEY_Q.
unfoldable pub probe_is_action_keyboard : Device → ℕ → Bool
probe_is_action_keyboard dev fd = elim (dev.bits fd 1) [
  | none ↦ false
  | some key_bits ↦ bit_test key_bits 1 == 1 || bit_test key_bits 16 == 1
]

-- The wrap-around of an `int32_t`, which the hardware gives where C leaves an overflow undefined.
abbrev to_u32 : ℤ → ℕ
to_u32 (pos n) = n % 2 ^ 32
to_u32 (negsuc n) = 2 ^ 32 - 1 - n % 2 ^ 32

unfoldable pub wrap_int32 : ℤ → ℤ
wrap_int32 v = let m = to_u32 v in if ltb m (2 ^ 31) then pos m else pos m -ℤ pos (2 ^ 32)

abbrev pub default_deadzone : ℤ
default_deadzone = pos 15

-- The dead zone that the `flat` of the device suggests, if it is sensible.
unfoldable pub deadzone_of : AbsInfo → ℤ
deadzone_of info =
    let span = wrap_int32 (info.maximum -ℤ info.minimum) in
    let suggested = div_ℤ (wrap_int32 (info.flat *ℤ pos 200)) span in
    if ltb_ℤ (pos 0) span
      && ltb_ℤ (pos 0) info.flat
      && ltb_ℤ default_deadzone suggested
      && leb_ℤ suggested (pos 50)
    then suggested
    else default_deadzone

unfoldable pub range_of : AbsInfo → AxisRange
range_of info = record { min = info.minimum; max = info.maximum; deadzone_pct = deadzone_of info }

-- What the device tells of a slot that it has.
unfoldable pub probed_axis : Device → ℕ → List ℕ → ℕ → Option AbsInfo
probed_axis dev fd abs_bits slot =
    let code = get_or axis_codes slot 0 in
    if ltb slot axis_count && bit_test abs_bits code == 1 then dev.abs_info fd code else none

-- Axes that cannot be read are marked invalid; their range stays as it was.
unfoldable pub snapshot_axes : Device → ℕ → Source → Source
snapshot_axes dev fd s = elim (dev.bits fd 3) [
  | none ↦ record s { held_keys = 0; last_raw = λ _. pos 0; axis_valid = λ _. false }
  | some abs_bits ↦ record s {
    held_keys = 0;
    axis = λ slot. elim (probed_axis dev fd abs_bits slot) [
      | none ↦ s.axis slot
      | some info ↦ range_of info
    ];
    axis_valid = λ slot. elim (probed_axis dev fd abs_bits slot) [ none ↦ false | some _ ↦ true ];
    last_raw =
        λ slot. elim (probed_axis dev fd abs_bits slot) [ none ↦ pos 0 | some info ↦ info.value ];
  }
]

-- The bytes of a C string in a buffer.
unfoldable pub until_nul : List ℕ → List ℕ
until_nul [] = []
until_nul (b ∷ bs) = let rest = until_nul bs in if b == 0 then [] else b ∷ rest

-- 2 for a gamepad, 1 for a keyboard with an exit key, 0 for anything else.
unfoldable pub probed_rank : Device → ℕ → ℕ
probed_rank dev fd =
    if probe_is_gamepad dev fd then 2 else if probe_is_action_keyboard dev fd then 1 else 0

-- The rank and the calibrated source of an open device, or `none` where the code returns 0. The
-- name is cut to 127 bytes.
unfoldable pub classify : Device → ℕ → ℕ → Source → Option (ℕ × Source)
classify dev fd sysfs_rank scratch = elim (dev.name fd) [
  | none ↦ none
  | some name ↦
      if length name == 0 || probed_rank dev fd == 0
      then none
      else some (
        if ltb (probed_rank dev fd) sysfs_rank then sysfs_rank else probed_rank dev fd,
        snapshot_axes dev fd (record scratch { name = take 127 (until_nul name) }),
      )
]

-- The dead zone of a calibrated axis is from 15 to 50 percent, whatever range and `flat` the device
-- reports, also where their product or difference overflows; so `cart_input_axis_normalize` never
-- refuses the axis for its dead zone.
pub deadzone_range : (info : AbsInfo) → (pos 15 ≤ℤ deadzone_of info) × (deadzone_of info ≤ℤ pos 50)
unfolding deadzone_of
deadzone_range info = ground arith

-- A number that an `int32_t` holds is left alone.
pub wrap_int32_small : (n : ℕ) → n < 2 ^ 31 → wrap_int32 (pos n) ≡ pos n
unfolding wrap_int32
wrap_int32_small n h = ground arith
