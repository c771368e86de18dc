-- ===== src/Input/Normalize.antt =====
-- cart/src/input_normalize.c: a raw axis value to a percentage, with a dead zone in the middle.
pub mod Offset
pub mod Response
use native.Mathlib.Nat.{
  zero-div, mul-le-mul_left, mul-div_cancel_left, mul-le-mul_right, div-le_of_le-mul,
  le-div_iff_mul-le, le_trans, div-mul-le_self,
}
use vita_linux_next.Prelude.{
  ℕ, zero, suc, ◌+◌, ◌-◌, ◌*◌, ◌/◌, ◌%◌, ◌^◌, ◌≤◌, ◌<◌, ◌≡◌, ◌⊎◌, refl, ◌∙◌, ap, sym, inl, inr,
  Bool, true, false, arith, ltb, leb, ◌==◌, ◌&&◌, ◌||◌, if◌then◌else◌, Bool-cases, tests,
}
use vita_linux_next.Prelude.Int.{
  ℤ, pos, negsuc, pos_part, neg_part, ◌+ℤ◌, ◌-ℤ◌, ◌*ℤ◌, ◌≤ℤ◌, ltb_ℤ, leb_ℤ, +ℤ_parts, -ℤ_parts,
  eq_of_parts, int_laws,
}

-- `struct cart_input_axis_range`.
pub record AxisRange : Type 0 where
  pub min : ℤ
  pub max : ℤ
  pub deadzone_pct : ℤ

-- `CART_INPUT_AXIS_INVALID`, which is `INT32_MIN`.
abbrev pub axis_invalid : ℤ
axis_invalid = negsuc (2 ^ 31 - 1)

abbrev pub neg_ℕ : ℕ → ℤ
neg_ℕ zero = pos 0
neg_ℕ (suc n) = negsuc n

-- `/` of C on signed numbers: it rounds towards zero.
unfoldable pub div_ℤ : ℤ → ℤ → ℤ
div_ℤ (pos a) (pos b) = pos (a / b)
div_ℤ (pos a) (negsuc b) = neg_ℕ (a / suc b)
div_ℤ (negsuc a) (pos b) = neg_ℕ (suc a / b)
div_ℤ (negsuc a) (negsuc b) = pos (suc a / suc b)

-- The difference `max - min` of two `int32_t` with `min < max`, which the hardware wraps into an
-- `int32_t`. (C leaves an overflow undefined.)
unfoldable pub span_of : AxisRange → ℤ
span_of r = let d = r.max -ℤ r.min in if leb_ℤ (pos (2 ^ 31)) d then d -ℤ pos (2 ^ 32) else d

unfoldable pub half_of : AxisRange → ℤ
half_of r = div_ℤ (span_of r *ℤ r.deadzone_pct) (pos 200)

unfoldable pub low_of : AxisRange → ℤ
low_of r = r.min +ℤ div_ℤ (span_of r) (pos 2) -ℤ half_of r

unfoldable pub high_of : AxisRange → ℤ
high_of r = low_of r +ℤ pos 2 *ℤ half_of r

unfoldable pub clamped : AxisRange → ℤ → ℤ
clamped r raw =
    let above = if ltb_ℤ raw r.min then r.min else raw in if ltb_ℤ r.max above then r.max else above

-- The three bands.
unfoldable pub band : ℤ → ℤ → ℤ → ℤ → ℤ → ℤ
band min max low high v =
    if leb_ℤ low v && leb_ℤ v high
    then pos 0
    else if ltb_ℤ v low
    then div_ℤ ((v -ℤ low) *ℤ pos 100) (low -ℤ min)
    else div_ℤ ((v -ℤ high) *ℤ pos 100) (max -ℤ high)

unfoldable pub invalid : AxisRange → Bool
invalid r = leb_ℤ r.max r.min || ltb_ℤ r.deadzone_pct (pos 0) || ltb_ℤ (pos 50) r.deadzone_pct

unfoldable pub normalize : AxisRange → ℤ → ℤ
normalize r raw =
    if invalid r then axis_invalid else band r.min r.max (low_of r) (high_of r) (clamped r raw)
