-- ===== src/Input/Normalize/Response.antt =====
-- How an axis of cart/src/input_normalize.c responds: its range, its ends and its order.
use native.Mathlib.Nat.{
  mul-div_cancel_left, mul-le-mul_right, div-le_of_le-mul, le-div_iff_mul-le, le_trans,
  div-mul-le_self,
}
use vita_linux_next.Prelude.{ℕ, ◌+◌, ◌-◌, ◌*◌, ◌/◌, ◌≤◌, ◌<◌, ◌≡◌, ◌≢◌, ◌∙◌, ap, sym, arith}
use vita_linux_next.Prelude.Int.{ℤ, pos, negsuc, ◌≤ℤ◌, +ℤ_parts, -ℤ_parts}
use vita_linux_next.Input.Normalize.{AxisRange, axis_invalid, normalize}
use vita_linux_next.Input.Normalize.Offset.{
  IsSpan, half, offset, percent, neg_ℕ_parts, half-le, normalize-percent,
}

-- Facts about the map of the offset.
quotient-le : (d b : ℕ) → d ≤ b → d * 100 / b ≤ 100
quotient-le d b k = div-le_of_le-mul b (mul-le-mul_right 100 k)

quotient_self : (b : ℕ) → 0 < b → b * 100 / b ≡ 100
quotient_self b h = mul-div_cancel_left 100 h

quotient_mono : (d e b : ℕ) → 0 < b → d ≤ e → d * 100 / b ≤ e * 100 / b
quotient_mono d e b p h =
    (le-div_iff_mul-le p).1 (le_trans (div-mul-le_self (d * 100) b) (mul-le-mul_right 100 h))

percent_low : (span half : ℕ) → 2 ≤ span → half ≤ span / 4 → percent span half 0 ≡ negsuc 99
percent_low span half h q = ground (arith, quotient_self (span / 2 - half))

percent_high : (span half : ℕ) → 0 < span → half ≤ span / 4 → percent span half span ≡ pos 100
percent_high span half h q = ground (arith, quotient_self (span - (span / 2 + half)))

percent_range :
    (span half u : ℕ)
    → u ≤ span
    → half ≤ span / 4
    → (negsuc 99 ≤ℤ percent span half u) × (percent span half u ≤ℤ pos 100)
percent_range span half u h q = (
  ground (arith, down, neg_ℕ_parts ((span / 2 - half - u) * 100 / (span / 2 - half))),
  ground (arith, up, neg_ℕ_parts ((span / 2 - half - u) * 100 / (span / 2 - half))),
)
  where
    down : (span / 2 - half - u) * 100 / (span / 2 - half) ≤ 100
    down = quotient-le (span / 2 - half - u) (span / 2 - half) (omega arith)

    up : (u - (span / 2 + half)) * 100 / (span - (span / 2 + half)) ≤ 100
    up = quotient-le (u - (span / 2 + half)) (span - (span / 2 + half)) (omega arith)

percent_mono :
    (span half u v : ℕ)
    → u ≤ v
    → v ≤ span
    → half ≤ span / 4
    → percent span half u ≤ℤ percent span half v
percent_mono span half u v h k q = ground (
  arith,
  neg_ℕ_parts ((span / 2 - half - u) * 100 / (span / 2 - half)),
  neg_ℕ_parts ((span / 2 - half - v) * 100 / (span / 2 - half)),
  quotient_mono (span / 2 - half - v) (span / 2 - half - u) (span / 2 - half),
  quotient_mono (u - (span / 2 + half)) (v - (span / 2 + half)) (span - (span / 2 + half)),
)

percent_two : (n : ℕ) → n ≤ 1 / 4 → percent 1 n 0 ≡ pos 0
percent_two n h = ground arith

too_low : negsuc 99 ≤ℤ axis_invalid → ⊥
too_low h = omega arith

module _ (r : AxisRange) (span pct : ℕ) (s : IsSpan r span pct) where
  offset-le : (raw : ℤ) → offset r span pct s raw ≤ span
  offset-le raw = ground (arith, s.max-eq, +ℤ_parts r.min (pos span), -ℤ_parts raw r.min)

  offset_mono : (raw raw' : ℤ) → raw ≤ℤ raw' → offset r span pct s raw ≤ offset r span pct s raw'
  offset_mono raw raw' h =
      ground (arith, s.max-eq, +ℤ_parts r.min (pos span), -ℤ_parts raw r.min, -ℤ_parts raw' r.min)

  offset-ends :
      (raw : ℤ)
      → (raw ≤ℤ r.min → offset r span pct s raw ≡ 0)
        × (r.max ≤ℤ raw → offset r span pct s raw ≡ span)
  offset-ends raw = (
    λ h. ground (arith, s.max-eq, +ℤ_parts r.min (pos span), -ℤ_parts raw r.min),
    λ h. ground (arith, s.max-eq, +ℤ_parts r.min (pos span), -ℤ_parts raw r.min),
  )

  -- An axis whose range the code accepts and whose length fits an `int32_t` gives a percentage from
  -- -100 to 100 for every raw value, which is never the sentinel for a bad range, and a greater raw
  -- value never gives a smaller percentage.
  pub normalize_range :
      (raw raw' : ℤ)
      → raw ≤ℤ raw'
      → (negsuc 99 ≤ℤ normalize r raw)
        × (normalize r raw ≤ℤ pos 100)
        × (normalize r raw ≢ axis_invalid)
        × (normalize r raw ≤ℤ normalize r raw')
  normalize_range raw raw' h =
      let n = half r span pct s in
      let q = half-le r span pct s in
      let u = offset r span pct s raw in
      let e = normalize-percent r span pct s raw in
      let b = percent_range span n u (offset-le raw) q in
      let m =
        percent_mono span n u (offset r span pct s raw') (offset_mono raw raw' h) (offset-le raw')
          q in
      (
        rw e b.0,
        rw e b.1,
        λ bad. too_low (rw (sym e ∙ bad) at b.0),
        rw (e, normalize-percent r span pct s raw') m,
      )

  -- Full throw: a raw value at or beyond `max` gives 100, and at or beyond `min` gives -100 if the
  -- range has at least three values.
  pub normalize_ends :
      (raw : ℤ)
      → (r.max ≤ℤ raw → normalize r raw ≡ pos 100)
        × (raw ≤ℤ r.min → 2 ≤ span → normalize r raw ≡ negsuc 99)
  normalize_ends raw =
      let n = half r span pct s in
      let q = half-le r span pct s in
      let e = normalize-percent r span pct s raw in
      let ends = offset-ends raw in
      (
        λ h. e ∙ ap (percent span n) (ends.1 h) ∙ percent_high span n s.long q,
        λ h two. e ∙ ap (percent span n) (ends.0 h) ∙ percent_low span n two q,
      )

-- A range of two values has no full throw downwards: both `min` and every value below it give 0,
-- though the comment of the code promises -100.
pub normalize_two_values :
    (r : AxisRange) (pct : ℕ) (raw : ℤ) → IsSpan r 1 pct → raw ≤ℤ r.min → normalize r raw ≡ pos 0
normalize_two_values r pct raw s h =
    normalize-percent r 1 pct s raw
    ∙ ap (percent 1 (half r 1 pct s)) ((offset-ends r 1 pct s raw).0 h)
    ∙ percent_two (half r 1 pct s) (half-le r 1 pct s)
