-- ===== src/Input/Normalize/Offset.antt =====
-- The normalisation of cart/src/input_normalize.c as a map of the offset from `min`, without signs.
use native.Mathlib.Nat.{zero-div, mul-le-mul_left}
use vita_linux_next.Prelude.{
  ℕ, zero, suc, ◌+◌, ◌-◌, ◌*◌, ◌/◌, ◌^◌, ◌≤◌, ◌<◌, ◌≡◌, ◌⊎◌, refl, ◌∙◌, ap, sym, inl, inr, true,
  false, arith, ltb, leb, ◌&&◌, if◌then◌else◌, Bool-cases, tests,
}
use vita_linux_next.Prelude.Int.{
  ℤ, pos, pos_part, neg_part, ◌+ℤ◌, ◌-ℤ◌, ◌*ℤ◌, ltb_ℤ, leb_ℤ, +ℤ_parts, -ℤ_parts, eq_of_parts,
}
use vita_linux_next.Input.Normalize.{
  AxisRange, neg_ℕ, div_ℤ, span_of, half_of, low_of, high_of, clamped, band, invalid, normalize,
}

-- The axis by its offset from `min`: `span` long, with a dead zone from `span / 2 - half` to
-- `span / 2 + half`.
abbrev pub percent : ℕ → ℕ → ℕ → ℤ
percent span half u =
    if ltb u (span / 2 - half)
    then neg_ℕ ((span / 2 - half - u) * 100 / (span / 2 - half))
    else if leb u (span / 2 + half)
    then pos 0
    else pos ((u - (span / 2 + half)) * 100 / (span - (span / 2 + half)))

zero-div_ℤ : (b : ℕ) → div_ℤ (pos 0) (pos b) ≡ pos 0
unfolding div_ℤ
zero-div_ℤ b = ap pos (zero-div b)

div_neg : (a b : ℕ) → div_ℤ (neg_ℕ a) (pos b) ≡ neg_ℕ (a / b)
div_neg zero b = zero-div_ℤ b ∙ ap neg_ℕ (sym (zero-div b))
div_neg (suc a) b = unfold div_ℤ in refl

div_pos : (a b : ℕ) → div_ℤ (pos a) (pos b) ≡ pos (a / b)
unfolding div_ℤ
div_pos a b = refl

-- An integer is fixed by the difference of its parts.
pub neg_ℕ_parts : (n : ℕ) → (pos_part (neg_ℕ n) ≡ 0) × (neg_part (neg_ℕ n) ≡ n)
neg_ℕ_parts zero = (refl, refl)
neg_ℕ_parts (suc n) = (refl, refl)

mul_pos : (a b : ℕ) → pos a *ℤ pos b ≡ pos (a * b)
unfolding ◌*ℤ◌
mul_pos a b = ground arith

mul_neg : (a b : ℕ) → neg_ℕ a *ℤ pos b ≡ neg_ℕ (a * b)
mul_neg zero b = mul_pos 0 b ∙ ground arith
mul_neg (suc a) b = unfold ◌*ℤ◌ in ground arith

-- Differences of offsets from one point.
module _ (min : ℤ) (m n : ℕ) where
  minus_up : m ≤ n → (min +ℤ pos n) -ℤ (min +ℤ pos m) ≡ pos (n - m)
  minus_up h = eq_of_parts _ _ (
      omega
        (arith, -ℤ_parts (min +ℤ pos n) (min +ℤ pos m), +ℤ_parts min (pos n), +ℤ_parts min (pos m)))

  minus_down : m ≤ n → (min +ℤ pos m) -ℤ (min +ℤ pos n) ≡ neg_ℕ (n - m)
  minus_down h = eq_of_parts _ _ (
      omega (
        arith,
        neg_ℕ_parts (n - m),
        -ℤ_parts (min +ℤ pos m) (min +ℤ pos n),
        +ℤ_parts min (pos n),
        +ℤ_parts min (pos m),
      ))

  leb-offset : leb_ℤ (min +ℤ pos m) (min +ℤ pos n) ≡ leb m n
  leb-offset = ground (arith, +ℤ_parts min (pos n), +ℤ_parts min (pos m))

  ltb-offset : ltb_ℤ (min +ℤ pos m) (min +ℤ pos n) ≡ ltb m n
  ltb-offset = ground (arith, +ℤ_parts min (pos n), +ℤ_parts min (pos m))

minus_base : (min : ℤ) (n : ℕ) → (min +ℤ pos n) -ℤ min ≡ pos n
minus_base min n =
    eq_of_parts _ _ (omega (arith, -ℤ_parts (min +ℤ pos n) min, +ℤ_parts min (pos n)))

-- The three bands, on offsets.
module _ (min : ℤ) (span lo hi u : ℕ) (order : lo ≤ hi) (end : hi ≤ span) where
  abbrev off : ℕ → ℤ
  off n = min +ℤ pos n

  abbrev goal : ℤ
  goal =
      if ltb u lo
      then neg_ℕ ((lo - u) * 100 / lo)
      else if leb u hi
      then pos 0
      else pos ((u - hi) * 100 / (span - hi))

  band_offset : band min (off span) (off lo) (off hi) (off u) ≡ goal
  unfolding band
  band_offset =
      rw
        (
          leb-offset min lo u,
          leb-offset min u hi,
          ltb-offset min u lo,
          minus_base min lo,
          minus_up min hi span end,
        )
        (elim (Bool-cases (ltb u lo)) [
          | inl e ↦ rw (e, minus_down min u lo (omega tests), mul_neg, div_neg) (ground arith)
          | inr e ↦ rw e (upper (Bool-cases (leb u hi)) (ground arith))
        ])
    where
      upper :
          (leb u hi ≡ true) ⊎ (leb u hi ≡ false)
          → leb lo u ≡ true
          → (if leb lo u && leb u hi
              then pos 0
              else div_ℤ ((off u -ℤ off hi) *ℤ pos 100) (pos (span - hi)))
            ≡ (if leb u hi then pos 0 else pos ((u - hi) * 100 / (span - hi)))
      upper (inl f) le = rw (le, f) refl
      upper (inr f) le = rw (le, f, minus_up min hi u (omega tests), mul_pos, div_pos) refl

-- A range that the code accepts and whose length fits an `int32_t`: `max` is `min + span`.
pub record IsSpan (r : AxisRange) (span pct : ℕ) : Type 0 where
  pub max-eq : r.max ≡ r.min +ℤ pos span
  pub pct-eq : r.deadzone_pct ≡ pos pct
  pub long : 0 < span
  pub fits : span < 2 ^ 31
  pub narrow : pct ≤ 50

module _ (r : AxisRange) (span pct : ℕ) (s : IsSpan r span pct) where
  abbrev pub half : ℕ
  half = span * pct / 200

  pub half-le : half ≤ span / 4
  half-le = let p : span * pct ≤ span * 50 = mul-le-mul_left span s.narrow in omega (arith, p)

  span-eq : span_of r ≡ pos span
  unfolding span_of
  span-eq = rw (s.max-eq, minus_base r.min span) (ground (arith, s.fits))

  half-eq : half_of r ≡ pos half
  unfolding half_of
  half-eq = rw (span-eq, s.pct-eq, mul_pos, div_pos) refl

  low-eq : low_of r ≡ r.min +ℤ pos (span / 2 - half)
  unfolding low_of
  low-eq =
      rw (span-eq, half-eq, div_pos)
        (eq_of_parts _ _ (
          omega (
            arith,
            half-le,
            -ℤ_parts (r.min +ℤ pos (span / 2)) (pos half),
            +ℤ_parts r.min (pos (span / 2)),
            +ℤ_parts r.min (pos (span / 2 - half)),
          )))

  high-eq : high_of r ≡ r.min +ℤ pos (span / 2 + half)
  unfolding high_of
  high-eq =
      rw (low-eq, half-eq, mul_pos)
        (eq_of_parts _ _ (
          omega (
            arith,
            half-le,
            +ℤ_parts (r.min +ℤ pos (span / 2 - half)) (pos (2 * half)),
            +ℤ_parts r.min (pos (span / 2 + half)),
            +ℤ_parts r.min (pos (span / 2 - half)),
          )))

  accepted : invalid r ≡ false
  unfolding invalid
  accepted = rw (s.max-eq, s.pct-eq) (ground (arith, +ℤ_parts r.min (pos span), s.narrow, s.long))

  -- The raw value, clamped, as an offset.
  abbrev pub offset : ℤ → ℕ
  offset raw =
      if ltb_ℤ raw r.min then 0 else if ltb_ℤ r.max raw then span else pos_part (raw -ℤ r.min)

  pub clamped-eq : (raw : ℤ) → clamped r raw ≡ r.min +ℤ pos (offset raw)
  unfolding clamped
  clamped-eq raw = eq_of_parts _ _ (
      ground (
        arith,
        s.max-eq,
        +ℤ_parts r.min (pos span),
        +ℤ_parts r.min (pos (offset raw)),
        -ℤ_parts raw r.min,
      ))

  abbrev point : ℕ → ℤ
  point n = r.min +ℤ pos n

  -- The code on signed numbers is the plain map of the offset.
  pub normalize-percent : (raw : ℤ) → normalize r raw ≡ percent span half (offset raw)
  unfolding normalize
  normalize-percent raw =
      rw (accepted, low-eq, high-eq, clamped-eq raw)
        (ap
            (λ m.
              band r.min m (point (span / 2 - half)) (point (span / 2 + half)) (point (offset raw)))
            s.max-eq
          ∙ band_offset r.min span (span / 2 - half) (span / 2 + half) (offset raw) (omega arith)
              (omega (arith, half-le)))
