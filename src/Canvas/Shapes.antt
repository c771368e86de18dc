-- ===== src/Canvas/Shapes.antt =====
-- What the drawing routines of cart/src/canvas.c draw: exactly the pixels of the shape that lie on
-- the canvas.
use native.Mathlib.Nat.{le-div_iff_mul-le, mul-le-mul_right, mul_comm, le_trans}
use mathlib.Core.Path.{ap₂}
use vita_linux_next.Prelude.{
  ℕ, ◌*◌, ◌/◌, ◌%◌, ◌≤◌, ◌<◌, ◌≡◌, ◌↔◌, refl, ◌∙◌, inl, inr, Bool, true, false, arith, ltb, ◌&&◌,
  if◌then◌else◌, Bool-cases,
}
use vita_linux_next.Prelude.Int.{ℤ, pos, pos_part, neg_part, ltb_ℤ, leb_ℤ, ◌+ℤ◌, +ℤ_parts}
use vita_linux_next.Canvas.Defs.{
  size_mod, size_max, Canvas, valid, byte_size, clip_low, clip_high, fill, rect,
}
use vita_linux_next.Canvas.Sweep.{sweep_lem}

-- What a valid canvas guarantees: it is mapped and not empty, a row fits the stride, and the size
-- of the buffer in bytes fits a `size_t`.
pub record IsValid (c : Canvas) : Type 0 where
  pub mapped : c.mapped ≡ true
  pub some_column : 0 < c.width
  pub some_row : 0 < c.height
  pub row_fits : c.width ≤ c.stride
  pub fits : c.height * c.stride ≤ size_max / 4

size_bound :
    (height stride : ℕ) → 0 < stride → (height ≤ size_max / stride) ↔ (height * stride ≤ size_max)
size_bound height stride h = le-div_iff_mul-le h

-- `cart_canvas_valid` accepts a canvas exactly when the buffer is mapped, the width and the height
-- are positive, a row fits the stride, and the true size in bytes is within `SIZE_MAX`; so its own
-- tests never wrap.
pub valid_iff : (c : Canvas) → c.stride < size_mod → (valid c ≡ true) ↔ IsValid c
unfolding valid
valid_iff c small =
    (to, λ v. ground (arith, v, mul_comm c.stride c.height, size_bound c.height c.stride))
  where
    to : valid c ≡ true → IsValid c
    to h =
        let some_stride : 0 < c.stride = ground arith in
        let whole = (size_bound c.height c.stride some_stride).0 (ground arith) in
        record {
          mapped = ground arith;
          some_column = ground arith;
          some_row = ground arith;
          row_fits = ground arith;
          fits = ground (arith, whole, mul_comm c.stride c.height);
        }

-- `cart_canvas_byte_size` is the true size of a valid canvas, with no wrap.
byte_size-eq :
    (c : Canvas) → c.stride < size_mod → valid c ≡ true → byte_size c ≡ c.height * c.stride * 4
unfolding byte_size
byte_size-eq c small v = ground (arith, (valid_iff c small).0 v, mul_comm c.stride c.height)

-- Is `k` in the half-open range of two integers?
abbrev in_range : ℤ → ℤ → ℕ → Bool
in_range from to k = leb_ℤ from (pos k) && ltb_ℤ (pos k) to

fill_lem :
    (c : Canvas) (x0 x1 y0 y1 : ℤ) (color a : ℕ)
    → neg_part x0 ≡ 0
    → neg_part y0 ≡ 0
    → pos_part x1 ≤ c.stride
    → pos_part y1 * c.stride ≤ size_mod
    → (fill c x0 x1 y0 y1 color).pixels a ≡ (
        if in_range y0 y1 (a / c.stride) && in_range x0 x1 (a % c.stride)
        then color
        else c.pixels a)
unfolding fill
fill_lem c x0 x1 y0 y1 color a hx hy w h = ground (
  arith,
  sweep_lem (λ _ _. true) c.stride color (pos_part x0) (pos_part x1) w c.pixels (pos_part y0)
      (pos_part y1) a,
)

-- One axis of a rectangle: is `k` in `[v, v + size)` and below the limit?
abbrev pub in_span : ℤ → ℤ → ℕ → ℕ → Bool
in_span v size limit k = leb_ℤ v (pos k) && ltb_ℤ (pos k) (v +ℤ size) && ltb k limit

module _ (v size : ℤ) (limit k : ℕ) where
  span_empty : leb_ℤ size (pos 0) ≡ true → in_span v size limit k ≡ false
  span_empty h = ground (arith, +ℤ_parts v size)

  span_clipped : in_range (clip_low v) (clip_high limit (v +ℤ size)) k ≡ in_span v size limit k
  span_clipped = ground arith

  clip_bounds : (neg_part (clip_low v) ≡ 0) × (pos_part (clip_high limit (v +ℤ size)) ≤ limit)
  clip_bounds = (ground arith, ground arith)

-- Is the pixel at index `a` in the rectangle and on the canvas?
abbrev pub in_rect : Canvas → ℤ → ℤ → ℤ → ℤ → ℕ → Bool
in_rect c x y width height a =
    in_span y height c.height (a / c.stride) && in_span x width c.width (a % c.stride)

and-false : (b : Bool) → (b && false) ≡ false
and-false b = ground arith

-- `cart_canvas_rect` colours exactly the pixels of the rectangle that lie on the canvas: no other
-- index of the buffer changes, in the padding of a row or outside the canvas, wherever the
-- rectangle lies and whatever its signed size; an empty one draws nothing.
pub rect_lem :
    (c : Canvas) (x y width height : ℤ) (color a : ℕ)
    → c.stride < size_mod
    → valid c ≡ true
    → (rect c x y width height color).pixels a
      ≡ (if in_rect c x y width height a then color else c.pixels a)
unfolding rect
rect_lem c x y width height color a small v = elim (Bool-cases (leb_ℤ width (pos 0))) [
  | inl e ↦ rw (v, e) (rw (span_empty x width c.width (a % c.stride) e, and-false) refl)
  | inr e ↦ elim (Bool-cases (leb_ℤ height (pos 0))) [
    | inl f ↦ rw (v, e, f) (rw (span_empty y height c.height (a / c.stride) f) refl)
    | inr f ↦
        rw (v, e, f)
          (drawn
            ∙ ap₂ (λ p q. if p && q then color else c.pixels a)
                (span_clipped y height c.height (a / c.stride))
                (span_clipped x width c.width (a % c.stride)))
  ]
]
  where
    x0 : ℤ
    x0 = clip_low x

    x1 : ℤ
    x1 = clip_high c.width (x +ℤ width)

    y0 : ℤ
    y0 = clip_low y

    y1 : ℤ
    y1 = clip_high c.height (y +ℤ height)

    g : IsValid c
    g = (valid_iff c small).0 v

    on_x : (neg_part x0 ≡ 0) × (pos_part x1 ≤ c.width)
    on_x = clip_bounds x width c.width 0

    on_y : (neg_part y0 ≡ 0) × (pos_part y1 ≤ c.height)
    on_y = clip_bounds y height c.height 0

    drawn : (fill c x0 x1 y0 y1 color).pixels a ≡ (
        if in_range y0 y1 (a / c.stride) && in_range x0 x1 (a % c.stride)
        then color
        else c.pixels a)
    drawn =
        fill_lem c x0 x1 y0 y1 color a on_x.0 on_y.0 (le_trans on_x.1 g.row_fits)
          (le_trans (mul-le-mul_right c.stride on_y.1) (le_trans g.fits (omega arith)))
