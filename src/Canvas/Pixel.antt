-- ===== src/Canvas/Pixel.antt =====
-- `cart_canvas_px` of cart/src/canvas.c.
use vita_linux_next.Prelude.{
  ℕ, suc, ◌+◌, ◌*◌, ◌/◌, ◌%◌, ◌≤◌, ◌<◌, ◌≡◌, Bool, true, arith, ltb, leb, ◌==◌, ◌&&◌, ◌||◌,
  if◌then◌else◌, ◌∙◌, inl, inr, Bool-cases,
}
use native.Mathlib.Nat.{mul-le-mul_right}
use vita_linux_next.Prelude.Int.{ℤ, pos, negsuc, pos_part, ltb_ℤ, leb_ℤ, ◌+ℤ◌}
use vita_linux_next.Canvas.Defs.{size_mod, Canvas, valid, px, rect}
use vita_linux_next.Canvas.Sweep.{address_iff}
use vita_linux_next.Canvas.Shapes.{valid_iff, rect_lem}

one_more :
    (v : ℤ) (k : ℕ)
    → (leb_ℤ v (pos k) && ltb_ℤ (pos k) (v +ℤ pos 1)) ≡ (leb_ℤ v (pos k) && leb_ℤ (pos k) v)
unfolding ◌+ℤ◌
one_more v k = ground arith

px_inside :
    (c : Canvas) (x y color a : ℕ)
    → c.stride < size_mod
    → valid c ≡ true
    → x < c.width
    → y < c.height
    → (px c (pos x) (pos y) color).pixels a
      ≡ (if (a / c.stride == y) && (a % c.stride == x) then color else c.pixels a)
unfolding px
px_inside c x y color a small v hx hy =
    let g = (valid_iff c small).0 v in
    let below : y * c.stride + c.stride ≤ c.height * c.stride =
      omega (arith, mul-le-mul_right {m = suc y} {n = c.height} c.stride hy) in
    ground (arith, address_iff c.stride y x a (omega (arith, g)) (omega (arith, g, below)))

px_outside :
    (c : Canvas) (x y : ℤ) (color : ℕ)
    → (ltb_ℤ x (pos 0) || ltb_ℤ y (pos 0) || leb c.width (pos_part x) || leb c.height (pos_part y))
      ≡ true
    → px c x y color ≡ c
unfolding px
px_outside c x y color h = ground arith

-- Is the pixel at index `a` the one at `x`, `y`?
abbrev at_pixel : ℕ → ℤ → ℤ → ℕ → Bool
at_pixel stride x y a =
    leb_ℤ y (pos (a / stride))
    && leb_ℤ (pos (a / stride)) y
    && (leb_ℤ x (pos (a % stride)) && leb_ℤ (pos (a % stride)) x)

-- What `px` leaves at index `a`.
abbrev Px : Canvas → ℤ → ℤ → ℕ → ℕ → Type 0
Px c x y color a = (px c x y color).pixels a ≡ (
    if at_pixel c.stride x y a && (ltb (a / c.stride) c.height && ltb (a % c.stride) c.width)
    then color
    else c.pixels a)

Px-left : (c : Canvas) (x : ℕ) (y : ℤ) (color a : ℕ) → Px c (negsuc x) y color a
Px-left c x y color a = ground (arith, px_outside c (negsuc x) y color)

Px-above : (c : Canvas) (x y color a : ℕ) → Px c (pos x) (negsuc y) color a
Px-above c x y color a = ground (arith, px_outside c (pos x) (negsuc y) color)

at_pixel-eq :
    (row column x y : ℕ)
    → (leb_ℤ (pos y) (pos row)
        && leb_ℤ (pos row) (pos y)
        && (leb_ℤ (pos x) (pos column) && leb_ℤ (pos column) (pos x)))
      ≡ ((row == y) && (column == x))
at_pixel-eq row column x y = ground arith

Px-off :
    (c : Canvas) (x y color a : ℕ)
    → (leb c.width x || leb c.height y) ≡ true
    → Px c (pos x) (pos y) color a
Px-off c x y color a h =
    rw (at_pixel-eq (a / c.stride) (a % c.stride) x y)
      (ground (arith, px_outside c (pos x) (pos y) color))

Px-on :
    (c : Canvas) (x y color a : ℕ)
    → c.stride < size_mod
    → valid c ≡ true
    → x < c.width
    → y < c.height
    → Px c (pos x) (pos y) color a
Px-on c x y color a small v hx hy =
    rw (at_pixel-eq (a / c.stride) (a % c.stride) x y)
      (px_inside c x y color a small v hx hy ∙ ground arith)

px_lem :
    (c : Canvas) (x y : ℤ) (color a : ℕ) → c.stride < size_mod → valid c ≡ true → Px c x y color a
px_lem c (negsuc x) y color a small v = Px-left c x y color a
px_lem c (pos x) (negsuc y) color a small v = Px-above c x y color a
px_lem c (pos x) (pos y) color a small v = elim (Bool-cases (leb c.width x || leb c.height y)) [
  | inl off ↦ Px-off c x y color a off
  | inr on ↦ Px-on c x y color a small v (ground arith) (ground arith)
]

-- `cart_canvas_px` draws exactly what a rectangle of one pixel at the same place draws, on the
-- canvas and off it.
pub px-eq-rect :
    (c : Canvas) (x y : ℤ) (color a : ℕ)
    → c.stride < size_mod
    → valid c ≡ true
    → (px c x y color).pixels a ≡ (rect c x y (pos 1) (pos 1) color).pixels a
px-eq-rect c x y color a small v =
    px_lem c x y color a small v
    ∙ ground (
      arith,
      one_more x (a % c.stride),
      one_more y (a / c.stride),
      rect_lem c x y (pos 1) (pos 1) color a small v,
    )
