-- ===== src/Canvas/Circle.antt =====
-- `cart_canvas_circle` of cart/src/canvas.c.
use native.Mathlib.Nat.{mul-le-mul, mul-le-mul_right, le_trans}
use mathlib.Core.Path.{ap₂}
use vita_linux_next.Prelude.{
  ℕ, suc, ◌+◌, ◌*◌, ◌/◌, ◌%◌, ◌≤◌, ◌<◌, ◌≡◌, ◌⊎◌, refl, ◌∙◌, ap, sym, inl, inr, Bool, true, false,
  arith, tests, ltb, leb, leb→le, ◌&&◌, if◌then◌else◌, Bool-cases,
}
use vita_linux_next.Prelude.Int.{
  ℤ, pos, negsuc, pos_part, neg_part, ltb_ℤ, leb_ℤ, ◌+ℤ◌, ◌-ℤ◌, ◌*ℤ◌, +ℤ_parts, -ℤ_parts,
}
use vita_linux_next.Canvas.Defs.{
  size_mod, Canvas, valid, clip_low, clip_last, in_circle, fill_circle, circle,
}
use vita_linux_next.Canvas.Sweep.{sweep_lem}
use vita_linux_next.Canvas.Shapes.{IsValid, valid_iff}

abbrev size_of : ℤ → ℕ
size_of d = pos_part d + neg_part d

square : (d : ℤ) → d *ℤ d ≡ pos (size_of d * size_of d)
unfolding ◌*ℤ◌
square (pos n) = ground arith
square (negsuc n) = ground arith

square-le : (m n : ℕ) → m * m ≤ n * n → m ≤ n
square-le m n h = elim (Bool-cases (leb m n)) [
  | inl e ↦ leb→le m n e
  | inr e ↦
      let p : suc n * suc n ≤ m * m = mul-le-mul (omega tests) (omega tests) in
      absurd (omega (arith, p, h))
]

add_squares : (m n : ℕ) → pos m +ℤ pos n ≡ pos (m + n)
unfolding ◌+ℤ◌
add_squares m n = ground arith

-- The test of the code, on the distances from the centre.
in_circle-eq :
    (center_x center_y radius : ℤ) (row column : ℕ)
    → let dx = size_of (pos column -ℤ center_x) in
      let dy = size_of (pos row -ℤ center_y) in
      in_circle center_x center_y radius row column
      ≡ leb (dx * dx + dy * dy) (size_of radius * size_of radius)
unfolding in_circle
in_circle-eq center_x center_y radius row column =
    rw (square (pos column -ℤ center_x), square (pos row -ℤ center_y), square radius, add_squares)
      (ground arith)

-- A pixel of the circle lies in its bounding box.
in_circle_box :
    (center_x center_y radius : ℤ) (row column : ℕ)
    → neg_part radius ≡ 0
    → in_circle center_x center_y radius row column ≡ true
    → (leb_ℤ (center_x -ℤ radius) (pos column) ≡ true)
      × (leb_ℤ (pos column) (center_x +ℤ radius) ≡ true)
      × (leb_ℤ (center_y -ℤ radius) (pos row) ≡ true)
      × (leb_ℤ (pos row) (center_y +ℤ radius) ≡ true)
in_circle_box center_x center_y radius row column nonneg h =
    let dx = size_of (pos column -ℤ center_x) in
    let dy = size_of (pos row -ℤ center_y) in
    let r = size_of radius in
    let inside : dx * dx + dy * dy ≤ r * r =
      leb→le _ _ (sym (in_circle-eq center_x center_y radius row column) ∙ h) in
    let near_x : dx ≤ r = square-le dx r (omega (arith, inside)) in
    let near_y : dy ≤ r = square-le dy r (omega (arith, inside)) in
    (
      ground (arith, near_x, -ℤ_parts (pos column) center_x, -ℤ_parts center_x radius),
      ground (arith, near_x, -ℤ_parts (pos column) center_x, +ℤ_parts center_x radius),
      ground (arith, near_y, -ℤ_parts (pos row) center_y, -ℤ_parts center_y radius),
      ground (arith, near_y, -ℤ_parts (pos row) center_y, +ℤ_parts center_y radius),
    )

-- The range of one loop, with its last value.
abbrev within : ℕ → ℤ → ℕ → Bool
within first last k = leb first k && leb_ℤ (pos k) last

range_empty : (first k : ℕ) (last : ℤ) → ltb_ℤ last (pos first) ≡ true → within first last k ≡ false
range_empty first k last h = ground arith

range_last :
    (first k : ℕ) (last : ℤ)
    → ltb_ℤ last (pos first) ≡ false
    → (leb first k && ltb k (pos_part last + 1)) ≡ within first last k
range_last first k last h = ground arith

range_order : (first : ℕ) (last : ℤ) → ltb_ℤ last (pos first) ≡ false → first ≤ pos_part last + 1
range_order first last h = ground arith

painted_range :
    (top left row column : ℕ) (bottom right : ℤ) (t : Bool) (x y : ℕ)
    → ltb_ℤ bottom (pos top) ≡ false
    → ltb_ℤ right (pos left) ≡ false
    → (if leb top row
          && ltb row (pos_part bottom + 1)
          && (leb left column && ltb column (pos_part right + 1) && t)
        then x
        else y)
      ≡ (if within top bottom row && (within left right column && t) then x else y)
painted_range top left row column bottom right false x y f e = ground arith
painted_range top left row column bottom right true x y f e = ground arith

module _ (c : Canvas) (center_x center_y radius : ℤ) (left top : ℕ) (right bottom : ℤ)
    (color a : ℕ) where
  abbrev row : ℕ
  row = a / c.stride

  abbrev column : ℕ
  column = a % c.stride

  fill_circle_lem :
      pos_part right + 1 ≤ c.stride
      → (pos_part bottom + 1) * c.stride ≤ size_mod
      → (fill_circle c center_x center_y radius (pos left) right (pos top) bottom color).pixels a
        ≡ (if within top bottom row
              && (within left right column && in_circle center_x center_y radius row column)
            then color
            else c.pixels a)
  unfolding fill_circle
  fill_circle_lem w h = elim (Bool-cases (ltb_ℤ right (pos left))) [
    | inl e ↦ rw (e, range_empty left column right e) (ground arith)
    | inr e ↦ elim (Bool-cases (ltb_ℤ bottom (pos top))) [
      | inl f ↦ rw (e, f, range_empty top row bottom f) refl
      | inr f ↦
          let swept =
            sweep_lem (in_circle center_x center_y radius) c.stride color left (pos_part right + 1)
              w c.pixels top (pos_part bottom + 1) a (range_order left right e)
              (range_order top bottom f) h in
          rw (e, f)
            (swept
              ∙ painted_range top left row column bottom right
                  (in_circle center_x center_y radius row column) (color) (c.pixels a) f e)
    ]
  ]

clip_low_pos : (v : ℤ) → clip_low v ≡ pos (pos_part (clip_low v))
clip_low_pos (pos n) = ground arith
clip_low_pos (negsuc n) = ground arith

clip_last_lt : (limit : ℕ) (v : ℤ) → 0 < limit → pos_part (clip_last limit v) + 1 ≤ limit
clip_last_lt limit v h = ground (arith, -ℤ_parts (pos limit) (pos 1))

-- Between the unclipped ends only the limit of the canvas is left.
axis :
    (low high : ℤ) (limit k : ℕ)
    → 0 < limit
    → leb_ℤ low (pos k) ≡ true
    → leb_ℤ (pos k) high ≡ true
    → within (pos_part (clip_low low)) (clip_last limit high) k ≡ ltb k limit
axis low high limit k h p q = ground (arith, -ℤ_parts (pos limit) (pos 1))

not_negative : (r : ℕ) → ltb_ℤ (pos r) (pos 0) ≡ false
not_negative r = ground arith

regroup : (p q t : Bool) → (p && (q && t)) ≡ (p && q && t)
regroup p q t = ground arith

none_left : (x y p q : Bool) → (x && (y && false)) ≡ (p && q && false)
none_left x y p q = ground arith

-- Is the pixel at index `a` in the disc and on the canvas?
abbrev pub in_disc : Canvas → ℤ → ℤ → ℤ → ℕ → Bool
in_disc c center_x center_y radius a =
    ltb (a / c.stride) c.height
    && ltb (a % c.stride) c.width
    && in_circle center_x center_y radius (a / c.stride) (a % c.stride)

-- `cart_canvas_circle` with a radius of at least 0 colours exactly the pixels of the canvas whose
-- distance from the centre is at most the radius: the box that it walks leaves none out, and no
-- other index of the buffer changes, wherever the centre lies.
pub circle_lem :
    (c : Canvas) (center_x center_y : ℤ) (radius color a : ℕ)
    → c.stride < size_mod
    → valid c ≡ true
    → (circle c center_x center_y (pos radius) color).pixels a
      ≡ (if in_disc c center_x center_y (pos radius) a then color else c.pixels a)
unfolding circle
circle_lem c center_x center_y radius color a small v =
    rw
      (
        v,
        not_negative radius,
        clip_low_pos (center_x -ℤ pos radius),
        clip_low_pos (center_y -ℤ pos radius),
      )
      (drawn ∙ ap (λ t. if t then color else c.pixels a) (same (Bool-cases inside)))
  where
    g : IsValid c
    g = (valid_iff c small).0 v

    left : ℕ
    left = pos_part (clip_low (center_x -ℤ pos radius))

    right : ℤ
    right = clip_last c.width (center_x +ℤ pos radius)

    top : ℕ
    top = pos_part (clip_low (center_y -ℤ pos radius))

    bottom : ℤ
    bottom = clip_last c.height (center_y +ℤ pos radius)

    inside : Bool
    inside = in_circle center_x center_y (pos radius) (a / c.stride) (a % c.stride)

    drawn :
        (fill_circle c center_x center_y
            (pos radius)
            (pos left)
            right
            (pos top)
            bottom
            color).pixels
          a
        ≡ (if within top bottom (a / c.stride) && (within left right (a % c.stride) && inside)
            then color
            else c.pixels a)
    drawn =
        fill_circle_lem c center_x center_y (pos radius) left top right bottom color a
          (le_trans (clip_last_lt c.width _ g.some_column) g.row_fits)
          (le_trans (mul-le-mul_right c.stride (clip_last_lt c.height _ g.some_row))
            (le_trans g.fits (omega arith)))

    same :
        (inside ≡ true) ⊎ (inside ≡ false)
        → (within top bottom (a / c.stride) && (within left right (a % c.stride) && inside))
          ≡ in_disc c center_x center_y (pos radius) a
    same (inl t) =
        let b = in_circle_box center_x center_y (pos radius) (a / c.stride) (a % c.stride) refl t in
        ap₂ (λ p q. p && (q && inside))
          (axis (center_y -ℤ pos radius) (center_y +ℤ pos radius) c.height (a / c.stride) g.some_row
            b.2 b.3)
          (axis (center_x -ℤ pos radius) (center_x +ℤ pos radius) c.width (a % c.stride)
            g.some_column b.0 b.1)
        ∙ regroup (ltb (a / c.stride) c.height) (ltb (a % c.stride) c.width) inside
    same (inr t) = rw t (
        none_left (within top bottom (a / c.stride)) (within left right (a % c.stride))
          (ltb (a / c.stride) c.height) (ltb (a % c.stride) c.width))
