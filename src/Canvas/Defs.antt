-- ===== src/Canvas/Defs.antt =====
-- The canvas of cart/src/canvas.c and its drawing routines. A canvas is a rectangle of words in a
-- pixel buffer; `mapped` says that its `pixels` pointer is not NULL, and `pixels` gives the word at
-- each index. An `int` or `int64_t` is an integer: no sum or product below leaves 64 bits.
use vita_linux_next.Prelude.{
  ℕ, ◌+◌, ◌-◌, ◌*◌, ◌/◌, ◌%◌, ◌^◌, Bool, true, not, ◌&&◌, ◌||◌, Option, leb, ◌==◌, if◌then◌else◌,
  Status, ok, fail, through,
}
use vita_linux_next.Prelude.Int.{ℤ, pos, pos_part, ltb_ℤ, leb_ℤ, ◌+ℤ◌, ◌-ℤ◌, ◌*ℤ◌}
use vita_linux_next.Prelude.Loops.{for_from}

-- `size_t` has 32 bits on the target.
abbrev pub size_mod : ℕ
size_mod = 2 ^ 32

abbrev pub size_max : ℕ
size_max = 2 ^ 32 - 1

abbrev pub Pixels : Type 0
Pixels = ℕ → ℕ

pub record Canvas : Type 0 where
  pub mapped : Bool
  pub pixels : Pixels
  pub width : ℕ
  pub height : ℕ
  pub stride : ℕ

unfoldable pub valid : Canvas → Bool
valid c =
    c.mapped
    && not (c.width == 0)
    && not (c.height == 0)
    && leb c.width c.stride
    && leb c.height (size_max / c.stride)
    && leb ((c.stride * c.height) % size_mod) (size_max / 4)

-- The canvas that is offered replaces the old one if it is valid.
unfoldable pub init : Canvas → Canvas → Status × Canvas
init candidate old = if valid candidate then (ok, candidate) else (fail, old)

unfoldable pub init_at : Option Canvas → Canvas → Status × Option Canvas
unfolding init
init_at p candidate = through fail p (init candidate)

unfoldable pub byte_size : Canvas → ℕ
byte_size c = if valid c then (c.stride * c.height * 4) % size_mod else 0

abbrev pub store : Pixels → ℕ → ℕ → Pixels
store p address color a = if a == address then color else p a

-- The index of a pixel, in `size_t`.
abbrev pub address : ℕ → ℕ → ℕ → ℕ
address stride row column = (row * stride + column) % size_mod

unfoldable pub px : Canvas → ℤ → ℤ → ℕ → Canvas
px c x y color =
    if not (valid c)
      || ltb_ℤ x (pos 0)
      || ltb_ℤ y (pos 0)
      || leb c.width (pos_part x)
      || leb c.height (pos_part y)
    then c
    else record c { pixels = store c.pixels (address c.stride (pos_part y) (pos_part x)) color }

-- `for (row = top; row < bottom; row++) for (column = left; column < right; column++)`, with a
-- write where the test holds.
unfoldable pub sweep : (ℕ → ℕ → Bool) → ℕ → ℕ → ℕ → ℕ → ℕ → ℕ → Pixels → Pixels
sweep test stride color left right top bottom p =
    for_from (bottom - top) top
      (λ row q.
        for_from (right - left) left
          (λ column r. if test row column then store r (address stride row column) color else r) q)
      p

-- `if (v < 0) v = 0` and `if (v > limit) v = limit`.
abbrev pub clip_low : ℤ → ℤ
clip_low v = if ltb_ℤ v (pos 0) then pos 0 else v

abbrev pub clip_high : ℕ → ℤ → ℤ
clip_high limit v = if ltb_ℤ (pos limit) v then pos limit else v

-- The loops of a rectangle whose ends have been clipped.
unfoldable pub fill : Canvas → ℤ → ℤ → ℤ → ℤ → ℕ → Canvas
fill c x0 x1 y0 y1 color = if leb_ℤ x1 x0 || leb_ℤ y1 y0 then c else record c {
  pixels =
      sweep (λ _ _. true) c.stride color (pos_part x0) (pos_part x1) (pos_part y0) (pos_part y1)
        c.pixels;
}

unfoldable pub rect : Canvas → ℤ → ℤ → ℤ → ℤ → ℕ → Canvas
rect c x y width height color =
    if not (valid c) || leb_ℤ width (pos 0) || leb_ℤ height (pos 0)
    then c
    else fill c (clip_low x) (clip_high c.width (x +ℤ width)) (clip_low y)
        (clip_high c.height (y +ℤ height)) color

-- `if (v >= limit) v = limit - 1`.
abbrev pub clip_last : ℕ → ℤ → ℤ
clip_last limit v = if leb_ℤ (pos limit) v then pos limit -ℤ pos 1 else v

-- The test of a circle at a pixel.
unfoldable pub in_circle : ℤ → ℤ → ℤ → ℕ → ℕ → Bool
in_circle center_x center_y radius row column =
    let delta_y = pos row -ℤ center_y in
    let delta_x = pos column -ℤ center_x in
    leb_ℤ (delta_x *ℤ delta_x +ℤ delta_y *ℤ delta_y) (radius *ℤ radius)

-- The loops of a circle in a clipped box. `<=` in both: the last row and column are drawn.
unfoldable pub fill_circle : Canvas → ℤ → ℤ → ℤ → ℤ → ℤ → ℤ → ℤ → ℕ → Canvas
fill_circle c center_x center_y radius left right top bottom color =
    if ltb_ℤ right left || ltb_ℤ bottom top then c else record c {
      pixels =
          sweep (in_circle center_x center_y radius) c.stride color (pos_part left)
            (pos_part right + 1) (pos_part top) (pos_part bottom + 1) c.pixels;
    }

unfoldable pub circle : Canvas → ℤ → ℤ → ℤ → ℕ → Canvas
circle c center_x center_y radius color =
    if not (valid c) || ltb_ℤ radius (pos 0)
    then c
    else fill_circle c center_x center_y radius (clip_low (center_x -ℤ radius))
        (clip_last c.width (center_x +ℤ radius)) (clip_low (center_y -ℤ radius))
        (clip_last c.height (center_y +ℤ radius)) color
