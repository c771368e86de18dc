-- ===== src/Dashboard/Render/Inside.antt =====
-- Drawing of render.c stays inside the shadow and leaves the geometry alone.
use native.Mathlib.Nat.{mul-le-mul_right, mod-eq_of_lt}
use vita_linux_next.Prelude.{
  ℕ, zero, suc, ◌+◌, ◌-◌, ◌*◌, ◌/◌, ◌%◌, ◌^◌, ◌≤◌, ◌<◌, ◌≡◌, refl, sym, ◌∙◌, ◌||◌, List, [], ◌∷◌,
  Option, none, some, arith, ltb, leb, ◌==◌, if◌then◌else◌, get_or, if_holds,
}
use vita_linux_next.Prelude.Int.{ℤ, pos, ◌+ℤ◌, ltb_ℤ, leb_ℤ, pos_part}
use vita_linux_next.Prelude.Loops.{for_from}
use vita_linux_next.Input.Probe.{wrap_int32}
use vita_linux_next.Dashboard.Owner.{word, max_frame_bytes}
use vita_linux_next.Dashboard.Render.{
  Renderer, glyph_pixel, pixel_bytes, put_at, put_pixel, fill_rect, render_rect, draw_glyph,
  glyph_of, draw_text, render_text, render_row, scale_of,
}

-- A renderer whose rows of pixels fit its stride and whose rows fit its shadow, with at least three
-- bytes to a pixel.
pub record IsFit (r : Renderer) : Type 0 where
  pub bytes : r.frame_bytes ≡ r.stride * r.height
  pub high : r.frame_bytes ≤ max_frame_bytes
  pub rows : r.width * r.bytes_per_pixel ≤ r.stride
  pub deep : 3 ≤ r.bytes_per_pixel

-- What drawing may change: the bytes of the frame and the count of clipped writes.
pub record Draws (r s : Renderer) : Type 0 where
  pub outside : (i : ℕ) → r.frame_bytes ≤ i → s.memory i ≡ r.memory i
  pub shadow : s.shadow ≡ r.shadow
  pub frame_bytes : s.frame_bytes ≡ r.frame_bytes
  pub width : s.width ≡ r.width
  pub height : s.height ≡ r.height
  pub stride : s.stride ≡ r.stride
  pub bytes_per_pixel : s.bytes_per_pixel ≡ r.bytes_per_pixel

pub Draws-refl : (r : Renderer) → Draws r r
Draws-refl r = record {
  outside = λ i h. refl;
  shadow = refl;
  frame_bytes = refl;
  width = refl;
  height = refl;
  stride = refl;
  bytes_per_pixel = refl;
}

pub Draws-trans : (r s t : Renderer) → Draws r s → Draws s t → Draws r t
Draws-trans r s t d e = record {
  outside = λ i h. e.outside i (rw d.frame_bytes h) ∙ d.outside i h;
  shadow = e.shadow ∙ d.shadow;
  frame_bytes = e.frame_bytes ∙ d.frame_bytes;
  width = e.width ∙ d.width;
  height = e.height ∙ d.height;
  stride = e.stride ∙ d.stride;
  bytes_per_pixel = e.bytes_per_pixel ∙ d.bytes_per_pixel;
}

pub Draws-IsFit : (r s : Renderer) → Draws r s → IsFit r → IsFit s
Draws-IsFit r s d h = record {
  bytes = d.frame_bytes ∙ h.bytes ∙ sym (λ i. d.stride i * d.height i);
  high = rw d.frame_bytes h.high;
  rows = rw (d.width, d.bytes_per_pixel, d.stride) h.rows;
  deep = rw d.bytes_per_pixel h.deep;
}

-- The bytes of a pixel of the frame end before the shadow does.
pixel_ends :
    (width height stride depth x y : ℕ)
    → width * depth ≤ stride
    → x < width
    → y < height
    → y * stride + x * depth + depth ≤ stride * height
pixel_ends width height stride depth x y rows lx ly = omega (
  arith,
  mul-le-mul_right {m = suc x} {n = width} depth lx,
  mul-le-mul_right {m = suc y} {n = height} stride ly,
  rows,
)

pixel_bytes_outside :
    (depth : ℕ) (memory : ℕ → ℕ) (offset rgba i : ℕ)
    → 3 ≤ depth
    → offset + depth ≤ i
    → pixel_bytes depth memory offset rgba i ≡ memory i
unfolding pixel_bytes
pixel_bytes_outside depth memory offset rgba i h le = ground arith

put_at-Draws : (r : Renderer) (x y rgba : ℕ) → IsFit r → Draws r (put_at r x y rgba)
unfolding put_at
put_at-Draws r x y rgba h =
    let at = y * r.stride + x * r.bytes_per_pixel in
    let drawn : Renderer = record r {
      memory = pixel_bytes r.bytes_per_pixel r.memory (word at) rgba;
    } in
    if_holds (Draws r) (leb r.width x || leb r.height y) r
      (if ltb r.frame_bytes (word (word at + r.bytes_per_pixel)) then r else drawn)
      (λ e. Draws-refl r)
      (λ e.
        if_holds (Draws r) (ltb r.frame_bytes (word (word at + r.bytes_per_pixel))) r drawn
          (λ d. Draws-refl r)
          (λ d.
            let ends : at + r.bytes_per_pixel ≤ r.frame_bytes = rw h.bytes (
              pixel_ends r.width r.height r.stride r.bytes_per_pixel x y h.rows (ground arith)
                (ground arith)) in
            let small : word at ≡ at = mod-eq_of_lt (omega (arith, ends, h.high)) in
            record {
              outside = λ i le.
                  pixel_bytes_outside r.bytes_per_pixel r.memory (word at) rgba i h.deep
                    (omega (arith, ends, small, le));
              shadow = refl;
              frame_bytes = refl;
              width = refl;
              height = refl;
              stride = refl;
              bytes_per_pixel = refl;
            }))

put_pixel-Draws : (r : Renderer) (x y : ℤ) (rgba : ℕ) → IsFit r → Draws r (put_pixel r x y rgba)
unfolding put_pixel
put_pixel-Draws r x y rgba h =
    if_holds (Draws r) (ltb_ℤ x (pos 0) || ltb_ℤ y (pos 0)) r _ (λ e. Draws-refl r)
      (λ e. put_at-Draws r (pos_part x) (pos_part y) rgba h)

-- A loop whose rounds only draw only draws.
for_from-Draws :
    (left start : ℕ) (body : ℕ → Renderer → Renderer) (r : Renderer)
    → IsFit r
    → ((k : ℕ) (s : Renderer) → IsFit s → Draws s (body k s))
    → Draws r (for_from left start body r)
unfolding for_from
for_from-Draws zero start body r h keep = Draws-refl r
for_from-Draws (suc left) start body r h keep =
    let d = keep start r h in
    Draws-trans r (body start r) _ d
      (for_from-Draws left (start + 1) body (body start r) (Draws-IsFit r (body start r) d h) keep)

pub fill_rect-Draws :
    (r : Renderer) (x y w h : ℤ) (rgba : ℕ) → IsFit r → Draws r (fill_rect r x y w h rgba)
unfolding fill_rect
fill_rect-Draws r x y w h rgba f = for_from-Draws (pos_part h) 0 _ r f (λ row s g.
    for_from-Draws (pos_part w) 0 _ s g
      (λ col t k. put_pixel-Draws t (x +ℤ pos col) (y +ℤ pos row) rgba k))

pub render_rect-Draws :
    (r : Renderer) (x y w h : ℤ) (rgba : ℕ) → IsFit r → Draws r (render_rect r x y w h rgba)
unfolding render_rect
render_rect-Draws r x y w h rgba f =
    if_holds (Draws r) (leb_ℤ w (pos 0) || leb_ℤ h (pos 0)) r _ (λ e. Draws-refl r)
      (λ e.
        let clips =
          ltb_ℤ x (pos 0)
          || ltb_ℤ y (pos 0)
          || ltb_ℤ (pos r.width) (x +ℤ w)
          || ltb_ℤ (pos r.height) (y +ℤ h) in
        let counted : Renderer = record r {
          clipped_writes = if clips then word (r.clipped_writes + 1) else r.clipped_writes;
        } in
        let f' : IsFit counted = record {
          bytes = f.bytes;
          high = f.high;
          rows = f.rows;
          deep = f.deep;
        } in
        let d = fill_rect-Draws counted x y w h rgba f' in
        record {
          outside = d.outside;
          shadow = d.shadow;
          frame_bytes = d.frame_bytes;
          width = d.width;
          height = d.height;
          stride = d.stride;
          bytes_per_pixel = d.bytes_per_pixel;
        })

glyph_pixel-Draws :
    (glyph : List ℕ) (pen y : ℤ) (scale rgba gy gx : ℕ) (r : Renderer)
    → IsFit r
    → Draws r (glyph_pixel glyph pen y scale rgba gy gx r)
unfolding glyph_pixel
glyph_pixel-Draws glyph pen y scale rgba gy gx r f =
    let px = pen +ℤ wrap_int32 (pos (gx * scale)) in
    let py = y +ℤ wrap_int32 (pos (gy * scale)) in
    let side = wrap_int32 (pos scale) in
    if_holds (Draws r) (get_or glyph gy 0 / 2 ^ (7 - gx) % 2 == 0) r
      (render_rect r px py side side rgba) (λ e. Draws-refl r)
      (λ e. render_rect-Draws r px py side side rgba f)

draw_glyph-Draws :
    (glyph : List ℕ) (pen y : ℤ) (scale rgba : ℕ) (r : Renderer)
    → IsFit r
    → Draws r (draw_glyph glyph pen y scale rgba r)
unfolding draw_glyph
draw_glyph-Draws glyph pen y scale rgba r f =
    for_from-Draws 8 0 (λ gy s. for_from 8 0 (glyph_pixel glyph pen y scale rgba gy) s) r f
      (λ gy s g.
        for_from-Draws 8 0 (glyph_pixel glyph pen y scale rgba gy) s g
          (λ gx t k. glyph_pixel-Draws glyph pen y scale rgba gy gx t k))

draw_text-Draws :
    (text : List ℕ) (pen y : ℤ) (scale rgba : ℕ) (r : Renderer)
    → IsFit r
    → Draws r (draw_text text pen y scale rgba r).0
unfolding draw_text
draw_text-Draws [] pen y scale rgba r f = Draws-refl r
draw_text-Draws (c ∷ text) pen y scale rgba r f =
    let drawn = draw_glyph (glyph_of c) pen y scale rgba r in
    let d = draw_glyph-Draws (glyph_of c) pen y scale rgba r f in
    Draws-trans r drawn (draw_text text (pen +ℤ wrap_int32 (pos (9 * scale))) y scale rgba drawn).0
      d
      (draw_text-Draws text (pen +ℤ wrap_int32 (pos (9 * scale))) y scale rgba drawn
        (Draws-IsFit r drawn d f))

pub render_text-Draws :
    (r : Renderer) (x y : ℤ) (text : Option (List ℕ)) (scale rgba : ℕ)
    → IsFit r
    → Draws r (render_text r x y text scale rgba).0
unfolding render_text
render_text-Draws r x y none scale rgba f = Draws-refl r
render_text-Draws r x y (some text) scale rgba f =
    draw_text-Draws text x y (scale_of scale) rgba r f

-- Drawing a row of the dashboard, a label and its value, with any texts, at any place and scale,
-- writes no byte behind the frame, and leaves the shadow and the geometry as they are. This is so for
-- three or more bytes to a pixel and a stride that holds a row of pixels.
pub render_row-Draws :
    (r : Renderer) (x y : ℤ) (label value : Option (List ℕ)) (scale label_rgba value_rgba : ℕ)
    → IsFit r
    → Draws r (render_row r x y label value scale label_rgba value_rgba)
unfolding render_row
render_row-Draws r x y label value scale label_rgba value_rgba f =
    let s = scale_of scale in
    let first = (render_text r x y label s label_rgba).0 in
    let d = render_text-Draws r x y label s label_rgba f in
    Draws-trans r first _ d (
      render_text-Draws first (x +ℤ wrap_int32 (pos (162 * s))) y value s value_rgba
        (Draws-IsFit r first d f))
