-- ===== src/Dashboard/Render/Shadow.antt =====
-- The shadow that render.c allocates for a probed framebuffer, the length of a text, and what a frame
-- with fewer than three bytes to a pixel leads to.
use native.Mathlib.Nat.{mod-eq_of_lt, mul-suc, zero-mul, suc-mul, mul_comm}
use vita_linux_next.Prelude.{
  ℕ, zero, suc, ◌+◌, ◌-◌, ◌*◌, ◌/◌, ◌%◌, ◌^◌, ◌≤◌, ◌<◌, ◌≡◌, refl, sym, ap, ◌∙◌, true, false, not,
  ◌||◌, List, [], ◌∷◌, some, arith, ltb, leb, ◌==◌, ok, length,
}
use vita_linux_next.Prelude.Int.{ℤ, pos, ◌+ℤ◌, ltb_ℤ, +ℤ_comm, +ℤ_cancel}
use vita_linux_next.Input.Probe.{wrap_int32, wrap_int32_small}
use vita_linux_next.Dashboard.Owner.{word, max_frame_bytes}
use vita_linux_next.Dashboard.Owner.Geometry.{IsUsable}
use vita_linux_next.Dashboard.Render.{
  Renderer, pixel_bytes, put_at, put_pixel, allocate, render_init, draw_text, draw_glyph, glyph_of,
  render_text, scale_of,
}

-- A shadow for a frame: as long as the frame, and blank.
pub record Blank (w h bits pitch bytes : ℕ) (r : Renderer) : Type 0 where
  pub there : r.shadow ≡ true
  pub size : r.frame_bytes ≡ bytes
  pub wide : r.width ≡ w
  pub tall : r.height ≡ h
  pub row : r.stride ≡ pitch
  pub depth : r.bytes_per_pixel ≡ bits / 8
  pub empty : (i : ℕ) → i < bytes → r.memory i ≡ 0

pitch_nonzero : (pitch h bytes : ℕ) → bytes ≡ word (pitch * h) → 0 < bytes → (pitch == 0) ≡ false
pitch_nonzero zero h bytes size low =
    absurd (let e : 0 * h ≡ 0 = zero-mul h in omega (arith, size, e))
pitch_nonzero (suc pitch) h bytes size low = ground arith

-- For every geometry that a probe accepts, the shadow is made if `malloc` gives memory. It is blank
-- and has exactly the bytes that `fb_owner_write_frame` asks for.
pub render_init-Blank :
    (r : Renderer) (w h bits pitch bytes : ℕ)
    → IsUsable w h bits pitch bytes
    → ((render_init true r w h bits pitch).1 ≡ ok)
      × Blank w h bits pitch bytes (render_init true r w h bits pitch).0
unfolding render_init allocate
render_init-Blank r w h bits pitch bytes u =
    let a : (w == 0 || h == 0 || bits == 0 || not (bits % 8 == 0)) ≡ false =
      ground (arith, u.wide, u.tall, u.deep, u.whole) in
    let b : (pitch == 0) ≡ false = pitch_nonzero pitch h bytes u.size u.low in
    let c : ltb pitch (word (w * (bits / 8))) ≡ false = ground (arith, u.rows) in
    let d : (word (pitch * h) == 0 || ltb max_frame_bytes (word (pitch * h))) ≡ false =
      ground (arith, u.size, u.low, u.high) in
    rw (a, b, c, d)
      (
        refl,
        record {
          there = refl;
          size = sym u.size;
          wide = refl;
          tall = refl;
          row = refl;
          depth = refl;
          empty = λ i lt. ground (arith, u.size);
        },
      )

+ℤ_zero : (a : ℤ) → a +ℤ pos 0 ≡ a
unfolding ◌+ℤ◌
+ℤ_zero a = ground arith

pen_step : (pen : ℤ) (k l : ℕ) → pen +ℤ pos k +ℤ pos (k * l) ≡ pen +ℤ pos (k * suc l)
unfolding ◌+ℤ◌
pen_step pen k l = let e : k * suc l ≡ k + k * l = omega (arith, mul-suc k l) in rw e (ground arith)

draw_text_pen :
    (text : List ℕ) (pen y : ℤ) (scale rgba : ℕ) (r : Renderer)
    → 9 * scale < 2 ^ 31
    → (draw_text text pen y scale rgba r).1 ≡ pen +ℤ pos (9 * scale * length text)
unfolding draw_text
draw_text_pen [] pen y scale rgba r h =
    let e : 9 * scale * 0 ≡ 0 = omega arith in rw e (sym (+ℤ_zero pen))
draw_text_pen (c ∷ text) pen y scale rgba r h =
    draw_text_pen text (pen +ℤ wrap_int32 (pos (9 * scale))) y scale rgba
      (draw_glyph (glyph_of c) pen y scale rgba r) h
    ∙ rw (wrap_int32_small (9 * scale) h) (pen_step pen (9 * scale) (length text))

-- Unless the step of a character is too long for an `int`, a text advances by nine times the scale for
-- each of its characters, drawable or not; the scale 0 counts as 1.
pub render_text_advance :
    (r : Renderer) (x y : ℤ) (text : List ℕ) (scale rgba : ℕ)
    → 9 * scale_of scale < 2 ^ 31
    → (render_text r x y (some text) scale rgba).1 ≡ pos (9 * scale_of scale * length text)
unfolding render_text
render_text_advance r x y text scale rgba h =
    let k = 9 * scale_of scale * length text in
    rw (draw_text_pen text x y (scale_of scale) rgba r h, +ℤ_comm x (pos k)) (+ℤ_cancel (pos k) x)

pixel_bytes_blue :
    (depth : ℕ) (memory : ℕ → ℕ) (offset rgba : ℕ)
    → depth < 3
    → pixel_bytes depth memory offset rgba (offset + 2) ≡ rgba / 2 ^ 8 % 256
unfolding pixel_bytes
pixel_bytes_blue depth memory offset rgba h = ground arith

put_at_overrun :
    (r : Renderer) (x y rgba : ℕ)
    → r.frame_bytes ≡ r.stride * r.height
    → r.frame_bytes ≤ max_frame_bytes
    → r.stride ≡ r.width * r.bytes_per_pixel
    → r.width ≡ suc x
    → r.height ≡ suc y
    → r.bytes_per_pixel < 3
    → (put_at r x y rgba).memory (r.frame_bytes + (2 - r.bytes_per_pixel)) ≡ rgba / 2 ^ 8 % 256
unfolding put_at
put_at_overrun r x y rgba bytes high rows wide tall deep =
    let at = y * r.stride + x * r.bytes_per_pixel in
    let row : r.stride ≡ x * r.bytes_per_pixel + r.bytes_per_pixel =
      rows ∙ ap (λ (n : ℕ). n * r.bytes_per_pixel) wide ∙ suc-mul x r.bytes_per_pixel in
    let all : r.stride * r.height ≡ y * r.stride + r.stride =
      ap (λ (n : ℕ). r.stride * n) tall ∙ mul_comm r.stride (suc y) ∙ suc-mul y r.stride in
    let end : at + r.bytes_per_pixel ≡ r.frame_bytes = omega (arith, row, all, bytes) in
    let small : word at ≡ at = mod-eq_of_lt (omega (arith, end, high)) in
    let fits : ltb r.frame_bytes (word (at + r.bytes_per_pixel)) ≡ false = ground (arith, end) in
    let inside : (leb r.width x || leb r.height y) ≡ false = ground (arith, wide, tall) in
    let spot : r.frame_bytes + (2 - r.bytes_per_pixel) ≡ at + 2 = omega (arith, end) in
    rw inside (rw (small, fits, spot) (pixel_bytes_blue r.bytes_per_pixel r.memory at rgba deep))

-- With one or two bytes to a pixel and rows without padding, drawing the last pixel stores its blue
-- byte behind the shadow: the guard of `put_pixel` counts the bytes of a pixel, but three are stored.
pub put_pixel_overrun :
    (r : Renderer) (rgba : ℕ)
    → r.frame_bytes ≡ r.stride * r.height
    → r.frame_bytes ≤ max_frame_bytes
    → r.stride ≡ r.width * r.bytes_per_pixel
    → 0 < r.width
    → 0 < r.height
    → 0 < r.bytes_per_pixel
    → r.bytes_per_pixel < 3
    → (put_pixel r (pos (r.width - 1)) (pos (r.height - 1)) rgba).memory
        (r.frame_bytes + (2 - r.bytes_per_pixel))
      ≡ rgba / 2 ^ 8 % 256
unfolding put_pixel
put_pixel_overrun r rgba bytes high rows wide tall low deep =
    let right : (ltb_ℤ (pos (r.width - 1)) (pos 0) || ltb_ℤ (pos (r.height - 1)) (pos 0)) ≡ false =
      ground arith in
    rw right (
      put_at_overrun r (r.width - 1) (r.height - 1) rgba bytes high rows (omega (arith, wide))
        (omega (arith, tall)) deep)
