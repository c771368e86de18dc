-- ===== src/Dashboard/Render.antt =====
-- render.c and render.h of toolkit/examples/vita-dashboard/src: drawing into a shadow of the frame. The
-- memory is addressed from the start of the shadow, and `malloc` is a parameter.
pub mod Inside
pub mod Shadow
use vita_linux_next.Prelude.{
  ℕ, zero, suc, ◌+◌, ◌-◌, ◌*◌, ◌/◌, ◌%◌, ◌^◌, ◌≤◌, ◌<◌, ◌≡◌, refl, Bool, true, false, not, ◌&&◌,
  ◌||◌, List, [], ◌∷◌, Option, none, some, ltb, leb, ◌==◌, if◌then◌else◌, Status, ok, fail, get_or,
}
use vita_linux_next.Prelude.Int.{ℤ, pos, ◌+ℤ◌, ◌-ℤ◌, ltb_ℤ, leb_ℤ, pos_part}
use vita_linux_next.Prelude.Loops.{for_from}
use vita_linux_next.Input.Probe.{wrap_int32}
use vita_linux_next.Dashboard.Owner.{word, max_frame_bytes}
use vita_linux_next.Dashboard.Font.{font8x8}

-- `struct renderer`; `shadow` says whether it is a pointer to `memory` or NULL.
pub record Renderer : Type 0 where
  pub shadow : Bool
  pub memory : ℕ → ℕ
  pub frame_bytes : ℕ
  pub width : ℕ
  pub height : ℕ
  pub stride : ℕ
  pub bytes_per_pixel : ℕ
  pub clipped_writes : ℕ

abbrev pub cleared : Renderer → Renderer
cleared r = record {
  shadow = false;
  memory = r.memory;
  frame_bytes = 0;
  width = 0;
  height = 0;
  stride = 0;
  bytes_per_pixel = 0;
  clipped_writes = 0;
}

-- The allocation of `render_init` and what follows it. `granted` is the answer of `malloc`.
unfoldable pub allocate : Bool → Renderer → ℕ → ℕ → ℕ → ℕ → Renderer × Status
allocate granted r width height bytes pitch =
    let size = word (pitch * height) in
    if size == 0 || ltb max_frame_bytes size
    then (record r { frame_bytes = size }, fail)
    else if not granted
    then (record r { frame_bytes = 0 }, fail)
    else (
      record r {
        shadow = true;
        memory = λ i. if ltb i size then 0 else r.memory i;
        frame_bytes = size;
        width = width;
        height = height;
        stride = pitch;
        bytes_per_pixel = bytes;
      },
      ok,
    )

-- `render_init`.
unfoldable pub render_init : Bool → Renderer → ℕ → ℕ → ℕ → ℕ → Renderer × Status
unfolding allocate
render_init granted r width height bpp stride =
    let packed = word (width * (bpp / 8)) in
    let pitch = if stride == 0 then packed else stride in
    if width == 0 || height == 0 || bpp == 0 || not (bpp % 8 == 0)
    then (cleared r, fail)
    else if ltb pitch packed
    then (cleared r, fail)
    else allocate granted (cleared r) width height (bpp / 8) pitch

unfoldable pub render_free : Renderer → Renderer
render_free r = record r { shadow = false; frame_bytes = 0 }

abbrev pub store_at : (ℕ → ℕ) → ℕ → ℕ → (ℕ → ℕ)
store_at memory offset value i = if i == offset then value else memory i

-- The bytes of one pixel.
unfoldable pub pixel_bytes : ℕ → (ℕ → ℕ) → ℕ → ℕ → (ℕ → ℕ)
pixel_bytes depth memory offset rgba =
    let red = store_at memory offset (rgba / 2 ^ 24 % 256) in
    let green = store_at red (offset + 1) (rgba / 2 ^ 16 % 256) in
    let blue = store_at green (offset + 2) (rgba / 2 ^ 8 % 256) in
    if leb 4 depth then store_at blue (offset + 3) (rgba % 256) else blue

-- `put_pixel` past its first test.
unfoldable pub put_at : Renderer → ℕ → ℕ → ℕ → Renderer
unfolding pixel_bytes
put_at r x y rgba =
    let offset = word (y * r.stride + x * r.bytes_per_pixel) in
    if leb r.width x || leb r.height y
    then r
    else if ltb r.frame_bytes (word (offset + r.bytes_per_pixel))
    then r
    else record r { memory = pixel_bytes r.bytes_per_pixel r.memory offset rgba }

-- `put_pixel`.
unfoldable pub put_pixel : Renderer → ℤ → ℤ → ℕ → Renderer
unfolding put_at
put_pixel r x y rgba =
    if ltb_ℤ x (pos 0) || ltb_ℤ y (pos 0) then r else put_at r (pos_part x) (pos_part y) rgba

-- The two loops of `render_rect`.
unfoldable pub fill_rect : Renderer → ℤ → ℤ → ℤ → ℤ → ℕ → Renderer
unfolding put_pixel for_from
fill_rect r x y w h rgba =
    for_from (pos_part h) 0
      (λ row s. for_from (pos_part w) 0 (λ col t. put_pixel t (x +ℤ pos col) (y +ℤ pos row) rgba) s)
      r

-- `render_rect`.
unfoldable pub render_rect : Renderer → ℤ → ℤ → ℤ → ℤ → ℕ → Renderer
unfolding fill_rect
render_rect r x y w h rgba =
    if leb_ℤ w (pos 0) || leb_ℤ h (pos 0)
    then r
    else let clips =
        ltb_ℤ x (pos 0)
        || ltb_ℤ y (pos 0)
        || ltb_ℤ (pos r.width) (x +ℤ w)
        || ltb_ℤ (pos r.height) (y +ℤ h) in
      fill_rect
        (record r {
          clipped_writes = if clips then word (r.clipped_writes + 1) else r.clipped_writes;
        })
        x y w h rgba

unfoldable pub render_clear : Renderer → ℕ → Renderer
unfolding render_rect
render_clear r rgba =
    render_rect r (pos 0) (pos 0) (wrap_int32 (pos r.width)) (wrap_int32 (pos r.height)) rgba

-- The eight rows of a character.
unfoldable pub glyph_of : ℕ → List ℕ
unfolding font8x8
glyph_of c = get_or font8x8 ((if ltb c 32 || ltb 126 c then 63 else c) - 32) []

-- One pixel of a character, as a square of `scale` pixels.
unfoldable pub glyph_pixel : List ℕ → ℤ → ℤ → ℕ → ℕ → ℕ → ℕ → Renderer → Renderer
unfolding render_rect
glyph_pixel glyph pen y scale rgba gy gx r =
    if get_or glyph gy 0 / 2 ^ (7 - gx) % 2 == 0
    then r
    else render_rect r (pen +ℤ wrap_int32 (pos (gx * scale))) (y +ℤ wrap_int32 (pos (gy * scale)))
        (wrap_int32 (pos scale)) (wrap_int32 (pos scale)) rgba

-- One character at the pen.
unfoldable pub draw_glyph : List ℕ → ℤ → ℤ → ℕ → ℕ → Renderer → Renderer
unfolding glyph_pixel
draw_glyph glyph pen y scale rgba r =
    for_from 8 0 (λ gy s. for_from 8 0 (glyph_pixel glyph pen y scale rgba gy) s) r

-- The loop of `render_text` over the characters, with the pen.
unfoldable pub draw_text : List ℕ → ℤ → ℤ → ℕ → ℕ → Renderer → Renderer × ℤ
unfolding draw_glyph glyph_of
draw_text [] pen y scale rgba r = (r, pen)
draw_text (c ∷ text) pen y scale rgba r =
    draw_text text (pen +ℤ wrap_int32 (pos (9 * scale))) y scale rgba
      (draw_glyph (glyph_of c) pen y scale rgba r)

abbrev pub scale_of : ℕ → ℕ
scale_of scale = if scale == 0 then 1 else scale

-- `render_text`: the advance is the second part.
unfoldable pub render_text : Renderer → ℤ → ℤ → Option (List ℕ) → ℕ → ℕ → Renderer × ℤ
unfolding draw_text
render_text r x y none scale rgba = (r, pos 0)
render_text r x y (some text) scale rgba =
    let (drawn, pen) = draw_text text x y (scale_of scale) rgba r in (drawn, pen -ℤ x)

-- `render_row`: a label, and a value in a fixed column.
unfoldable pub render_row :
    Renderer → ℤ → ℤ → Option (List ℕ) → Option (List ℕ) → ℕ → ℕ → ℕ → Renderer
unfolding render_text
render_row r x y label value scale label_rgba value_rgba =
    let s = scale_of scale in
    (render_text (render_text r x y label s label_rgba).0 (x +ℤ wrap_int32 (pos (162 * s))) y value
      s value_rgba).0
