-- ===== src/Tools/FbServe/Bitmap.antt =====
-- The bitmap of vita-fbserve.c: its header, and every pixel of every fourth row, bottom row first.
use vita_linux_next.Prelude.{
  ℕ, zero, suc, ◌+◌, ◌-◌, ◌*◌, ◌^◌, ◌≤◌, ◌<◌, ◌≡◌, refl, ◌∙◌, arith, ◌==◌, Bool-cases, inl, inr,
}
use vita_linux_next.Prelude.Loops.{for_from, for_from-keeps}
use vita_linux_next.Tools.FbServe.{
  image_width, image_height, row_bytes, bmp_bytes, put_u16, put_u32, bitmap_header, put_pixel,
  build_bitmap,
}

-- A number of four bytes, the lowest first.
abbrev pub get_u32 : ℕ → (ℕ → ℕ) → ℕ
get_u32 position memory =
    memory position
    + memory (position + 1) * 256
    + memory (position + 2) * 65_536
    + memory (position + 3) * 16_777_216

-- A number of 32 bits that is put at a position is read back from there, and the other bytes stay.
pub get_u32-put_u32 :
    (position value : ℕ) (memory : ℕ → ℕ)
    → value < 2 ^ 32
    → (get_u32 position (put_u32 position value memory) ≡ value)
      × ((i : ℕ) → i < position → put_u32 position value memory i ≡ memory i)
      × ((i : ℕ) → position + 4 ≤ i → put_u32 position value memory i ≡ memory i)
unfolding put_u32
get_u32-put_u32 position value memory h = (ground arith, λ i lt. ground arith, λ i le. ground arith)

-- The three bytes of a pixel in the frame, blue first.
abbrev pub pixel_byte : (ℕ → ℕ) → ℕ → ℕ → ℕ → ℕ
pixel_byte framebuffer y x c =
    framebuffer (((image_height - 1 - y) * 4 * 1280 + x * 4) * 4 + (2 - c))

module _ (framebuffer : ℕ → ℕ) where
  -- The first `done` pixels of row `y` are there, and what stood before the row is as it was.
  record IsRow (y : ℕ) (old : ℕ → ℕ) (count : ℕ) (memory : ℕ → ℕ) : Type 0 where
    pixels :
        (x c : ℕ)
        → x < count
        → c < 3
        → memory (54 + y * row_bytes + x * 3 + c) ≡ pixel_byte framebuffer y x c
    before : (i : ℕ) → i < 54 + y * row_bytes → memory i ≡ old i

  put_pixel_here :
      (y x : ℕ) (memory : ℕ → ℕ) (c : ℕ)
      → c < 3
      → put_pixel framebuffer y x memory (54 + y * row_bytes + x * 3 + c)
        ≡ pixel_byte framebuffer y x c
  unfolding put_pixel
  put_pixel_here y x memory zero h = ground arith
  put_pixel_here y x memory (suc zero) h = ground arith
  put_pixel_here y x memory (suc (suc zero)) h = ground arith
  put_pixel_here y x memory (suc (suc (suc c))) h = absurd (omega arith)

  put_pixel_before :
      (y x : ℕ) (memory : ℕ → ℕ) (i : ℕ)
      → i < 54 + y * row_bytes + x * 3
      → put_pixel framebuffer y x memory i ≡ memory i
  unfolding put_pixel
  put_pixel_before y x memory i h = ground arith

  put_pixel-IsRow :
      (y x : ℕ) (old memory : ℕ → ℕ)
      → IsRow y old x memory
      → IsRow y old (x + 1) (put_pixel framebuffer y x memory)
  put_pixel-IsRow y x old memory h = record {
    pixels = λ k c lt small. elim (Bool-cases (k == x)) [
      | inl e ↦ let q : k ≡ x = ground arith in rw q (put_pixel_here y x memory c small)
      | inr e ↦
          let l : k < x = ground arith in
          put_pixel_before y x memory (54 + y * row_bytes + k * 3 + c) (omega (arith, l))
          ∙ h.pixels k c l small
    ];
    before = λ i lt. put_pixel_before y x memory i (omega arith) ∙ h.before i lt;
  }

  put_pixels-IsRow :
      (y : ℕ) (old : ℕ → ℕ)
      → IsRow y old image_width (for_from image_width 0 (put_pixel framebuffer y) old)
  put_pixels-IsRow y old =
      for_from-keeps (λ (x : ℕ) (memory : ℕ → ℕ). IsRow y old x memory) (put_pixel framebuffer y)
        image_width 0 image_width old refl (λ k memory lo hi h. put_pixel-IsRow y k old memory h)
        (record { pixels = λ x c lt small. absurd (omega arith); before = λ i lt. refl })

  -- The first `done` rows are there below the header.
  record IsPicture (count : ℕ) (memory : ℕ → ℕ) : Type 0 where
    rows :
        (y x c : ℕ)
        → y < count
        → x < image_width
        → c < 3
        → memory (54 + y * row_bytes + x * 3 + c) ≡ pixel_byte framebuffer y x c
    header : (i : ℕ) → i < 54 → memory i ≡ bitmap_header i

  rows-IsPicture : IsPicture image_height (build_bitmap framebuffer)
  unfolding build_bitmap
  rows-IsPicture =
      for_from-keeps (λ (y : ℕ) (memory : ℕ → ℕ). IsPicture y memory)
        (λ y memory. for_from image_width 0 (put_pixel framebuffer y) memory) image_height 0
        image_height bitmap_header refl
        (λ k memory lo hi h.
          let r = put_pixels-IsRow k memory in
          record {
            rows = λ y x c lt wide small. elim (Bool-cases (y == k)) [
              | inl e ↦ let q : y ≡ k = ground arith in rw q (r.pixels x c wide small)
              | inr e ↦
                  let l : y < k = ground arith in
                  r.before (54 + y * row_bytes + x * 3 + c) (omega (arith, l))
                  ∙ h.rows y x c l wide small
            ];
            header = λ i lt. r.before i (omega arith) ∙ h.header i lt;
          })
        (record { rows = λ y x c lt wide small. absurd (omega arith); header = λ i lt. refl })

-- Every pixel of the bitmap is in its place: row `y` counts from the bottom of the picture, its pixel
-- `x` is the one at column `4 * x` of row `4 * (179 - y)` of the framebuffer, and its three bytes are
-- blue, green and red, which the framebuffer holds in the other order.
pub build_bitmap_pixel :
    (framebuffer : ℕ → ℕ) (y x c : ℕ)
    → y < image_height
    → x < image_width
    → c < 3
    → build_bitmap framebuffer (54 + y * row_bytes + x * 3 + c)
      ≡ framebuffer (((179 - y) * 4 * 1280 + x * 4) * 4 + (2 - c))
build_bitmap_pixel framebuffer y x c low wide small =
    (rows-IsPicture framebuffer).rows y x c low wide small

get_u32_same :
    (position stop : ℕ) (a b : ℕ → ℕ)
    → position + 4 ≤ stop
    → ((i : ℕ) → i < stop → a i ≡ b i)
    → get_u32 position a ≡ get_u32 position b
get_u32_same position stop a b fits h = omega (
  arith,
  h position (omega arith),
  h (position + 1) (omega arith),
  h (position + 2) (omega arith),
  h (position + 3) (omega arith),
)

-- The header of a bitmap, whatever the frame: the marks B and M, the size of the file, the start of
-- the pixels, the width, the height, and the size of the picture.
pub build_bitmap_header :
    (framebuffer : ℕ → ℕ)
    → let bitmap = build_bitmap framebuffer in
      (bitmap 0 ≡ 66)
      × (bitmap 1 ≡ 77)
      × (get_u32 2 bitmap ≡ bmp_bytes)
      × (get_u32 10 bitmap ≡ 54)
      × (get_u32 18 bitmap ≡ image_width)
      × (get_u32 22 bitmap ≡ image_height)
      × (get_u32 34 bitmap ≡ row_bytes * image_height)
unfolding bitmap_header put_u16 put_u32
build_bitmap_header framebuffer =
    let same = (rows-IsPicture framebuffer).header in
    let read = λ (d : ℕ) (fits : d + 4 ≤ 54).
      get_u32_same d 54 (build_bitmap framebuffer) bitmap_header fits same in
    (
      same 0 (omega arith),
      same 1 (omega arith),
      read 2 (omega arith),
      read 10 (omega arith),
      read 18 (omega arith),
      read 22 (omega arith),
      read 34 (omega arith),
    )
