-- ===== src/Presentation.antt =====
-- cart/src/presentation.c: a logical frame of 320 by 180 words is enlarged four times in both
-- directions into the framebuffer, one output row at a time.
pub mod Tests
use vita_linux_next.Prelude.{
  ℕ, suc, ◌+◌, ◌-◌, ◌*◌, ◌/◌, ◌%◌, ◌≤◌, ◌<◌, ◌≡◌, refl, ◌∙◌, ap, arith, Bool, ltb, leb, ◌==◌, ◌&&◌,
  if◌then◌else◌,
}
use vita_linux_next.Prelude.Loops.{for_from, for_from-keeps}

abbrev logical_width : ℕ
logical_width = 320

abbrev logical_height : ℕ
logical_height = 180

abbrev scale : ℕ
scale = 4

abbrev framebuffer_width : ℕ
framebuffer_width = 1280

abbrev pub Words : Type 0
Words = ℕ → ℕ

-- `row[x * SCALE + k] = logical[y * WIDTH + x]` for every `x` and `k`.
unfoldable pub widen : Words → ℕ → Words → Words
widen logical y row =
    for_from logical_width 0
      (λ x r.
        for_from scale 0
          (λ k s a. if a == x * scale + k then logical (y * logical_width + x) else s a) r)
      row

-- `memcpy(to + offset, from, n * sizeof(*from))`.
abbrev pub copy : ℕ → ℕ → Words → Words → Words
copy offset n from to a = if leb offset a && ltb a (offset + n) then from (a - offset) else to a

-- The scratch row and the framebuffer.
pub record Screen : Type 0 where
  pub row : Words
  pub framebuffer : Words

unfoldable pub put_line : Words → ℕ → Screen → Screen
put_line logical y s =
    let row = widen logical y s.row in
    record {
      row = row;
      framebuffer =
          for_from scale 0
            (λ k fb. copy ((y * scale + k) * framebuffer_width) framebuffer_width row fb)
            s.framebuffer;
    }

unfoldable pub upscale : Words → Screen → Screen
upscale logical s = for_from logical_height 0 (put_line logical) s

widen_lem :
    (logical row : Words) (y a : ℕ)
    → a < framebuffer_width
    → widen logical y row a ≡ logical (y * logical_width + a / scale)
unfolding widen
widen_lem logical row y a h =
    for_from-keeps
      (λ x (r : Words). (b : ℕ) → b < x * 4 → r b ≡ logical (y * logical_width + b / 4)) _ 320 0 320
      row (omega arith)
      (λ x r _ _ before b lt.
        for_from-keeps
          (λ k (s : Words). (c : ℕ) → c < x * 4 + k → s c ≡ logical (y * logical_width + c / 4)) _ 4
          0 4 r (omega arith) (λ k s _ k4 prior c below. ground (arith, prior c, quarter x k c))
          (λ c below. before c (omega arith)) b (omega arith))
      (λ b lt. absurd (omega arith)) a (omega arith)
  where
    quarter : (x k c : ℕ) → k < 4 → c ≡ x * 4 + k → c / 4 ≡ x
    quarter x k c hk e = omega arith

-- What the framebuffer is to show at index `a`.
abbrev enlarged : Words → ℕ → ℕ
enlarged logical a =
    logical (a / framebuffer_width / scale * logical_width + a % framebuffer_width / scale)

-- The lines so far, down to output row `n`.
Shown : Words → ℕ → ℕ → Words → Words → Type 0
Shown logical first n before fb =
    (a : ℕ) → fb a ≡ (if leb first a && ltb a (n * 1280) then enlarged logical a else before a)

on_line :
    (logical : Words) (y k a : ℕ)
    → k < 4
    → (y * 4 + k) * 1280 ≤ a
    → a < (y * 4 + k) * 1280 + 1280
    → logical (y * 320 + (a - (y * 4 + k) * 1280) / 4) ≡ enlarged logical a
on_line logical y k a hk lo hi =
    let line : a / 1280 ≡ y * 4 + k = omega arith in
    let rest : a % 1280 ≡ a - (y * 4 + k) * 1280 = omega arith in
    rw (line, rest) (ap (λ v. logical (v * 320 + (a - (y * 4 + k) * 1280) / 4)) (omega arith))

copy_line :
    (logical row before fb : Words) (y k : ℕ)
    → k < 4
    → ((b : ℕ) → b < 1280 → row b ≡ logical (y * 320 + b / 4))
    → Shown logical (y * 5120) (y * 4 + k) before fb
    → Shown logical (y * 5120) (y * 4 + (k + 1)) before (copy ((y * 4 + k) * 1280) 1280 row fb)
unfolding Shown
copy_line logical row before fb y k hk wide shown a =
    ground (arith, shown a, wide (a - (y * 4 + k) * 1280), on_line logical y k a hk)

put_line_lem :
    (logical : Words) (y : ℕ) (s : Screen)
    → Shown logical (y * 5120) (y * 4 + 4) s.framebuffer (put_line logical y s).framebuffer
unfolding put_line
put_line_lem logical y s =
    for_from-keeps (λ k fb. Shown logical (y * 5120) (y * 4 + k) s.framebuffer fb) _ 4 0 4
      s.framebuffer (omega arith)
      (λ k fb _ hk.
        copy_line logical (widen logical y s.row) s.framebuffer fb y k hk
          (widen_lem logical s.row y))
      start
  where
    start : Shown logical (y * 5120) (y * 4 + 0) s.framebuffer s.framebuffer
    start = unfold Shown in λ a. ground arith

upscale_step :
    (logical before : Words) (y : ℕ) (s : Screen)
    → Shown logical 0 (y * 4) before s.framebuffer
    → Shown logical 0 ((y + 1) * 4) before (put_line logical y s).framebuffer
unfolding Shown
upscale_step logical before y s h a = ground (arith, h a, put_line_lem logical y s a)

-- After `cart_presentation_upscale` every one of the 1280 by 720 words of the framebuffer shows the
-- word of the logical frame that covers it, whatever the scratch row held, and no word beyond them
-- is written.
pub upscale_lem :
    (logical : Words) (s : Screen) (a : ℕ)
    → (upscale logical s).framebuffer a ≡ (
        if ltb a (1280 * 720) then logical (a / 1280 / 4 * 320 + a % 1280 / 4) else s.framebuffer a)
unfolding upscale Shown
upscale_lem logical s a =
    for_from-keeps (λ y (t : Screen). Shown logical 0 (y * 4) s.framebuffer t.framebuffer) _ 180 0
      180 s (omega arith) (λ y t _ _. upscale_step logical s.framebuffer y t) (λ b. ground arith) a
    ∙ ground arith
