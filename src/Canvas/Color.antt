-- ===== src/Canvas/Color.antt =====
-- The colours of cart/src/canvas.c: red in the low byte, then green, blue and an opaque alpha.
use Prim.Native.Nat.{bit_or, min, max}
use vita_linux_next.Prelude.{
  ℕ, zero, suc, ◌+◌, ◌-◌, ◌*◌, ◌/◌, ◌%◌, ◌^◌, ◌≤◌, ◌≡◌, refl, arith, ltb, leb, if◌then◌else◌, inl,
  inr, Bool-cases, tests, sym, ◌∙◌, ap,
}
use vita_linux_next.Prelude.Int.{ℤ, pos, negsuc, ◌+ℤ◌, ◌-ℤ◌, ◌*ℤ◌, shr_ℤ}
use vita_linux_next.Prelude.Bits.{bit_or_disjoint}

unfoldable pub clamp_channel : ℤ → ℕ
clamp_channel (pos n) = if ltb 255 n then 255 else n
clamp_channel (negsuc n) = 0

unfoldable pub rgba : ℤ → ℤ → ℤ → ℕ
unfolding clamp_channel
rgba red green blue =
    bit_or
      (bit_or (bit_or (clamp_channel red) (clamp_channel green * 2 ^ 8))
        (clamp_channel blue * 2 ^ 16))
      0xff000000

abbrev pub red_of : ℕ → ℕ
red_of color = color % 2 ^ 8

abbrev pub green_of : ℕ → ℕ
green_of color = (color / 2 ^ 8) % 2 ^ 8

abbrev pub blue_of : ℕ → ℕ
blue_of color = (color / 2 ^ 16) % 2 ^ 8

abbrev pub alpha_of : ℕ → ℕ
alpha_of color = color / 2 ^ 24

-- `from + ((to - from) * amount >> 8)`, where `>>` of a negative number rounds down.
unfoldable pub mix_channel : ℕ → ℕ → ℕ → ℤ
mix_channel from to amount = pos from +ℤ shr_ℤ ((pos to -ℤ pos from) *ℤ pos amount) 8

unfoldable pub mix : ℕ → ℕ → ℕ → ℕ
mix from to weight =
    let amount = if ltb 256 weight then 256 else weight in
    rgba (mix_channel (red_of from) (red_of to) amount)
      (mix_channel (green_of from) (green_of to) amount)
      (mix_channel (blue_of from) (blue_of to) amount)

clamp_channel-le : (v : ℤ) → clamp_channel v ≤ 255
unfolding clamp_channel
clamp_channel-le (pos n) = ground arith
clamp_channel-le (negsuc n) = omega arith

-- The bytes are disjoint, so `|` adds them.
pub rgba_sum :
    (r g b : ℤ)
    → rgba r g b ≡ clamp_channel r + clamp_channel g * 256 + clamp_channel b * 65536 + 0xff000000
unfolding rgba
rgba_sum r g b =
    let lr = clamp_channel-le r in
    let lg = clamp_channel-le g in
    let lb = clamp_channel-le b in
    rw
      (
        bit_or_disjoint 8 (clamp_channel r) (clamp_channel g) (omega arith),
        bit_or_disjoint 16 (clamp_channel r + clamp_channel g * 2 ^ 8) (clamp_channel b)
            (omega arith),
        bit_or_disjoint 24 (clamp_channel r + clamp_channel g * 2 ^ 8 + clamp_channel b * 2 ^ 16)
            255 (omega arith),
      )
      refl

-- The three channels and the alpha of a packed colour, whatever integers went in.
pub rgba_channels :
    (r g b : ℤ)
    → (red_of (rgba r g b) ≡ clamp_channel r)
      × (green_of (rgba r g b) ≡ clamp_channel g)
      × (blue_of (rgba r g b) ≡ clamp_channel b)
      × (alpha_of (rgba r g b) ≡ 255)
rgba_channels r g b =
    let lr = clamp_channel-le r in
    let lg = clamp_channel-le g in
    let lb = clamp_channel-le b in
    let e = rgba_sum r g b in
    (
      omega (arith, lr, lg, lb, e),
      omega (arith, lr, lg, lb, e),
      omega (arith, lr, lg, lb, e),
      omega (arith, lr, lg, lb, e),
    )

-- A channel of `mix` with the signs gone: up from `from` by a floor, down from it by a ceiling.
abbrev pub mixed : ℕ → ℕ → ℕ → ℕ
mixed from to amount =
    if leb from to
    then from + (to - from) * amount / 256
    else from - ((from - to) * amount + 255) / 256

-- The steps of the signed computation.
sub_up : (from d : ℕ) → pos (from + d) -ℤ pos from ≡ pos d
unfolding ◌-ℤ◌
sub_up from d = ground arith

sub_down : (to d : ℕ) → pos to -ℤ pos (to + suc d) ≡ negsuc d
unfolding ◌-ℤ◌
sub_down to d = ground arith

mul_up : (d a : ℕ) → pos d *ℤ pos a ≡ pos (d * a)
unfolding ◌*ℤ◌
mul_up d a = ground arith

mul_down : (d a : ℕ) → negsuc d *ℤ pos (suc a) ≡ negsuc (suc d * suc a - 1)
unfolding ◌*ℤ◌
mul_down d a = ground arith

add_up : (a b : ℕ) → pos a +ℤ pos b ≡ pos (a + b)
unfolding ◌+ℤ◌
add_up a b = ground arith

add_down : (a q : ℕ) → suc q ≤ a → pos a +ℤ negsuc q ≡ pos (a - suc q)
unfolding ◌+ℤ◌
add_down a q h = ground arith

mix_channel-up :
    (from d amount : ℕ) → mix_channel from (from + d) amount ≡ pos (from + d * amount / 256)
unfolding mix_channel
mix_channel-up from d amount = rw (sub_up from d, mul_up d amount, add_up from (d * amount / 2 ^ 8))

mix_channel-down :
    (to d a : ℕ)
    → suc a ≤ 256
    → mix_channel (to + suc d) to (suc a) ≡ pos (to + suc d - (suc d * suc a + 255) / 256)
unfolding mix_channel
mix_channel-down to d a h =
    let room : suc ((suc d * suc a - 1) / 256) ≤ to + suc d = omega (arith, bound) in
    rw (sub_down to d, mul_down d a, add_down (to + suc d) ((suc d * suc a - 1) / 2 ^ 8) room)
      (ap pos (omega (arith, bound)))
  where
    bound : suc d * suc a ≤ suc d * 256
    bound = grind arith

mixed-zero : (from to : ℕ) → mixed from to 0 ≡ from
mixed-zero from to = ground arith

mix_channel-zero : (from to : ℕ) → mix_channel from to 0 ≡ pos from
unfolding mix_channel ◌+ℤ◌ ◌*ℤ◌ ◌-ℤ◌
mix_channel-zero from to = ground arith

-- `cart_mix` on one channel: up from `from` rounding down, or down from it rounding up.
mix_channel-mixed :
    (from to amount : ℕ) → amount ≤ 256 → mix_channel from to amount ≡ pos (mixed from to amount)
mix_channel-mixed from to zero a = mix_channel-zero from to ∙ ap pos (sym (mixed-zero from to))
mix_channel-mixed from to (suc k) a = elim (Bool-cases (leb from to)) [
  | inl up ↦
      let e : from + (to - from) ≡ to = omega tests in
      let h = rw e at (mix_channel-up from (to - from) (suc k)) in rw up h
  | inr down ↦
      let gap : suc (from - to - 1) ≡ from - to = omega tests in
      let e : to + suc (from - to - 1) ≡ from = omega tests in
      let h = rw e at (mix_channel-down to (from - to - 1) k a) in
      rw down (h ∙ ap (λ d. pos (from - (d * suc k + 255) / 256)) gap)
]

-- Weights between the ends keep a channel between its ends.
pub mixed-between :
    (from to amount : ℕ)
    → amount ≤ 256
    → (min from to ≤ mixed from to amount) × (mixed from to amount ≤ max from to)
mixed-between from to amount a =
    let up : (to - from) * amount ≤ (to - from) * 256 = grind arith in
    let down : (from - to) * amount ≤ (from - to) * 256 = grind arith in ground (arith, up, down)

pub mixed-full : (from to : ℕ) → mixed from to 256 ≡ to
mixed-full from to = ground arith

pub mixed-toward :
    (from to v w : ℕ)
    → v ≤ w
    → w ≤ 256
    → (from ≤ to → mixed from to v ≤ mixed from to w)
      × (to ≤ from → mixed from to w ≤ mixed from to v)
mixed-toward from to v w h a =
    let up : (to - from) * v ≤ (to - from) * w = grind arith in
    let down : (from - to) * v ≤ (from - to) * w = grind arith in
    (λ p. ground (arith, up, down), λ p. ground (arith, up, down))

-- A channel of the mix, with the clamp of the weight and of the channel gone.
clamped-mixed :
    (from to amount : ℕ)
    → from ≤ 255
    → to ≤ 255
    → amount ≤ 256
    → clamp_channel (mix_channel from to amount) ≡ mixed from to amount
unfolding clamp_channel
clamped-mixed from to amount f t a =
    rw (mix_channel-mixed from to amount a) (ground (arith, mixed-between from to amount a))

abbrev pub weight_of : ℕ → ℕ
weight_of weight = if ltb 256 weight then 256 else weight

-- `cart_mix` channel by channel.
pub mix_channels :
    (from to weight : ℕ)
    → (red_of (mix from to weight) ≡ mixed (red_of from) (red_of to) (weight_of weight))
      × (green_of (mix from to weight) ≡ mixed (green_of from) (green_of to) (weight_of weight))
      × (blue_of (mix from to weight) ≡ mixed (blue_of from) (blue_of to) (weight_of weight))
      × (alpha_of (mix from to weight) ≡ 255)
unfolding mix
mix_channels from to weight =
    let w = weight_of weight in
    let small : w ≤ 256 = ground arith in
    let r = mix_channel (red_of from) (red_of to) w in
    let g = mix_channel (green_of from) (green_of to) w in
    let b = mix_channel (blue_of from) (blue_of to) w in
    let c = rgba_channels r g b in
    (
      c.0 ∙ clamped-mixed (red_of from) (red_of to) w (omega arith) (omega arith) small,
      c.1 ∙ clamped-mixed (green_of from) (green_of to) w (omega arith) (omega arith) small,
      c.2 ∙ clamped-mixed (blue_of from) (blue_of to) w (omega arith) (omega arith) small,
      c.3,
    )
