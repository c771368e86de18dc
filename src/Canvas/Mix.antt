-- ===== src/Canvas/Mix.antt =====
-- `cart_mix` as a whole colour: where the mix lies, and how far a change of the weight moves it.
use Prim.Native.Nat.{min, max}
use vita_linux_next.Prelude.{ℕ, ◌+◌, ◌-◌, ◌*◌, ◌/◌, ◌%◌, ◌^◌, ◌≤◌, ◌≡◌, arith, ap, ◌∙◌}
use native.Mathlib.Nat.{mul-add, mul-le-mul_right}
use vita_linux_next.Canvas.Color.{
  red_of, green_of, blue_of, alpha_of, mix, mixed, mixed-between, mixed-toward, mix_channels,
  weight_of,
}

-- A statement of each of the three channels.
abbrev pub EachChannel : ((ℕ → ℕ) → Type 0) → Type 0
EachChannel P = P red_of × P green_of × P blue_of

weight_of-le : (w : ℕ) → weight_of w ≤ 256
weight_of-le w = ground arith

color_parts : (c : ℕ) → c ≡ red_of c + green_of c * 2 ^ 8 + blue_of c * 2 ^ 16 + alpha_of c * 2 ^ 24
color_parts c = omega arith

pub color_ext :
    (c d : ℕ)
    → red_of c ≡ red_of d
    → green_of c ≡ green_of d
    → blue_of c ≡ blue_of d
    → alpha_of c ≡ alpha_of d
    → c ≡ d
color_ext c d r g b a = omega (arith, color_parts c, color_parts d)

-- Whatever the two colours and the weight, every channel of the mix lies between the channels of
-- the two colours, and the mix is opaque.
pub mix_between :
    (from to weight : ℕ)
    → EachChannel (λ c.
      (min (c from) (c to) ≤ c (mix from to weight))
      × (c (mix from to weight) ≤ max (c from) (c to)))
      × (alpha_of (mix from to weight) ≡ 255)
mix_between from to weight =
    let m = mix_channels from to weight in
    let a = weight_of-le weight in
    let r = mixed-between (red_of from) (red_of to) (weight_of weight) a in
    let g = mixed-between (green_of from) (green_of to) (weight_of weight) a in
    let b = mixed-between (blue_of from) (blue_of to) (weight_of weight) a in
    ((rw (m.0) r, rw (m.1) g, rw (m.2) b), m.3)

mixed-ends :
    (from to weight : ℕ)
    → 256 ≤ weight
    → (mixed from to 0 ≡ from) × (mixed from to (weight_of weight) ≡ to)
mixed-ends from to weight h = ground arith

-- Weight 0 gives the first colour and any weight from 256 on the second, both made opaque; and a
-- colour mixed with itself is that colour made opaque.
pub mix_ends :
    (from to weight : ℕ)
    → 256 ≤ weight
    → (mix from to 0 ≡ from % 2 ^ 24 + 255 * 2 ^ 24)
      × (mix from to weight ≡ to % 2 ^ 24 + 255 * 2 ^ 24)
mix_ends from to weight h =
    let m = mix_channels from to 0 in
    let n = mix_channels from to weight in
    let r = mixed-ends (red_of from) (red_of to) weight h in
    let g = mixed-ends (green_of from) (green_of to) weight h in
    let b = mixed-ends (blue_of from) (blue_of to) weight h in
    (
      color_ext _ _ (m.0 ∙ r.0 ∙ omega arith) (m.1 ∙ g.0 ∙ omega arith) (m.2 ∙ b.0 ∙ omega arith)
          (m.3 ∙ omega arith),
      color_ext _ _ (n.0 ∙ r.1 ∙ omega arith) (n.1 ∙ g.1 ∙ omega arith) (n.2 ∙ b.1 ∙ omega arith)
          (n.3 ∙ omega arith),
    )

-- How far one channel moves when the weight goes from `v` to `w`.
abbrev pub Near : ℕ → ℕ → ℕ → Type 0
Near d x y = (x ≤ y + d) × (y ≤ x + d)

split_product : (d v w : ℕ) → v ≤ w → d * w ≡ d * v + d * (w - v)
split_product d v w h =
    let e : w ≡ v + (w - v) = omega arith in ap (λ k. d * k) e ∙ mul-add d v (w - v)

mixed-step :
    (from to v w : ℕ)
    → from ≤ 255
    → to ≤ 255
    → v ≤ w
    → w ≤ 256
    → Near ((w - v) * 255 / 256 + 1) (mixed from to v) (mixed from to w)
mixed-step from to v w f t h a = ground (arith, up, up_bound, down, down_bound)
  where
    up : (to - from) * w ≡ (to - from) * v + (to - from) * (w - v)
    up = split_product (to - from) v w h

    down : (from - to) * w ≡ (from - to) * v + (from - to) * (w - v)
    down = split_product (from - to) v w h

    up_bound : (to - from) * (w - v) ≤ 255 * (w - v)
    up_bound = mul-le-mul_right (w - v) (omega arith)

    down_bound : (from - to) * (w - v) ≤ 255 * (w - v)
    down_bound = mul-le-mul_right (w - v) (omega arith)

-- What `mix_step` says of one channel.
abbrev Toward : ℕ → ℕ → ℕ → ℕ → ℕ → Type 0
Toward gap from to x y = (from ≤ to → x ≤ y) × (to ≤ from → y ≤ x) × Near gap x y

mixed-Toward :
    (from to v w : ℕ)
    → from ≤ 255
    → to ≤ 255
    → v ≤ w
    → w ≤ 256
    → Toward
        ((w - v) * 255 / 256 + 1)
        from
        to
        (mixed from to (weight_of v))
        (mixed from to (weight_of w))
mixed-Toward from to v w f t h a =
    let ev : weight_of v ≡ v = ground arith in
    let ew : weight_of w ≡ w = ground arith in
    let p = mixed-toward from to v w h a in rw (ev, ew) (p.0, p.1, mixed-step from to v w f t h a)

-- Raising the weight never moves a channel away from the second colour, and moves it by at most
-- 255/256 of the difference, rounded down, and one more.
pub mix_step :
    (from to v w : ℕ)
    → v ≤ w
    → w ≤ 256
    → EachChannel (λ c.
      (c from ≤ c to → c (mix from to v) ≤ c (mix from to w))
      × (c to ≤ c from → c (mix from to w) ≤ c (mix from to v))
      × Near ((w - v) * 255 / 256 + 1) (c (mix from to v)) (c (mix from to w)))
mix_step from to v w h a =
    let m = mix_channels from to v in
    let n = mix_channels from to w in
    (
      rw (m.0, n.0) (mixed-Toward (red_of from) (red_of to) v w (omega arith) (omega arith) h a),
      rw (m.1, n.1)
          (mixed-Toward (green_of from) (green_of to) v w (omega arith) (omega arith) h a),
      rw (m.2, n.2) (mixed-Toward (blue_of from) (blue_of to) v w (omega arith) (omega arith) h a),
    )
