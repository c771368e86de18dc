-- ===== src/Transition/Fade.antt =====
-- The life of a fade of cart/src/transition.c, and the pixels that it shows.
use Prim.Native.Nat.{min, max}
use vita_linux_next.Prelude.{
  ℕ, zero, suc, ◌+◌, ◌-◌, ◌*◌, ◌/◌, ◌≤◌, ◌≡◌, ◌≢◌, List, [], ◌∷◌, some, arith, ltb, leb, ◌==◌,
  if◌then◌else◌, get_elem?,
}
use vita_linux_next.Canvas.Color.{mix}
use vita_linux_next.Canvas.Mix.{EachChannel, Near, mix_between, mix_ends, mix_step}
use vita_linux_next.Transition.Defs.{
  weight_max, Transition, begin, advance, mix_pixels, weight, blend,
}
use vita_linux_next.Transition.Weight.{weight_steps}

-- `n` frames of a fade.
pub advances : ℕ → Transition → Transition
advances zero t = t
advances (suc n) t = advance (advances n t)

-- Where a fade from one scene to another stands after `n` frames.
pub record Stands (t : Transition) (from to n : ℕ) : Type 0 where
  pub source : t.from_scene ≡ from
  pub target : t.to_scene ≡ to
  pub elapsed : t.elapsed_frames ≡ min n 15
  pub running : t.active ≡ ltb n 15

advance-Stands :
    (t : Transition) (from to n : ℕ) → Stands t from to n → Stands (advance t) from to (suc n)
unfolding advance
advance-Stands t from to n s = ground arith

-- A fade between two different scenes is active for exactly fifteen frames: after `n` of them it
-- has counted `min n 15`, it is active just while `n` is below 15, and it keeps both scenes.
pub fade_length :
    (t : Transition) (from to n : ℕ) → from ≢ to → Stands (advances n (begin t from to)) from to n
unfolding advances begin
fade_length t from to zero d = ground arith
fade_length t from to (suc n) d =
    advance-Stands (advances n (begin t from to)) from to n (fade_length t from to n d)

-- What the destination shows where the frames have `p` and `q`.
abbrev shown : ℕ → ℕ → ℕ → ℕ
shown p q step =
    if weight step == 0
    then p
    else if leb weight_max (weight step)
    then q
    else mix p q (weight step)

get_elem?-mix_pixels :
    (amount i p q : ℕ) (from to : List ℕ)
    → get_elem? from i ≡ some p
    → get_elem? to i ≡ some q
    → get_elem? (mix_pixels amount from to) i ≡ some (mix p q amount)
unfolding mix_pixels
get_elem?-mix_pixels amount i p q [] to e f = cc
get_elem?-mix_pixels amount i p q (x ∷ from) [] e f = cc
get_elem?-mix_pixels amount zero p q (x ∷ from) (y ∷ to) e f = cc
get_elem?-mix_pixels amount (suc i) p q (x ∷ from) (y ∷ to) e f =
    get_elem?-mix_pixels amount i p q from to e f

get_elem?-blend :
    (step i p q : ℕ) (from to : List ℕ)
    → get_elem? from i ≡ some p
    → get_elem? to i ≡ some q
    → get_elem? (blend from to step) i ≡ some (shown p q step)
unfolding blend
get_elem?-blend step i p q from to e f =
    ground (arith, get_elem?-mix_pixels (weight step) i p q from to e f)

-- A copied pixel has the channels of a mix at the end.
shown-mix : (p q step : ℕ) → EachChannel (λ c. c (shown p q step) ≡ c (mix p q (weight step)))
shown-mix p q step =
    let ends = mix_ends p q (weight step) in
    (
      ground (arith, ends, mix_ends p q 256),
      ground (arith, ends, mix_ends p q 256),
      ground (arith, ends, mix_ends p q 256),
    )

-- One channel of one pixel in two successive frames of a fade.
pub record Smooth (from to x y : ℕ) : Type 0 where
  pub within : (min from to ≤ x) × (x ≤ max from to)
  pub rises : from ≤ to → x ≤ y
  pub falls : to ≤ from → y ≤ x
  pub near : Near 26 x y

mix-Smooth :
    (p q step : ℕ)
    → EachChannel
        (λ c. Smooth (c p) (c q) (c (mix p q (weight step))) (c (mix p q (weight (step + 1)))))
mix-Smooth p q step =
    let s = weight_steps step in
    let s' = weight_steps (step + 1) in
    let b = (mix_between p q (weight step)).0 in
    let m = mix_step p q (weight step) (weight (step + 1)) s.0 s'.2 in
    let small : (weight (step + 1) - weight step) * 255 / 256 ≤ 25 = omega (arith, s) in
    (
      ground (arith, b.0, m.0, small),
      ground (arith, b.1, m.1, small),
      ground (arith, b.2, m.2, small),
    )

-- A fade has no flash. Where the outgoing frame has the pixel `p` and the incoming one `q`, two
-- successive frames of the fade have pixels whose red, green and blue lie between those of `p` and
-- `q`, move only towards those of `q`, and differ by at most 26 of 255.
pub fade-Smooth :
    (step i p q : ℕ) (from to : List ℕ)
    → get_elem? from i ≡ some p
    → get_elem? to i ≡ some q
    → (x y : ℕ) × (get_elem? (blend from to step) i ≡ some x)
      × (get_elem? (blend from to (step + 1)) i ≡ some y)
      × EachChannel (λ c. Smooth (c p) (c q) (c x) (c y))
fade-Smooth step i p q from to e f =
    let a = shown-mix p q step in
    let b = shown-mix p q (step + 1) in
    let m = mix-Smooth p q step in
    (
      shown p q step,
      shown p q (step + 1),
      get_elem?-blend step i p q from to e f,
      get_elem?-blend (step + 1) i p q from to e f,
      (rw (a.0, b.0) m.0, rw (a.1, b.1) m.1, rw (a.2, b.2) m.2),
    )
