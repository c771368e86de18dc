-- ===== src/Transition/Weight.antt =====
-- The easing curve of cart/src/transition.c.
use vita_linux_next.Prelude.{
  ℕ, ◌+◌, ◌-◌, ◌*◌, ◌/◌, ◌≤◌, ◌<◌, ◌≡◌, refl, inl, inr, ◌&&◌, ◌||◌, ◌↔◌, ltb→lt, ltb→ge, ◌^◌, true,
  arith, tests, leb, ltb, ◌==◌, Bool-cases,
}
use vita_linux_next.Prelude.Loops.{all_below, all_below_sound}
use vita_linux_next.Transition.Defs.{weight, eased}

weight-late : (s : ℕ) → 15 ≤ s → weight s ≡ 256
unfolding weight
weight-late s h = ground arith

weight-zero : weight 0 ≡ 0
unfolding weight
weight-zero = refl

-- Every statement about two neighbouring steps is checked at the fifteen steps of a fade.
steps_table :
    all_below 15 (λ s.
      leb (weight s) (weight (s + 1))
      && leb (weight (s + 1)) (weight s + 26)
      && leb (weight s) 255
      && (s == 0 || ltb 0 (weight s)))
    ≡ true
unfolding all_below weight
steps_table = refl

curve_table :
    all_below 16 (λ s.
      ltb (weight s * 3375) (256 * (45 * s * s - 2 * s * s * s) + 3375)
      && ltb (256 * (45 * s * s - 2 * s * s * s)) (weight s * 3375 + 3375))
    ≡ true
unfolding all_below weight
curve_table = refl

eased_table :
    all_below 1025 (λ t.
      eased t == (3 * t * t * 1024 - 2 * t * t * t) / 1048576
      && leb (2 * t * t * t) (3 * t * t * 1024)
      && ltb (3 * t * t * 1024) (2 ^ 64)
      && leb (eased t) 1024)
    ≡ true
unfolding all_below eased
eased_table = refl

-- The blend weight never falls, rises by at most 26 from one frame to the next, and stays within
-- 256; it is 0 at the start, and 256 from the fifteenth frame on and not before.
pub weight_steps :
    (s : ℕ)
    → (weight s ≤ weight (s + 1))
      × (weight (s + 1) ≤ weight s + 26)
      × (weight s ≤ 256)
      × ((weight s ≡ 256) ↔ (15 ≤ s))
      × ((weight s ≡ 0) ↔ (s ≡ 0))
weight_steps s = elim (Bool-cases (ltb s 15)) [
  | inl early ↦
      let row = all_below_sound 15 _ s steps_table (ltb→lt s 15 early) in
      (
        ground (arith, row),
        ground (arith, row),
        ground (arith, row),
        (λ e. ground (arith, row), λ e. ground (arith, row)),
        (λ e. ground (arith, row), λ e. rw e weight-zero),
      )
  | inr late ↦
      let e = weight-late s (ltb→ge s 15 late) in
      let e' = weight-late (s + 1) (omega tests) in
      (
        omega (arith, e, e'),
        omega (arith, e, e'),
        omega (arith, e, e'),
        (λ p. omega tests, λ p. e),
        (λ p. absurd (omega (arith, e, p)), λ p. absurd (omega tests)),
      )
]

-- Through the fade the weight is within one of 256 times the smoothstep 3u² - 2u³ at u = s / 15.
pub weight_curve :
    (s : ℕ)
    → s ≤ 15
    → (weight s * 3375 < 256 * (45 * s * s - 2 * s * s * s) + 3375)
      × (256 * (45 * s * s - 2 * s * s * s) < weight s * 3375 + 3375)
weight_curve s h =
    let row = all_below_sound 16 _ s curve_table (omega arith) in
    (ground (arith, row), ground (arith, row))
