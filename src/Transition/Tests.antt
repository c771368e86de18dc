-- ===== src/Transition/Tests.antt =====
-- The laws of cart/src/transition.c at some frames of a fade.
use vita_linux_next.Prelude.{
  ℕ, ◌+◌, ◌-◌, ◌*◌, ◌<◌, ◌≡◌, refl, false, List, [], ◌∷◌, some, arith, get_elem?,
}
use vita_linux_next.Canvas.Mix.{EachChannel}
use vita_linux_next.Transition.Defs.{Transition, weight, blend, eased}
use vita_linux_next.Transition.Weight.{weight_curve}
use vita_linux_next.Transition.Fade.{Smooth, fade-Smooth}

abbrev stopped : Transition
stopped = record {
  from_scene = 0;
  to_scene = 0;
  elapsed_frames = 0;
  active = false;
  sources_ready = false;
}

weight_7 : weight 7 ≡ 115
unfolding weight eased
weight_7 = refl

weight_curve_example :
    (weight 7 * 3375 < 256 * (45 * 7 * 7 - 2 * 7 * 7 * 7) + 3375)
    × (256 * (45 * 7 * 7 - 2 * 7 * 7 * 7) < weight 7 * 3375 + 3375)
weight_curve_example = weight_curve 7 (omega arith)

abbrev outgoing : List ℕ
outgoing = 0xff102030 ∷ 0xff000000 ∷ []

abbrev incoming : List ℕ
incoming = 0xff908010 ∷ 0xffffffff ∷ []

fade-Smooth_example :
    (x y : ℕ) × (get_elem? (blend outgoing incoming 6) 1 ≡ some x)
    × (get_elem? (blend outgoing incoming (6 + 1)) 1 ≡ some y)
    × EachChannel (λ c. Smooth (c 0xff000000) (c 0xffffffff) (c x) (c y))
fade-Smooth_example = fade-Smooth 6 1 0xff000000 0xffffffff outgoing incoming refl refl
