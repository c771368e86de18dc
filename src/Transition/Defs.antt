-- ===== src/Transition/Defs.antt =====
-- The state of a fade and its operations. The functions take what the C pointer points to; the
-- ones named `…_at` take the pointer.
use vita_linux_next.Prelude.{
  ℕ, ◌+◌, ◌-◌, ◌*◌, ◌/◌, ◌%◌, ◌^◌, Bool, true, false, not, ◌&&◌, Option, none, some, List, [], ◌∷◌,
  ltb, leb, ◌==◌, if◌then◌else◌,
}
use vita_linux_next.Canvas.Color.{mix}

-- `CART_TRANSITION_FRAMES` and `CART_TRANSITION_WEIGHT_MAX`.
abbrev pub frames : ℕ
frames = 15

abbrev pub weight_max : ℕ
weight_max = 256

abbrev pub fixed_one : ℕ
fixed_one = 1024

abbrev pub u64_mod : ℕ
u64_mod = 2 ^ 64

pub record Transition : Type 0 where
  pub from_scene : ℕ
  pub to_scene : ℕ
  pub elapsed_frames : ℕ
  pub active : Bool
  pub sources_ready : Bool

unfoldable pub begin : Transition → ℕ → ℕ → Transition
begin t from to = record t {
  from_scene = from;
  to_scene = to;
  elapsed_frames = 0;
  active = not (from == to);
  sources_ready = false;
}

unfoldable pub active_at : Option Transition → Bool
active_at none = false
active_at (some t) = t.active

unfoldable pub advance : Transition → Transition
advance t =
    if t.active
    then (let elapsed = (t.elapsed_frames + 1) % u64_mod in
        record t { elapsed_frames = elapsed; active = ltb elapsed frames })
    else t

unfoldable pub sources_need_render : Transition → Bool
sources_need_render t = t.active && not t.sources_ready

unfoldable pub mark_sources_rendered : Transition → Transition
mark_sources_rendered t = if t.active then record t { sources_ready = true } else t

-- `3t² - 2t³` on the scale of `fixed_one`, then rounded to the scale of the weight. Every product
-- is reduced as a `uint64_t` is, and the difference wraps as one does.
unfoldable pub eased : ℕ → ℕ
eased t =
    ((3 * t * t * fixed_one % u64_mod + u64_mod - 2 * t * t * t % u64_mod) % u64_mod)
    / (fixed_one * fixed_one)

unfoldable pub weight : ℕ → ℕ
unfolding eased
weight step =
    if step == 0
    then 0
    else if leb frames step
    then weight_max
    else (let scaled =
          (eased (step * fixed_one / frames) * weight_max + fixed_one / 2) / fixed_one in
        if ltb weight_max scaled then weight_max else scaled)

-- `cart_mix` of the two frames, pixel by pixel, over the pixels that both have.
unfoldable pub mix_pixels : ℕ → List ℕ → List ℕ → List ℕ
mix_pixels amount [] to = []
mix_pixels amount (p ∷ from) [] = []
mix_pixels amount (p ∷ from) (q ∷ to) = mix p q amount ∷ mix_pixels amount from to

-- What is written to the destination. Weights at the ends copy a frame as it is.
unfoldable pub blend : List ℕ → List ℕ → ℕ → List ℕ
unfolding weight
blend from to step =
    let amount = weight step in
    if amount == 0 then from else if leb weight_max amount then to else mix_pixels amount from to
