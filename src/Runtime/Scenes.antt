-- ===== src/Runtime/Scenes.antt =====
-- Which scene the runtime of cart/src/runtime.c shows: the attract loop, requests and holds.
use vita_linux_next.Prelude.{
  ℕ, ◌+◌, ◌-◌, ◌*◌, ◌/◌, ◌%◌, ◌≤◌, ◌<◌, ◌≡◌, ◌≢◌, ◌⊎◌, inl, inr, Bool-cases, ap, refl, true, false,
  arith, ltb, if◌then◌else◌, ◌&&◌, ◌==◌,
}
use native.Mathlib.Nat.{mod-eq_of_lt, mod_self, le-div_iff_mul-le, div-lt_iff_lt-mul}
use vita_linux_next.Runtime.Defs.{
  u64_mod, u64_max, size_mod, Runtime, tick, request_next, request_previous, expire_hold,
  select_scene, pace, go_to, clamp_now, automatic, change_allowed, next_scene, previous_scene,
  add_saturating,
}
use vita_linux_next.Runtime.Invariant.{IsValid, request_next-IsValid, request_previous-IsValid}

pace-scene : (r : Runtime) (now : ℕ) → (pace r now).1.scene_index ≡ r.scene_index
unfolding pace
pace-scene r now = ground arith

automatic-expire : (r : Runtime) (now : ℕ) → automatic (expire_hold r now) now ≡ automatic r now
unfolding automatic expire_hold
automatic-expire r now = refl

allowed-expire :
    (r : Runtime) (now : ℕ) → change_allowed (expire_hold r now) now ≡ change_allowed r now
unfolding change_allowed expire_hold
allowed-expire r now = refl

-- The scene that a tick at `now` is to show.
abbrev scene_at : Runtime → ℕ → ℕ
scene_at r now =
    if r.manual_hold_active && ltb now r.manual_hold_until_ns
    then r.scene_index
    else if change_allowed r now
    then automatic r now
    else r.scene_index

select_scene-scene :
    (r : Runtime) (now : ℕ)
    → IsValid r
    → (select_scene (expire_hold r now) now).scene_index ≡ scene_at r now
unfolding select_scene expire_hold
select_scene-scene r now v = ground (arith, automatic-expire r now, allowed-expire r now)

scene-tick :
    (r : Runtime) (now : ℕ)
    → IsValid r
    → r.origin_ns ≤ now
    → (tick r now).1.scene_index ≡ (
        if r.manual_hold_active && ltb now r.manual_hold_until_ns
        then r.scene_index
        else if change_allowed r now
        then automatic r now
        else r.scene_index)
unfolding tick clamp_now
scene-tick r now v h =
    ground
      (arith, select_scene-scene r now v, pace-scene (select_scene (expire_hold r now) now) now)

-- The scene at `now`, in slot number `slot` of the attract loop.
pub data Shown (r : Runtime) (now slot : ℕ) : ℕ → Type 0 where
  -- A manual hold that has not run out keeps the scene.
  held : r.manual_hold_active ≡ true → now < r.manual_hold_until_ns → Shown r now slot r.scene_index
  -- So does a change that is not the minimum interval ago.
  too_soon :
      r.had_change ≡ true
      → r.min_change_ns ≢ 0
      → now < r.last_change_ns + r.min_change_ns
      → Shown r now slot r.scene_index
  -- Otherwise the scenes take turns, one in each slot.
  turn :
      (r.manual_hold_active ≡ false) ⊎ (r.manual_hold_until_ns ≤ now)
      → (r.had_change ≡ false) ⊎ (r.min_change_ns ≡ 0) ⊎ (r.last_change_ns + r.min_change_ns ≤ now)
      → Shown r now slot (slot % r.scene_count)

automatic_slot :
    (r : Runtime) (now slot : ℕ)
    → 0 < r.scene_period_ns
    → r.origin_ns + slot * r.scene_period_ns ≤ now
    → now < r.origin_ns + (slot + 1) * r.scene_period_ns
    → automatic r now ≡ slot % r.scene_count
unfolding automatic
automatic_slot r now slot p low high =
    let from = le-div_iff_mul-le {k = r.scene_period_ns} {x = slot} {y = now - r.origin_ns} p in
    let to = div-lt_iff_lt-mul {k = r.scene_period_ns} {x = now - r.origin_ns} {y = slot + 1} p in
    let at_slot : (now - r.origin_ns) / r.scene_period_ns ≡ slot = ground (arith, from, to) in
    ap (λ (k : ℕ). k % r.scene_count) at_slot

not_allowed :
    (r : Runtime) (now : ℕ)
    → change_allowed r now ≡ false
    → (r.had_change ≡ true) × (r.min_change_ns ≢ 0) × (now < r.last_change_ns + r.min_change_ns)
unfolding change_allowed
not_allowed r now e = ground (arith, e)

is_allowed :
    (r : Runtime) (now : ℕ)
    → change_allowed r now ≡ true
    → (r.had_change ≡ false) ⊎ (r.min_change_ns ≡ 0) ⊎ (r.last_change_ns + r.min_change_ns ≤ now)
unfolding change_allowed
is_allowed r now e = ground (arith, e)

-- The attract loop of a valid runtime, at a time from the origin on: the scenes take turns, and the
-- one of the slot of `scene_period_ns` that the time is in is shown after a tick. But a manual hold
-- that has not run out keeps the scene, and so does the last change, until the minimum interval has
-- passed since then.
pub tick-Shown :
    (r : Runtime) (now slot : ℕ)
    → IsValid r
    → r.origin_ns + slot * r.scene_period_ns ≤ now
    → now < r.origin_ns + (slot + 1) * r.scene_period_ns
    → Shown r now slot (tick r now).1.scene_index
tick-Shown r now slot v low high =
    let shown = scene-tick r now v (omega arith) in
    elim (Bool-cases (r.manual_hold_active && ltb now r.manual_hold_until_ns)) [
      | inl h ↦
          let e : (tick r now).1.scene_index ≡ r.scene_index = rw h at shown in
          rw e (held (ground (arith, h)) (ground (arith, h)))
      | inr h ↦ elim (Bool-cases (change_allowed r now)) [
        | inr n ↦
            let e : (tick r now).1.scene_index ≡ r.scene_index = rw (h, n) at shown in
            let (had, some_min, soon) = not_allowed r now n in rw e (too_soon had some_min soon)
        | inl y ↦
            let e : (tick r now).1.scene_index ≡ automatic r now = rw (h, y) at shown in
            rw (e, automatic_slot r now slot v.some_period low high)
              (turn (ground (arith, h)) (is_allowed r now y))
      ]
    ]

-- In the range of the invariant no sum wraps, and a step past either end comes out at the other.
next_scene-eq :
    (r : Runtime)
    → IsValid r
    → next_scene r ≡ (if r.scene_index + 1 == r.scene_count then 0 else r.scene_index + 1)
unfolding next_scene
next_scene-eq r v =
    let e : (r.scene_index + 1) % size_mod ≡ r.scene_index + 1 = omega arith in
    rw e (
      ground
        (arith, mod-eq_of_lt {n = r.scene_index + 1} {m = r.scene_count}, mod_self r.scene_count))

previous_scene-eq :
    (r : Runtime)
    → IsValid r
    → previous_scene r ≡ (if r.scene_index == 0 then r.scene_count - 1 else r.scene_index - 1)
unfolding previous_scene
previous_scene-eq r v =
    let e : ((r.scene_index + r.scene_count) % size_mod + size_mod - 1) % size_mod
        ≡ r.scene_index + r.scene_count - 1 =
      omega arith in
    rw e (grind arith)

-- A request for the next scene that the guard allows is shown at once, and every tick keeps it
-- until the hold, which saturates at 2 ^ 64 - 1, has run out.
pub request_next-held :
    (r : Runtime) (now hold later : ℕ)
    → IsValid r
    → change_allowed r now ≡ true
    → 0 < hold
    → now < u64_mod
    → r.origin_ns ≤ later
    → later < now + hold
    → later < u64_max
    → (tick (request_next r now hold) later).1.scene_index
      ≡ (if r.scene_index + 1 == r.scene_count then 0 else r.scene_index + 1)
unfolding request_next go_to add_saturating
request_next-held r now hold later v a h n o l m = ground (
  arith,
  next_scene-eq r v,
  request_next-IsValid r now hold v,
  scene-tick (request_next r now hold) later,
)

-- With no minimum interval, asking for the next scene and then for the previous one, or the other
-- way round, comes back to the scene of a valid runtime.
pub next_previous :
    (r : Runtime) (now later hold hold' : ℕ)
    → IsValid r
    → r.min_change_ns ≡ 0
    → ((request_previous (request_next r now hold) later hold').scene_index ≡ r.scene_index)
      × ((request_next (request_previous r now hold) later hold').scene_index ≡ r.scene_index)
unfolding request_next request_previous go_to change_allowed
next_previous r now later hold hold' v m = (
  ground (
    arith,
    next_scene-eq r v,
    previous_scene-eq (request_next r now hold) (request_next-IsValid r now hold v),
  ),
  ground (
    arith,
    previous_scene-eq r v,
    next_scene-eq (request_previous r now hold) (request_previous-IsValid r now hold v),
  ),
)
