-- ===== src/Runtime/Invariant.antt =====
-- The invariant of the runtime: what `cart_runtime_init` establishes and every call keeps.
use vita_linux_next.Prelude.{ℕ, ◌+◌, ◌^◌, ◌≤◌, ◌<◌, ◌≡◌, ◌⊎◌, true, List, [], ◌∷◌, arith, ok, fail}
use vita_linux_next.Runtime.Defs.{
  u64_mod, u64_max, Runtime, Call, ticks, next, previous, init, tick, request_next,
  request_previous, step, run, expire_hold, select_scene, pace, go_to, next_scene, previous_scene,
  clamp_now, automatic,
}

pub record IsValid (r : Runtime) : Type 0 where
  pub some_scene : 0 < r.scene_count
  pub few_scenes : r.scene_count ≤ 2 ^ 31
  pub index_in : r.scene_index < r.scene_count
  pub manual_in : r.manual_scene_index < r.scene_count
  pub held : r.manual_hold_active ≡ true → r.manual_scene_index ≡ r.scene_index
  pub some_frame : 0 < r.frame_period_ns
  pub some_period : 0 < r.scene_period_ns
  pub origin_in : r.origin_ns < u64_max
  pub deadline_in : r.next_deadline_ns < u64_mod
  pub frame_in : r.frame_period_ns < u64_mod
  pub ahead : r.origin_ns < r.next_deadline_ns

-- `cart_runtime_init` succeeds exactly when there is a scene, both periods are positive and the
-- first deadline is below 2 ^ 64 - 1; it then leaves a valid runtime that shows scene 0, and
-- otherwise it leaves the runtime as it was.
pub init_lem :
    (count origin frame_period scene_period min_ns : ℕ) (r : Runtime)
    → count ≤ 2 ^ 31
    → origin < u64_mod
    → frame_period < u64_mod
    → ((init count origin frame_period scene_period min_ns r).0 ≡ ok)
        × (0 < count)
        × (0 < frame_period)
        × (0 < scene_period)
        × (origin + frame_period < u64_max)
        × IsValid (init count origin frame_period scene_period min_ns r).1
        × ((init count origin frame_period scene_period min_ns r).1.scene_index ≡ 0)
      ⊎ ((init count origin frame_period scene_period min_ns r).0 ≡ fail)
        × ((init count origin frame_period scene_period min_ns r).1 ≡ r)
        × ((count ≡ 0)
            ⊎ (frame_period ≡ 0)
            ⊎ (scene_period ≡ 0)
            ⊎ (u64_max ≤ origin + frame_period))
unfolding init
init_lem count origin frame_period scene_period min_ns r hc ho hf = ground arith

expire_hold-IsValid : (r : Runtime) (now : ℕ) → IsValid r → IsValid (expire_hold r now)
unfolding expire_hold
expire_hold-IsValid r now v = ground arith

automatic-lt : (r : Runtime) (now : ℕ) → 0 < r.scene_count → automatic r now < r.scene_count
unfolding automatic
automatic-lt r now h = omega arith

select_scene-IsValid : (r : Runtime) (now : ℕ) → IsValid r → IsValid (select_scene r now)
unfolding select_scene
select_scene-IsValid r now v = ground (arith, automatic-lt r now)

pace-IsValid : (r : Runtime) (now : ℕ) → now < u64_mod → IsValid r → IsValid (pace r now).1
unfolding pace
pace-IsValid r now h v = ground arith

clamp_now-lt : (r : Runtime) (now : ℕ) → IsValid r → now < u64_mod → clamp_now r now < u64_mod
unfolding clamp_now
clamp_now-lt r now v h = ground arith

-- `cart_runtime_tick` keeps the runtime valid, also when it reports that the deadlines ran out.
pub tick-IsValid : (r : Runtime) (now : ℕ) → now < u64_mod → IsValid r → IsValid (tick r now).1
unfolding tick
tick-IsValid r now h v = ground (arith, kept)
  where
    e : Runtime
    e = expire_hold r (clamp_now r now)

    kept : IsValid (pace (select_scene e (clamp_now r now)) (clamp_now r now)).1
    kept =
        pace-IsValid (select_scene e (clamp_now r now)) (clamp_now r now) (clamp_now-lt r now v h)
          (select_scene-IsValid e (clamp_now r now) (expire_hold-IsValid r (clamp_now r now) v))

next_scene-lt : (r : Runtime) → IsValid r → next_scene r < r.scene_count
unfolding next_scene
next_scene-lt r v = omega arith

previous_scene-lt : (r : Runtime) → IsValid r → previous_scene r < r.scene_count
unfolding previous_scene
previous_scene-lt r v = omega arith

go_to-IsValid :
    (r : Runtime) (scene now hold : ℕ)
    → scene < r.scene_count
    → IsValid r
    → IsValid (go_to r scene now hold)
unfolding go_to
go_to-IsValid r scene now hold h v = ground arith

pub request_next-IsValid :
    (r : Runtime) (now hold : ℕ) → IsValid r → IsValid (request_next r now hold)
unfolding request_next
request_next-IsValid r now hold v =
    ground (arith, go_to-IsValid r (next_scene r) now hold (next_scene-lt r v) v)

pub request_previous-IsValid :
    (r : Runtime) (now hold : ℕ) → IsValid r → IsValid (request_previous r now hold)
unfolding request_previous
request_previous-IsValid r now hold v =
    ground (arith, go_to-IsValid r (previous_scene r) now hold (previous_scene-lt r v) v)

-- Every call is given a time that a `uint64_t` holds.
abbrev pub time_of : Call → ℕ
time_of (ticks now) = now
time_of (next now hold) = now
time_of (previous now hold) = now

abbrev pub InTime : List Call → Type 0
InTime [] = Unit {0}
InTime (c ∷ cs) = (time_of c < u64_mod) × InTime cs

pub step-IsValid : (r : Runtime) (c : Call) → time_of c < u64_mod → IsValid r → IsValid (step r c)
unfolding step
step-IsValid r (ticks now) h v = tick-IsValid r now h v
step-IsValid r (next now hold) h v = request_next-IsValid r now hold v
step-IsValid r (previous now hold) h v = request_previous-IsValid r now hold v

-- Any sequence of ticks and requests, in any order and at any times, keeps the runtime valid: the
-- scene shown and the scene held stay in the registry, a held scene is the one shown, and the next
-- deadline stays after the origin and within 64 bits.
pub run-IsValid : (r : Runtime) (cs : List Call) → InTime cs → IsValid r → IsValid (run r cs)
unfolding run
run-IsValid r [] h v = v
run-IsValid r (c ∷ cs) h v = run-IsValid (step r c) cs h.1 (step-IsValid r c h.0 v)
