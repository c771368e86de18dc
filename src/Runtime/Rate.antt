-- ===== src/Runtime/Rate.antt =====
-- The photosensitivity guard of cart/src/runtime.c: how often the scene can change.
use vita_linux_next.Prelude.{
  ℕ, ◌+◌, ◌*◌, ◌≤◌, ◌<◌, ◌≡◌, ◌≢◌, true, List, [], ◌∷◌, ◌++◌, arith, ◌==◌, if◌then◌else◌, length,
}
use vita_linux_next.Runtime.Defs.{
  Runtime, Call, ticks, next, previous, tick, request_next, request_previous, step, expire_hold,
  select_scene, pace, go_to, clamp_now, change_allowed, next_scene, previous_scene,
}
use vita_linux_next.Runtime.Invariant.{IsValid, InTime, step-IsValid}

-- The time at which a call acts: a tick before the origin acts at the origin.
abbrev pub acts_at : Runtime → Call → ℕ
acts_at r (ticks now) = clamp_now r now
acts_at r (next now hold) = now
acts_at r (previous now hold) = now

-- The times at which the scene shown changes, in the order of the calls. They are read off the
-- scene before and after each call, not off what the runtime notes.
unfoldable pub changes : Runtime → List Call → List ℕ
changes r [] = []
changes r (c ∷ cs) =
    let rest = changes (step r c) cs in
    if (step r c).scene_index == r.scene_index then rest else acts_at r c ∷ rest

-- What one call at time `now` does to the scene and to the note of the last change.
record Limited (r s : Runtime) (now : ℕ) : Type 0 where
  same_limit : s.min_change_ns ≡ r.min_change_ns
  quiet :
      s.scene_index ≡ r.scene_index
      → (s.had_change ≡ r.had_change) × (s.last_change_ns ≡ r.last_change_ns)
  noted : s.scene_index ≢ r.scene_index → (s.had_change ≡ true) × (s.last_change_ns ≡ now)
  spaced :
      s.scene_index ≢ r.scene_index
      → r.had_change ≡ true
      → 0 < r.min_change_ns
      → r.last_change_ns + r.min_change_ns ≤ now

select_scene-Limited :
    (r : Runtime) (now : ℕ) → IsValid r → Limited r (select_scene (expire_hold r now) now) now
unfolding select_scene expire_hold change_allowed
select_scene-Limited r now v = ground arith

pace-keeps :
    (r : Runtime) (now : ℕ)
    → ((pace r now).1.scene_index ≡ r.scene_index)
      × ((pace r now).1.min_change_ns ≡ r.min_change_ns)
      × ((pace r now).1.had_change ≡ r.had_change)
      × ((pace r now).1.last_change_ns ≡ r.last_change_ns)
unfolding pace
pace-keeps r now = ground arith

tick-Limited : (r : Runtime) (now : ℕ) → IsValid r → Limited r (tick r now).1 (clamp_now r now)
unfolding tick
tick-Limited r now v = ground (
  arith,
  select_scene-Limited r (clamp_now r now) v,
  pace-keeps (select_scene (expire_hold r (clamp_now r now)) (clamp_now r now)) (clamp_now r now),
)

go_to-Limited :
    (r : Runtime) (scene now hold : ℕ)
    → change_allowed r now ≡ true
    → Limited r (go_to r scene now hold) now
unfolding go_to change_allowed
go_to-Limited r scene now hold h = ground arith

request_next-Limited : (r : Runtime) (now hold : ℕ) → Limited r (request_next r now hold) now
unfolding request_next
request_next-Limited r now hold = ground (arith, go_to-Limited r (next_scene r) now hold)

request_previous-Limited :
    (r : Runtime) (now hold : ℕ) → Limited r (request_previous r now hold) now
unfolding request_previous
request_previous-Limited r now hold = ground (arith, go_to-Limited r (previous_scene r) now hold)

step-Limited : (r : Runtime) (c : Call) → IsValid r → Limited r (step r c) (acts_at r c)
unfolding step
step-Limited r (ticks now) v = tick-Limited r now v
step-Limited r (next now hold) v = request_next-Limited r now hold
step-Limited r (previous now hold) v = request_previous-Limited r now hold

-- Each time is at or after the bound, and each next one at least `gap` later.
abbrev Spaced : ℕ → ℕ → List ℕ → Type 0
Spaced gap bound [] = Unit {0}
Spaced gap bound (t ∷ ts) = (bound ≤ t) × Spaced gap (t + gap) ts

Spaced-mono : (gap a b : ℕ) (ts : List ℕ) → a ≤ b → Spaced gap b ts → Spaced gap a ts
Spaced-mono gap a b [] h s = tt
Spaced-mono gap a b (t ∷ ts) h s = (omega arith, s.1)

-- The earliest time of the next change.
abbrev earliest : Runtime → ℕ
earliest r = if r.had_change then r.last_change_ns + r.min_change_ns else 0

changes-Spaced :
    (r : Runtime) (cs : List Call)
    → InTime cs
    → IsValid r
    → 0 < r.min_change_ns
    → Spaced r.min_change_ns (earliest r) (changes r cs)
unfolding changes
changes-Spaced r [] h v m = tt
changes-Spaced r (c ∷ cs) h v m =
    ground (arith, step-Limited r c v, changes-Spaced (step r c) cs h.1 (step-IsValid r c h.0 v))

Spaced-split :
    (gap bound : ℕ) (pre mid post : List ℕ) (a b : ℕ)
    → Spaced gap bound (pre ++ (a ∷ (mid ++ (b ∷ post))))
    → (bound ≤ a) × (a + (length mid + 1) * gap ≤ b)
Spaced-split gap bound [] [] post a b s = (s.0, omega (arith, s.1.0))
Spaced-split gap bound [] (m ∷ mid) post a b s =
    let later = Spaced-split gap (a + gap) [] mid post m b s.1 in
    (s.0, grind (arith, later.0, later.1))
Spaced-split gap bound (p ∷ pre) mid post a b s =
    let later = Spaced-split gap (p + gap) pre mid post a b s.1 in
    (omega (arith, s.0, later.0), later.1)

-- The photosensitivity guard. Whatever ticks and requests arrive, at whatever times, of a valid
-- runtime with a positive minimum interval, any two changes of the scene shown are at least the
-- minimum interval apart, and with `k` changes between them at least `k + 1` intervals. A change that
-- a tick before the runtime's origin makes is dated at the origin, as the tick itself does.
pub changes_spaced :
    (r : Runtime) (cs : List Call) (pre mid post : List ℕ) (a b : ℕ)
    → InTime cs
    → IsValid r
    → 0 < r.min_change_ns
    → changes r cs ≡ pre ++ (a ∷ (mid ++ (b ∷ post)))
    → a + (length mid + 1) * r.min_change_ns ≤ b
changes_spaced r cs pre mid post a b h v m e =
    (Spaced-split r.min_change_ns (earliest r) pre mid post a b
      (rw e at (changes-Spaced r cs h v m))).1
