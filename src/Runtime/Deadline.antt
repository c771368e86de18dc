-- ===== src/Runtime/Deadline.antt =====
-- The pacing of cart/src/runtime.c: deadlines, sleeps and dropped frames.
use vita_linux_next.Prelude.{ℕ, ◌+◌, ◌-◌, ◌/◌, ◌%◌, ◌≤◌, ◌<◌, ◌≡◌, ◌↔◌, arith, ok, fail}
use vita_linux_next.Runtime.Defs.{
  u64_mod, Runtime, tick, expire_hold, select_scene, pace, clamp_now,
}
use vita_linux_next.Runtime.Invariant.{IsValid}

-- The clock fields that the first half of a tick leaves alone.
select_scene-keeps :
    (r : Runtime) (now : ℕ)
    → let s = select_scene (expire_hold r now) now in
      (s.next_deadline_ns ≡ r.next_deadline_ns)
      × (s.frame_period_ns ≡ r.frame_period_ns)
      × (s.dropped_deadlines ≡ r.dropped_deadlines)
      × (s.origin_ns ≡ r.origin_ns)
unfolding select_scene expire_hold
select_scene-keeps r now = ground arith

-- How a tick that succeeds moves the clock.
pub record Paced (r s : Runtime) (now : ℕ) : Type 0 where
  pub later : now < s.next_deadline_ns
  pub wakes : now + s.sleep_ns ≡ s.next_deadline_ns
  pub early : now < r.next_deadline_ns → s.next_deadline_ns ≡ r.next_deadline_ns
  pub on_time :
      r.next_deadline_ns ≤ now
      → now < r.next_deadline_ns + r.frame_period_ns
      → s.next_deadline_ns ≡ r.next_deadline_ns + r.frame_period_ns
  pub late :
      r.next_deadline_ns + r.frame_period_ns ≤ now
      → (s.next_deadline_ns ≡ now + r.frame_period_ns)
        × (s.dropped_deadlines
            ≡ (r.dropped_deadlines + (now - r.next_deadline_ns) / r.frame_period_ns) % u64_mod)
  pub bounded :
      r.next_deadline_ns ≤ now + r.frame_period_ns → s.next_deadline_ns ≤ now + r.frame_period_ns

pace-Paced :
    (r : Runtime) (now : ℕ)
    → 0 < r.frame_period_ns
    → (pace r now).0 ≡ ok
    → Paced r (pace r now).1 now
unfolding pace
pace-Paced r now h e = ground arith

pace-fails :
    (r : Runtime) (now : ℕ)
    → r.frame_period_ns < u64_mod
    → ((pace r now).0 ≡ fail) ↔ ((r.next_deadline_ns ≤ now) × (u64_mod ≤ now + r.frame_period_ns))
unfolding pace
pace-fails r now h = (λ e. ground arith, λ e. ground arith)

-- The clock of a valid runtime. A tick that succeeds, at a time from the origin on, leaves the next
-- deadline after the present and sleeps exactly until it: an unreached deadline stays, one missed by
-- less than a frame moves on by one frame, and after a longer delay it is one frame from now, with
-- the whole frames that were missed counted as dropped. A deadline at most one frame ahead stays so.
pub tick-Paced :
    (r : Runtime) (now : ℕ)
    → IsValid r
    → r.origin_ns ≤ now
    → (tick r now).0 ≡ ok
    → Paced r (tick r now).1 now
unfolding tick clamp_now
tick-Paced r now v h e =
    ground (arith, select_scene-keeps r now, pace-Paced (select_scene (expire_hold r now) now) now)

-- A tick of a valid runtime, at a time from the origin on, fails exactly when a deadline has been
-- reached and the next one would not fit into 64 bits.
pub tick_fails :
    (r : Runtime) (now : ℕ)
    → IsValid r
    → r.origin_ns ≤ now
    → ((tick r now).0 ≡ fail) ↔ ((r.next_deadline_ns ≤ now) × (u64_mod ≤ now + r.frame_period_ns))
unfolding tick clamp_now
tick_fails r now v h =
    let k = select_scene-keeps r now in
    let f = pace-fails (select_scene (expire_hold r now) now) now in
    (λ e. ground (arith, k, f), λ e. ground (arith, k, f))
