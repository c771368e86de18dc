-- ===== src/Runtime/Tests.antt =====
-- Runs of the runtime of cart/src/runtime.c, and the laws at one of them.
use vita_linux_next.Prelude.{
  ℕ, ◌+◌, ◌*◌, ◌≤◌, ◌≡◌, refl, true, false, List, [], ◌∷◌, arith, length, ok,
}
use vita_linux_next.Runtime.Defs.{
  Runtime, Call, ticks, next, previous, tick, request_next, request_previous, step, run,
  change_allowed, automatic, pace, clamp_now, select_scene, expire_hold, go_to, next_scene,
  previous_scene,
}
use vita_linux_next.Runtime.Invariant.{IsValid, InTime, run-IsValid}
use vita_linux_next.Runtime.Rate.{changes, changes_spaced}
use vita_linux_next.Runtime.Deadline.{Paced, tick-Paced}
use vita_linux_next.Runtime.Scenes.{tick-Shown, Shown}

-- Six scenes of 100 ns each, a frame of 16 ns, and changes at least 50 ns apart.
abbrev attract : Runtime
attract = record {
  scene_count = 6;
  scene_index = 0;
  manual_scene_index = 0;
  origin_ns = 1000;
  frame_period_ns = 16;
  scene_period_ns = 100;
  manual_hold_until_ns = 0;
  min_change_ns = 50;
  last_change_ns = 0;
  had_change = false;
  next_deadline_ns = 1016;
  frame = 0;
  dropped_deadlines = 0;
  sleep_ns = 16;
  manual_hold_active = false;
}

attract-IsValid : IsValid attract
attract-IsValid = record {
  some_scene = omega arith;
  few_scenes = omega arith;
  index_in = omega arith;
  manual_in = omega arith;
  held = λ _. refl;
  some_frame = omega arith;
  some_period = omega arith;
  origin_in = omega arith;
  deadline_in = omega arith;
  frame_in = omega arith;
  ahead = omega arith;
}

-- The third request comes too early.
abbrev calls : List Call
calls = ticks 1100 ∷ next 1160 100 ∷ next 1170 100 ∷ previous 1300 0 ∷ []

calls-InTime : InTime calls
calls-InTime = (omega arith, (omega arith, (omega arith, (omega arith, tt))))

run_example : (run attract calls).scene_index ≡ 1
unfolding run step request_previous request_next tick pace clamp_now select_scene expire_hold
    automatic change_allowed go_to next_scene previous_scene
run_example = refl

changes_example : changes attract calls ≡ 1100 ∷ 1160 ∷ 1300 ∷ []
unfolding changes step request_previous request_next tick pace clamp_now select_scene expire_hold
    automatic change_allowed go_to next_scene previous_scene
changes_example = refl

changes_spaced_example : 1100 + (length {A = ℕ} (1160 ∷ []) + 1) * 50 ≤ 1300
changes_spaced_example =
    changes_spaced attract calls [] (1160 ∷ []) [] 1100 1300 calls-InTime attract-IsValid
      (omega arith) changes_example

run-IsValid_example : IsValid (run attract calls)
run-IsValid_example = run-IsValid attract calls calls-InTime attract-IsValid

late_ok : (tick attract 1060).0 ≡ ok
unfolding tick pace clamp_now select_scene expire_hold automatic
late_ok = refl

tick-Paced_example : Paced attract (tick attract 1060).1 1060
tick-Paced_example = tick-Paced attract 1060 attract-IsValid (omega arith) late_ok

tick-Shown_example : Shown attract 1350 3 (tick attract 1350).1.scene_index
tick-Shown_example = tick-Shown attract 1350 3 attract-IsValid (omega arith) (omega arith)

allowed : change_allowed attract 1100 ≡ true
unfolding change_allowed
allowed = refl

abbrev unguarded : Runtime
unguarded = record attract { min_change_ns = 0 }

unguarded-IsValid : IsValid unguarded
unguarded-IsValid = ground (arith, attract-IsValid)
