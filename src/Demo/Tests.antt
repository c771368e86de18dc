-- ===== src/Demo/Tests.antt =====
-- Two rounds of the main loop of cart/src/pstv-demo-cart.c, and the laws at them.
use vita_linux_next.Prelude.{ℕ, ◌≡◌, refl, true, false, List, [], ◌∷◌, none, some, if◌then◌else◌}
use vita_linux_next.Runtime.Defs.{
  Runtime, tick, pace, clamp_now, select_scene, expire_hold, automatic, change_allowed,
  request_next, go_to, next_scene, add_saturating,
}
use vita_linux_next.Transition.Defs.{
  begin, advance, blend, sources_need_render, mark_sources_rendered,
}
use vita_linux_next.Input.Actions.{next}
use vita_linux_next.Demo.{
  Stage, Outside, on_signals, serve_signal, serve_action, start_fade, draw, present, body, round,
}
use vita_linux_next.Demo.Fades.{decided, FadeAfter, fade_undisturbed, steady_shows}

-- A scene of one pixel, whose colour is its number.
abbrev plain : ℕ → ℕ → List ℕ
plain scene frame = scene ∷ []

abbrev attract : Runtime
attract = record {
  scene_count = 6;
  scene_index = 0;
  manual_scene_index = 0;
  origin_ns = 1000;
  frame_period_ns = 16;
  scene_period_ns = 100;
  manual_hold_until_ns = 0;
  min_change_ns = 50;
  last_change_ns = 0;
  had_change = false;
  next_deadline_ns = 1016;
  frame = 0;
  dropped_deadlines = 0;
  sleep_ns = 16;
  manual_hold_active = false;
}

abbrev idle_stage : Stage
idle_stage = record {
  running = true;
  next_scene_requested = false;
  runtime = attract;
  transition = record {
    from_scene = 0;
    to_scene = 0;
    elapsed_frames = 0;
    active = false;
    sources_ready = false;
  };
  displayed_scene = 0;
  low = [];
  low_from = [];
  low_to = [];
  screen = record { row = λ _. 0; framebuffer = λ _. 0 };
}

abbrev fading_stage : Stage
fading_stage = record idle_stage {
  transition = record {
    from_scene = 0;
    to_scene = 1;
    elapsed_frames = 14;
    active = true;
    sources_ready = true;
  };
  low_from = 0 ∷ [];
  low_to = 1 ∷ [];
}

-- The user asks for the next scene at once.
abbrev pressed : Outside
pressed = record {
  start = 1010;
  end = 1012;
  next_signal = false;
  stop_signal = false;
  action = next;
}

abbrev after : Stage → Stage
after s = elim (round plain pressed s) [ none ↦ s | some t ↦ t ]

idle_round : round plain pressed idle_stage ≡ some (after idle_stage)
unfolding round on_signals tick pace clamp_now select_scene expire_hold automatic body present draw
    start_fade serve_action request_next serve_signal change_allowed go_to next_scene add_saturating
    sources_need_render begin mark_sources_rendered
idle_round = refl

fading_round : round plain pressed fading_stage ≡ some (after fading_stage)
unfolding round on_signals tick pace clamp_now select_scene expire_hold automatic body present draw
    start_fade serve_action request_next serve_signal change_allowed go_to next_scene add_saturating
fading_round = refl

steady_shows_example :
    ((after idle_stage).low ≡ plain 0 (decided pressed idle_stage).runtime.frame)
    × ((after idle_stage).displayed_scene ≡ 0)
    × FadeAfter plain (decided pressed idle_stage).runtime idle_stage (after idle_stage)
steady_shows_example = steady_shows plain pressed idle_stage (after idle_stage) idle_round refl

fade_undisturbed_example :
    ((after fading_stage).low ≡ blend (0 ∷ []) (1 ∷ []) 14)
    × ((after fading_stage).low_from ≡ 0 ∷ [])
    × ((after fading_stage).low_to ≡ 1 ∷ [])
    × ((after fading_stage).transition ≡ advance fading_stage.transition)
    × ((after fading_stage).displayed_scene ≡ (
        if (advance fading_stage.transition).active
        then 0
        else (advance fading_stage.transition).to_scene))
fade_undisturbed_example =
    fade_undisturbed plain pressed fading_stage (after fading_stage) fading_round refl
