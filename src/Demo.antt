-- ===== src/Demo.antt =====
-- The main loop of cart/src/pstv-demo-cart.c. How a scene looks is a parameter (`render`), as are
-- the clock, the signals and the action that the input stack gives; the report on stderr is left out.
pub mod Fades
pub mod Tests
use vita_linux_next.Prelude.{
  ℕ, ◌+◌, ◌*◌, ◌/◌, ◌%◌, ◌^◌, ◌≡◌, Bool, true, false, not, ◌&&◌, List, Option, none, some, ◌==◌,
  if◌then◌else◌, Status, ok, fail, get_or, ◌>>=◌,
}
use vita_linux_next.Runtime.Defs.{Runtime, tick, request_next, request_previous}
use vita_linux_next.Transition.Defs.{
  Transition, begin, advance, sources_need_render, mark_sources_rendered, blend,
}
use vita_linux_next.Presentation.{Screen, upscale}
use vita_linux_next.Input.Actions.{Action, quiet, next, previous, select, back, menu, quit}

abbrev second : ℕ
second = 1_000_000_000

-- `monotonic_now_ns` of a time in seconds and nanoseconds, and `timespec_from_ns`.
unfoldable pub now_of : ℕ × ℕ → ℕ
now_of (seconds, nanoseconds) = (seconds * second + nanoseconds) % 2 ^ 64

unfoldable pub timespec_of : ℕ → ℕ × ℕ
timespec_of value = (value / second, value % second)

-- The variables of the loop and the buffers that it draws in.
pub record Stage : Type 0 where
  pub running : Bool
  pub next_scene_requested : Bool
  pub runtime : Runtime
  pub transition : Transition
  pub displayed_scene : ℕ
  pub low : List ℕ
  pub low_from : List ℕ
  pub low_to : List ℕ
  pub screen : Screen

-- What reaches one round from outside: the clock at its start and at its end, a signal for the next
-- scene since the last round, a signal to stop, and the action of the input stack.
pub record Outside : Type 0 where
  pub start : ℕ
  pub end : ℕ
  pub next_signal : Bool
  pub stop_signal : Bool
  pub action : Action

-- `on_signal`.
unfoldable pub on_signals : Outside → Stage → Stage
on_signals o s = record s {
  running = s.running && not o.stop_signal;
  next_scene_requested = if o.next_signal then true else s.next_scene_requested;
}

unfoldable pub serve_signal : ℕ → Stage → Stage
serve_signal now s =
    if s.next_scene_requested
    then record s {
      runtime = request_next s.runtime now (3600 * second);
      next_scene_requested = false;
    }
    else s

unfoldable pub serve_action : ℕ → Action → Stage → Stage
serve_action now quit s = record s { running = false }
serve_action now next s = record s { runtime = request_next s.runtime now (8 * second) }
serve_action now previous s = record s { runtime = request_previous s.runtime now (8 * second) }
serve_action now quiet s = s
serve_action now select s = s
serve_action now back s = s
serve_action now menu s = s

-- A tick that fails ends the loop.
abbrev pub ticked : Stage → Status × Runtime → Option Stage
ticked s (ok, r) = some (record s { runtime = r })
ticked s (fail, r) = none

-- `cart_presentation_upscale` of the logical frame.
unfoldable pub present : Stage → Stage
present s = record s { screen = upscale (λ a. get_or s.low a 0) s.screen }

module _ (render : ℕ → ℕ → List ℕ) where
  -- A scene that differs from the one displayed starts a fade, unless one is under way.
  unfoldable pub start_fade : Stage → Stage
  start_fade s =
      let t = begin s.transition s.displayed_scene s.runtime.scene_index in
      if not (s.runtime.scene_index == s.displayed_scene) && not s.transition.active
      then (if sources_need_render t
          then record s {
            transition = mark_sources_rendered t;
            low_from = render t.from_scene s.runtime.frame;
            low_to = render t.to_scene s.runtime.frame;
          }
          else record s { transition = t })
      else s

  -- A frame of the fade, or of the scene that is displayed.
  unfoldable pub draw : Stage → Stage
  draw s =
      let t = advance s.transition in
      if s.transition.active
      then record s {
        low = blend s.low_from s.low_to s.transition.elapsed_frames;
        transition = t;
        displayed_scene = if t.active then s.displayed_scene else t.to_scene;
      }
      else record s { low = render s.displayed_scene s.runtime.frame }

  -- Everything between the two ticks.
  unfoldable pub body : Outside → Stage → Stage
  body o s = present (draw (start_fade (serve_action o.start o.action (serve_signal o.start s))))

  -- The loop's test and one round; `none` means that the loop is left. A signal acts from the next
  -- test on, so those since the last one are noted first.
  unfoldable pub round : Outside → Stage → Option Stage
  round o s =
      let noted = on_signals o s in
      if not noted.running then none else do
        begun ← ticked noted (tick noted.runtime o.start)
        let drawn = body o begun
        ticked drawn (tick drawn.runtime o.end)
