-- ===== src/Runtime/Defs.antt =====
-- The state of cart/src/runtime.c and its operations. The functions named `…_at` take the pointer
-- that the C function takes; the others take what it points to.
use vita_linux_next.Prelude.{
  ℕ, ◌+◌, ◌-◌, ◌/◌, ◌%◌, ◌^◌, Bool, true, false, not, ◌||◌, ◌&&◌, Option, ltb, leb, ◌==◌,
  if◌then◌else◌, Status, ok, fail, through, List, [], ◌∷◌,
}

abbrev pub u64_mod : ℕ
u64_mod = 2 ^ 64

abbrev pub u64_max : ℕ
u64_max = 2 ^ 64 - 1

abbrev pub size_mod : ℕ
size_mod = 2 ^ 32

-- `CART_RUNTIME_MIN_CHANGE_NS`.
abbrev pub min_change : ℕ
min_change = 500_000_000

pub record Runtime : Type 0 where
  pub scene_count : ℕ
  pub scene_index : ℕ
  pub manual_scene_index : ℕ
  pub origin_ns : ℕ
  pub frame_period_ns : ℕ
  pub scene_period_ns : ℕ
  pub manual_hold_until_ns : ℕ
  pub min_change_ns : ℕ
  pub last_change_ns : ℕ
  pub had_change : Bool
  pub next_deadline_ns : ℕ
  pub frame : ℕ
  pub dropped_deadlines : ℕ
  pub sleep_ns : ℕ
  pub manual_hold_active : Bool

unfoldable pub add_saturating : ℕ → ℕ → ℕ
add_saturating left right = if ltb (u64_max - right) left then u64_max else left + right

-- What `cart_runtime_init` refuses.
unfoldable pub init_refuses : ℕ → ℕ → ℕ → ℕ → Bool
init_refuses scene_count origin frame_period scene_period =
    scene_count == 0
    || frame_period == 0
    || scene_period == 0
    || leb (u64_max - frame_period) origin

unfoldable pub fresh : ℕ → ℕ → ℕ → ℕ → ℕ → Runtime
fresh scene_count origin frame_period scene_period min_ns = record {
  scene_count = scene_count;
  scene_index = 0;
  manual_scene_index = 0;
  origin_ns = origin;
  frame_period_ns = frame_period;
  scene_period_ns = scene_period;
  manual_hold_until_ns = 0;
  min_change_ns = min_ns;
  last_change_ns = 0;
  had_change = false;
  next_deadline_ns = (origin + frame_period) % u64_mod;
  frame = 0;
  dropped_deadlines = 0;
  sleep_ns = frame_period;
  manual_hold_active = false;
}

-- A refused call leaves the runtime as it was.
unfoldable pub init : ℕ → ℕ → ℕ → ℕ → ℕ → Runtime → Status × Runtime
unfolding fresh init_refuses
init scene_count origin frame_period scene_period min_ns r =
    if init_refuses scene_count origin frame_period scene_period
    then (fail, r)
    else (ok, fresh scene_count origin frame_period scene_period min_ns)

unfoldable pub init_at : Option Runtime → ℕ → ℕ → ℕ → ℕ → ℕ → Status × Option Runtime
unfolding init
init_at p scene_count origin frame_period scene_period min_ns =
    through fail p (init scene_count origin frame_period scene_period min_ns)

unfoldable pub change_allowed : Runtime → ℕ → Bool
change_allowed r now =
    if r.min_change_ns == 0
    then true
    else if not r.had_change
    then true
    else if ltb now r.last_change_ns
    then false
    else leb r.min_change_ns (now - r.last_change_ns)

unfoldable pub record_change : Runtime → ℕ → Runtime
record_change r now = record r { last_change_ns = now; had_change = true }

-- `if (now_ns < origin_ns) now_ns = origin_ns`.
unfoldable pub clamp_now : Runtime → ℕ → ℕ
clamp_now r now = if ltb now r.origin_ns then r.origin_ns else now

-- The frame number, and the end of a manual hold that has run out.
unfoldable pub expire_hold : Runtime → ℕ → Runtime
expire_hold r now = record r {
  frame = (now - r.origin_ns) / r.frame_period_ns;
  manual_hold_active = r.manual_hold_active && not (leb r.manual_hold_until_ns now);
}

-- The scene that the attract loop is at.
unfoldable pub automatic : Runtime → ℕ → ℕ
automatic r now = ((now - r.origin_ns) / r.scene_period_ns) % r.scene_count

unfoldable pub select_scene : Runtime → ℕ → Runtime
unfolding record_change
select_scene r now =
    if r.manual_hold_active
    then record r { scene_index = r.manual_scene_index }
    else if automatic r now == r.scene_index
    then r
    else if change_allowed r now
    then record (record_change r now) { scene_index = automatic r now }
    else r

-- What is late at the deadline: the next one, or how many were dropped.
unfoldable pub advance_deadline : Runtime → ℕ → Runtime
advance_deadline r now =
    if ltb (now - r.next_deadline_ns) r.frame_period_ns
    then record r { next_deadline_ns = r.next_deadline_ns + r.frame_period_ns }
    else record r {
      dropped_deadlines =
          (r.dropped_deadlines + (now - r.next_deadline_ns) / r.frame_period_ns) % u64_mod;
      next_deadline_ns = now + r.frame_period_ns;
    }

unfoldable pub set_sleep : Runtime → ℕ → Runtime
set_sleep r now = record r { sleep_ns = r.next_deadline_ns - now }

-- The second half of a tick. No sum wraps: those that would are refused.
unfoldable pub pace : Runtime → ℕ → Status × Runtime
unfolding advance_deadline set_sleep
pace r now =
    if ltb now r.next_deadline_ns
    then (ok, set_sleep r now)
    else if ltb (u64_max - r.frame_period_ns) now
    then (fail, r)
    else if ltb (now - r.next_deadline_ns) r.frame_period_ns
        && ltb (u64_max - r.frame_period_ns) r.next_deadline_ns
    then (fail, r)
    else (ok, set_sleep (advance_deadline r now) now)

unfoldable pub tick : Runtime → ℕ → Status × Runtime
tick r time =
    let now = clamp_now r time in
    if r.scene_count == 0 || r.frame_period_ns == 0 || r.scene_period_ns == 0
    then (fail, r)
    else pace (select_scene (expire_hold r now) now) now

unfoldable pub tick_at : Option Runtime → ℕ → Status × Option Runtime
tick_at p now = through fail p (λ r. tick r now)

-- What both requests do once they know the scene.
unfoldable pub go_to : Runtime → ℕ → ℕ → ℕ → Runtime
unfolding record_change
go_to r scene now hold =
    let chosen = record r { manual_scene_index = scene } in
    let noted = if scene == r.scene_index then chosen else record_change chosen now in
    let moved = record noted { scene_index = scene } in
    if hold == 0
    then record moved { manual_hold_active = false }
    else record moved { manual_hold_until_ns = add_saturating now hold; manual_hold_active = true }

unfoldable pub next_scene : Runtime → ℕ
next_scene r = ((r.scene_index + 1) % size_mod) % r.scene_count

-- `scene_index + scene_count - 1`, where each step wraps.
unfoldable pub previous_scene : Runtime → ℕ
previous_scene r =
    (((r.scene_index + r.scene_count) % size_mod + size_mod - 1) % size_mod) % r.scene_count

unfoldable pub request_next : Runtime → ℕ → ℕ → Runtime
request_next r now hold =
    if r.scene_count == 0
    then r
    else if change_allowed r now
    then go_to r (next_scene r) now hold
    else r

unfoldable pub request_previous : Runtime → ℕ → ℕ → Runtime
request_previous r now hold =
    if r.scene_count == 0
    then r
    else if change_allowed r now
    then go_to r (previous_scene r) now hold
    else r

-- One call of the runtime, with the times that it is given.
pub data Call : Type 0 where
  ticks : ℕ → Call
  next previous : ℕ → ℕ → Call

unfoldable pub step : Runtime → Call → Runtime
step r (ticks now) = (tick r now).1
step r (next now hold) = request_next r now hold
step r (previous now hold) = request_previous r now hold

unfoldable pub run : Runtime → List Call → Runtime
run r [] = r
run r (c ∷ cs) = run (step r c) cs
