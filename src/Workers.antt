-- ===== src/Workers.antt =====
-- cart/src/worker_pool.c: the pool of render workers. What the thread library answers is a parameter.
pub mod Bands
pub mod Lifecycle
pub mod Success
pub mod Shutdown
pub mod Tests
use vita_linux_next.Prelude.{
  ℕ, zero, suc, ◌+◌, ◌-◌, ◌*◌, ◌/◌, ◌%◌, ◌≤◌, ◌<◌, ◌≡◌, refl, Bool, true, false, not, ◌&&◌, ◌||◌,
  List, [], ◌∷◌, arith, leb, ltb, ◌==◌, if◌then◌else◌, Status, ok, fail, map,
}
use vita_linux_next.Prelude.Int.{ℤ, pos, negsuc, ltb_ℤ, leb_ℤ, pos_part, ◌-ℤ◌}
use vita_linux_next.Input.Probe.{wrap_int32}
use vita_linux_next.Prelude.Loops.{for_from}

-- `CART_WORKER_POOL_MAX`.
abbrev pub max_workers : ℕ
max_workers = 8

-- `struct cart_worker_pool`. The fields from `mutex` on say which objects of the thread library
-- exist, `running` which threads have been created and not joined, `ended` which of them have
-- returned from `worker_main`, and `stuck` whether a call waits for something that never comes.
pub record Pool : Type 0 where
  pub active : Bool
  pub worker_count : ℕ
  pub rows : ℕ
  pub slots : ℕ → ℕ
  pub generation : ℕ
  pub startup_ready : Bool
  pub startup_released : ℕ
  pub shutting_down : Bool
  pub mutex : Bool
  pub cond : Bool
  pub start_barrier : Bool
  pub stop_barrier : Bool
  pub running : ℕ → Bool
  pub ended : ℕ → Bool
  pub stuck : Bool

-- Which calls of the thread library succeed.
pub record Threads : Type 0 where
  pub mutex_init : Bool
  pub cond_init : Bool
  pub start_barrier_init : Bool
  pub stop_barrier_init : Bool
  pub create : ℕ → Bool

-- `memset` and the two fields that follow.
unfoldable pub cleared : ℕ → ℕ → Pool
cleared worker_count rows = record {
  active = false;
  worker_count = worker_count;
  rows = rows;
  slots = λ _. 0;
  generation = 0;
  startup_ready = false;
  startup_released = 0;
  shutting_down = false;
  mutex = false;
  cond = false;
  start_barrier = false;
  stop_barrier = false;
  running = λ _. false;
  ended = λ _. false;
  stuck = false;
}

abbrev pub set_running : Pool → ℕ → Bool → Pool
set_running p k b = record p { running = λ j. if j == k then b else p.running j }

-- The threads that run return from `worker_main`.
abbrev pub all_return : Pool → Pool
all_return p = record p { ended = λ k. p.ended k || p.running k }

-- The workers behind the startup gate: each returns if it finds `shutting_down` set, and counts
-- itself otherwise.
unfoldable pub pass_gate : Pool → Pool
pass_gate p =
    if not p.startup_ready
    then p
    else if p.shutting_down
    then all_return p
    else record p { startup_released = p.worker_count }

-- The workers behind the start barrier, which opens when the caller comes to it: each returns if it
-- finds `shutting_down` set.
unfoldable pub pass_start_barrier : Pool → Pool
pass_start_barrier p =
    if not p.start_barrier
    then record p { stuck = true }
    else if p.shutting_down
    then all_return p
    else p

-- `pthread_join` comes back from a thread that has returned, and from no other.
unfoldable pub join_one : ℕ → Pool → Pool
join_one k p = if p.ended k then set_running p k false else record p { stuck = true }

-- `pthread_join` of the first `n` threads.
unfoldable pub join : ℕ → Pool → Pool
unfolding join_one
join n p = for_from n 0 join_one p

-- The destruction of the barriers, the condition and the mutex, and the two fields that follow.
unfoldable pub destroy : Pool → Pool
destroy p = record p {
  mutex = false;
  cond = false;
  start_barrier = false;
  stop_barrier = false;
  worker_count = 0;
  rows = 0;
}

-- A creation that fails: the workers behind the gate are told to leave and joined.
unfoldable pub abandon : ℕ → Pool → Pool
unfolding pass_gate
abandon started p =
    destroy (join started (pass_gate (record p { shutting_down = true; startup_ready = true })))

-- The loop that creates the threads from `index` on.
unfoldable pub create_from : Threads → ℕ → ℕ → Pool → Status × Pool
create_from os zero index p = (ok, p)
create_from os (suc left) index p =
    let rest = create_from os left (index + 1) (set_running p index true) in
    if os.create index then rest else (fail, abandon index p)

-- The gate is opened, and the call waits until every worker has counted itself.
unfoldable pub open_gate : Pool → Pool
unfolding pass_gate
open_gate p =
    let q = pass_gate (record p { startup_ready = true }) in
    record q { active = true; stuck = q.stuck || ltb q.startup_released q.worker_count }

unfoldable pub opened : Status × Pool → Status × Pool
opened (ok, p) = (ok, open_gate p)
opened (fail, p) = (fail, p)

unfoldable pub start_workers : Threads → Pool → Status × Pool
start_workers os p = opened (create_from os p.worker_count 0 p)

-- The four objects, in order; each path out destroys what has been made.
unfoldable pub set_up : Threads → Pool → Status × Pool
set_up os p =
    let locked = record p { mutex = true } in
    let signalling = record locked { cond = true } in
    let starting = record signalling { start_barrier = true } in
    let stopping = record starting { stop_barrier = true } in
    if not os.mutex_init
    then (fail, p)
    else if not os.cond_init
    then (fail, record locked { mutex = false })
    else if not os.start_barrier_init
    then (fail, record signalling { cond = false; mutex = false })
    else if not os.stop_barrier_init
    then (fail, record starting { start_barrier = false; cond = false; mutex = false })
    else start_workers os stopping

unfoldable pub init_refused : ℤ → ℤ → Bool
init_refused worker_count rows =
    ltb_ℤ worker_count (pos 0) || ltb_ℤ (pos max_workers) worker_count || leb_ℤ rows (pos 0)

-- `cart_worker_pool_init`.
unfoldable pub init : Threads → ℤ → ℤ → Pool → Status × Pool
init os worker_count rows p =
    let q = cleared (pos_part worker_count) (pos_part rows) in
    if init_refused worker_count rows
    then (fail, p)
    else if pos_part worker_count == 0
    then (ok, record q { active = true })
    else set_up os q

-- One call of the job.
pub record Band : Type 0 where
  pub slot : ℕ
  pub row_start : ℤ
  pub row_end : ℤ
  pub frame : ℕ

-- `/` of an `int` by a positive one rounds towards 0.
unfoldable pub quotient : ℤ → ℕ → ℤ
quotient (pos n) k = pos (n / k)
quotient (negsuc n) k = pos 0 -ℤ pos ((n + 1) / k)

-- The first row of a band. The product of two `int`s wraps around at 32 bits (C leaves it undefined
-- then).
unfoldable pub row_of : Pool → ℕ → ℤ
unfolding quotient
row_of p index = quotient (wrap_int32 (pos (index * p.rows))) p.worker_count

-- The band of a worker.
unfoldable pub band_of : Pool → ℕ → Band
band_of p index = record {
  slot = p.slots index;
  row_start = row_of p index;
  row_end = row_of p (index + 1);
  frame = p.generation;
}

unfoldable pub published : Pool → (ℕ → ℕ) → ℕ → Pool
published p slots generation = record p {
  slots = λ i. if ltb i p.worker_count then slots i else p.slots i;
  generation = generation;
}

-- `cart_worker_pool_dispatch` and the workers between its two barriers, which run in the given order.
unfoldable pub dispatch : Pool → List ℕ → (ℕ → ℕ) → ℕ → Status × Pool × List Band
dispatch p order slots generation =
    if not p.active
    then (fail, p, [])
    else if p.worker_count == 0
    then (
      ok,
      p,
      record { slot = slots 0; row_start = pos 0; row_end = pos p.rows; frame = generation } ∷ [],
    )
    else (let q = published p slots generation in (ok, q, map (band_of q) order))

-- `cart_worker_pool_shutdown`.
unfoldable pub shutdown : Pool → Pool
shutdown p =
    if not p.active
    then p
    else if p.worker_count == 0
    then record p { active = false }
    else destroy (
        join p.worker_count
          (pass_start_barrier (record p { active = false; shutting_down = true })))
