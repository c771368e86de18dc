-- ===== src/Workers/Tests.antt =====
-- Pools of cart/src/worker_pool.c with four workers, and the laws at them.
use vita_linux_next.Prelude.{
  ℕ, ◌+◌, ◌≡◌, refl, true, false, List, [], ◌∷◌, arith, ltb, if◌then◌else◌, ok,
}
use vita_linux_next.Workers.{Pool, Threads, dispatch, shutdown}
use vita_linux_next.Workers.Lifecycle.{Live, Stopped}
use vita_linux_next.Workers.Shutdown.{shutdown-Stopped}
use vita_linux_next.Workers.Bands.{covered, occurs, dispatch_rows}

-- A thread library that refuses the third thread.
abbrev scarce : Threads
scarce = record {
  mutex_init = true;
  cond_init = true;
  start_barrier_init = true;
  stop_barrier_init = true;
  create = λ k. ltb k 2;
}

abbrev generous : Threads
generous = record scarce { create = λ _. true }

abbrev pool : Pool
pool = record {
  active = true;
  worker_count = 4;
  rows = 180;
  slots = λ i. i;
  generation = 0;
  startup_ready = true;
  startup_released = 4;
  shutting_down = false;
  mutex = true;
  cond = true;
  start_barrier = true;
  stop_barrier = true;
  running = λ k. ltb k 4;
  ended = λ _. false;
  stuck = false;
}

pool-Live : Live pool
pool-Live = record {
  active = refl;
  few = omega arith;
  some_row = omega arith;
  objects = (refl, refl, refl, refl);
  threads = λ k. refl;
  returned = refl;
}

shutdown-Stopped_example : Stopped (shutdown pool) × (shutdown (shutdown pool) ≡ shutdown pool)
shutdown-Stopped_example = shutdown-Stopped pool pool-Live

abbrev order : List ℕ
order = 2 ∷ 0 ∷ 3 ∷ 1 ∷ []

once : (i : ℕ) → occurs i order ≡ (if ltb i 4 then 1 else 0)
unfolding occurs
once i = ground arith

dispatch_rows_example :
    ((dispatch pool order (λ i. i + 10) 7).0 ≡ ok)
    × (covered 99 (dispatch pool order (λ i. i + 10) 7).2 ≡ (if ltb 99 180 then 1 else 0))
dispatch_rows_example =
    dispatch_rows pool order (λ i. i + 10) 7 99 refl (omega arith) (omega arith) once
