-- ===== src/Workers/Lifecycle.antt =====
-- The life of a pool of cart/src/worker_pool.c: nothing of the thread library is leaked.
use vita_linux_next.Prelude.{
  ℕ, ◌+◌, ◌≤◌, ◌<◌, ◌≡◌, refl, ◌∙◌, true, false, arith, ltb, if◌then◌else◌, Status, ok, fail,
}
use vita_linux_next.Prelude.Loops.{for_from-keeps}
use vita_linux_next.Workers.{Pool, join_one, join, destroy, max_workers}

-- No object exists, no thread runs, and no call waits in vain.
pub record Stopped (p : Pool) : Type 0 where
  pub inactive : p.active ≡ false
  pub no_mutex : p.mutex ≡ false
  pub no_cond : p.cond ≡ false
  pub no_start : p.start_barrier ≡ false
  pub no_stop : p.stop_barrier ≡ false
  pub no_thread : (k : ℕ) → p.running k ≡ false
  pub returned : p.stuck ≡ false

-- Exactly the threads below `n` run.
unfoldable pub Running : ℕ → Pool → Type 0
Running n p = (k : ℕ) → p.running k ≡ ltb k n

-- A pool in use: inline without workers, and otherwise with all its objects and all its threads.
pub record Live (p : Pool) : Type 0 where
  pub active : p.active ≡ true
  pub few : p.worker_count ≤ max_workers
  pub some_row : 0 < p.rows
  pub objects :
      (p.mutex ≡ ltb 0 p.worker_count)
      × (p.cond ≡ ltb 0 p.worker_count)
      × (p.start_barrier ≡ ltb 0 p.worker_count)
      × (p.stop_barrier ≡ ltb 0 p.worker_count)
  pub threads : (k : ℕ) → p.running k ≡ ltb k p.worker_count
  pub returned : p.stuck ≡ false

-- Which threads below `n` a join of `m` of them has taken, and what it leaves alone.
record Joined (m n : ℕ) (p q : Pool) : Type 0 where
  taken : (k : ℕ) → q.running k ≡ (if ltb k m then false else p.running k)
  same_ended : (k : ℕ) → q.ended k ≡ p.ended k
  same_active : q.active ≡ p.active
  same_stuck : q.stuck ≡ p.stuck

-- Threads that have returned can be joined.
join_one-Joined :
    (m n : ℕ) (p q : Pool)
    → m < n
    → ((k : ℕ) → k < n → p.ended k ≡ true)
    → Joined m n p q
    → Joined (m + 1) n p (join_one m q)
unfolding join_one
join_one-Joined m n p q h returned j =
    let e : q.ended m ≡ true = j.same_ended m ∙ returned m h in
    rw e (record {
      taken = λ k. ground (arith, j.taken k);
      same_ended = j.same_ended;
      same_active = j.same_active;
      same_stuck = j.same_stuck;
    })

join-Joined : (n : ℕ) (p : Pool) → ((k : ℕ) → k < n → p.ended k ≡ true) → Joined n n p (join n p)
unfolding join
join-Joined n p returned =
    for_from-keeps (λ m q. Joined m n p q) join_one n 0 n p (omega arith)
      (λ m q _ h j. join_one-Joined m n p q h returned j)
      (record {
        taken = λ k. ground arith;
        same_ended = λ k. refl;
        same_active = refl;
        same_stuck = refl;
      })

pub destroy_joined-Stopped :
    (n : ℕ) (p : Pool)
    → Running n p
    → ((k : ℕ) → k < n → p.ended k ≡ true)
    → p.active ≡ false
    → p.stuck ≡ false
    → Stopped (destroy (join n p))
unfolding destroy Running
destroy_joined-Stopped n p running returned inactive free =
    let j = join-Joined n p returned in
    record {
      inactive = j.same_active ∙ inactive;
      no_mutex = refl;
      no_cond = refl;
      no_start = refl;
      no_stop = refl;
      no_thread = λ k. ground (arith, j.taken k, running k);
      returned = j.same_stuck ∙ free;
    }

-- The fields that starting a thread keeps.
record SameButThreads (p q : Pool) : Type 0 where
  same_active : q.active ≡ p.active
  same_count : q.worker_count ≡ p.worker_count
  same_rows : q.rows ≡ p.rows
  same_stuck : q.stuck ≡ p.stuck
  same_leaving : q.shutting_down ≡ p.shutting_down
  same_objects :
      (q.mutex ≡ p.mutex)
      × (q.cond ≡ p.cond)
      × (q.start_barrier ≡ p.start_barrier)
      × (q.stop_barrier ≡ p.stop_barrier)

-- Either all threads run at the end of the loop, or none does and nothing is left.
Created : ℕ → Pool → Status × Pool → Type 0
Created n p (ok, q) = Running n q × SameButThreads p q
Created n p (fail, q) = Stopped q

-- What a call that was not refused leaves behind.
pub Settled : Status × Pool → Type 0
Settled (ok, p) = Live p
Settled (fail, p) = Stopped p
