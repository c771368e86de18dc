-- ===== src/Workers/Success.antt =====
-- When `cart_worker_pool_init` of cart/src/worker_pool.c succeeds.
use vita_linux_next.Prelude.{
  ℕ, zero, suc, ◌+◌, not, ◌≡◌, refl, inl, inr, Bool, true, false, ◌==◌, if◌then◌else◌, Status, ok,
  fail, Bool-cases,
}
use vita_linux_next.Prelude.Int.{ℤ, pos_part}
use vita_linux_next.Workers.{
  Pool, Threads, set_running, create_from, opened, start_workers, set_up, init_refused, init,
}

create_from_ok :
    (os : Threads) (left index : ℕ) (p : Pool)
    → ((k : ℕ) → os.create k ≡ true)
    → (create_from os left index p).0 ≡ ok
unfolding create_from
create_from_ok os zero index p h = refl
create_from_ok os (suc left) index p h =
    rw (h index) (create_from_ok os left (index + 1) (set_running p index true) h)

opened_ok : (r : Status × Pool) → r.0 ≡ ok → (opened r).0 ≡ ok
unfolding opened
opened_ok (ok, p) e = refl
opened_ok (fail, p) e = e

guarded_ok :
    (done : Bool) (p : Pool) (r : Status × Pool)
    → done ≡ true
    → r.0 ≡ ok
    → (if not done then (fail, p) else r).0 ≡ ok
guarded_ok done p r e h = rw e h

-- With acceptable arguments and a thread library that refuses nothing, `cart_worker_pool_init`
-- succeeds.
pub init_succeeds :
    (os : Threads) (count rows : ℤ) (p : Pool)
    → init_refused count rows ≡ false
    → os.mutex_init ≡ true
    → os.cond_init ≡ true
    → os.start_barrier_init ≡ true
    → os.stop_barrier_init ≡ true
    → ((k : ℕ) → os.create k ≡ true)
    → (init os count rows p).0 ≡ ok
unfolding init set_up start_workers
init_succeeds os count rows p h m c b b' t = elim (Bool-cases (pos_part count == 0)) [
  | inl inline ↦ rw (h, inline) refl
  | inr threaded ↦
      rw (h, threaded)
        (guarded_ok os.mutex_init _ _ m (
          guarded_ok os.cond_init _ _ c (
            guarded_ok os.start_barrier_init _ _ b
              (guarded_ok os.stop_barrier_init _ _ b' (opened_ok _ (create_from_ok os _ 0 _ t))))))
]
