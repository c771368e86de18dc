-- ===== src/Workers/Shutdown.antt =====
-- `cart_worker_pool_shutdown` of cart/src/worker_pool.c.
use vita_linux_next.Prelude.{◌≡◌, refl, ◌∙◌, inl, inr, true, false, arith, ==_iff, ◌==◌, Bool-cases}
use vita_linux_next.Workers.{Pool, all_return, pass_start_barrier, shutdown}
use vita_linux_next.Workers.Lifecycle.{Stopped, Live, Running, destroy_joined-Stopped}

shutdown_stopped : (p : Pool) → p.active ≡ false → shutdown p ≡ p
unfolding shutdown
shutdown_stopped p e = rw e refl

-- Without workers there was nothing to begin with.
inline-Stopped :
    (p : Pool) → Live p → (p.worker_count == 0) ≡ true → Stopped (record p { active = false })
inline-Stopped p v e =
    let z = (==_iff _ _).0 e in
    record {
      inactive = refl;
      no_mutex = ground (arith, v.objects, z);
      no_cond = ground (arith, v.objects, z);
      no_start = ground (arith, v.objects, z);
      no_stop = ground (arith, v.objects, z);
      no_thread = λ k. v.threads k ∙ ground (arith, z);
      returned = v.returned;
    }

-- `cart_worker_pool_shutdown` of a pool in use returns: each thread, once past the start barrier,
-- leaves and is joined, and every object is destroyed. A second shutdown changes nothing.
pub shutdown-Stopped :
    (p : Pool) → Live p → Stopped (shutdown p) × (shutdown (shutdown p) ≡ shutdown p)
shutdown-Stopped p v = (stopped, shutdown_stopped (shutdown p) stopped.inactive)
  where
    leaving : Pool
    leaving = all_return (record p { active = false; shutting_down = true; start_barrier = true })

    stopped : Stopped (shutdown p)
    stopped =
        unfold shutdown pass_start_barrier in
        elim (Bool-cases (p.worker_count == 0)) [
          | inl none_run ↦ rw (v.active, none_run) (inline-Stopped p v none_run)
          | inr some_run ↦
              let ready : p.start_barrier ≡ true = ground (arith, v.objects) in
              rw (v.active, some_run, ready)
                (destroy_joined-Stopped p.worker_count leaving (unfold Running in v.threads)
                  (λ k l. ground (arith, v.threads k)) refl v.returned)
        ]
