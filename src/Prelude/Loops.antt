-- ===== src/Prelude/Loops.antt =====
-- Counted loops with their rules, and checks of every value below a bound.
use vita_linux_next.Prelude.{ℕ, zero, suc, ◌+◌, ◌<◌, ◌≤◌, ◌≡◌, ◌&&◌, Bool, true, arith}

-- `for (k = start; k < start + left; k++) s = body(k, s)`.
unfoldable pub for_from {ℓ} : {S : Type ℓ} → ℕ → ℕ → (ℕ → S → S) → S → S
for_from zero start body s = s
for_from (suc left) start body s = for_from left (start + 1) body (body start s)

-- What holds before round `start` holds, moved along, after the last round.
pub for_from-keeps {ℓ κ} :
    {S : Type ℓ} (P : ℕ → S → Type κ) (body : ℕ → S → S) (left start stop : ℕ) (s : S)
    → start + left ≡ stop
    → ((k : ℕ) (s : S) → start ≤ k → k < stop → P k s → P (k + 1) (body k s))
    → P start s
    → P stop (for_from left start body s)
unfolding for_from
for_from-keeps P body zero start stop s e keep h =
    let e' : start ≡ stop = omega arith in rw (← e') h
for_from-keeps P body (suc left) start stop s e keep h =
    for_from-keeps P body left (start + 1) stop (body start s) (omega arith)
      (λ k t lo hi p. keep k t (omega arith) hi p) (keep start s (omega arith) (omega arith) h)

-- A decidable statement of every number below `n`.
unfoldable pub all_below : ℕ → (ℕ → Bool) → Bool
all_below zero test = true
all_below (suc bound) test = test bound && all_below bound test

pub all_below_sound :
    (bound : ℕ) (test : ℕ → Bool) (value : ℕ)
    → all_below bound test ≡ true
    → value < bound
    → test value ≡ true
unfolding all_below
all_below_sound zero test value passed below = elim below [ ]
all_below_sound (suc bound) test value passed below =
    ground (arith, all_below_sound bound test value)
