-- ===== src/Tools/Bench/Verdict.antt =====
-- What vita-bench.c takes for a success.
use vita_linux_next.Prelude.{ℕ, ◌≡◌, refl, true, false, List, [], ◌∷◌, some}
use vita_linux_next.Tools.Bench.{
  Work, compute, copy, fill, Worker, joined_checksum, all_created, run_memory,
}

-- A worker whose thread runs but which gets no memory.
abbrev pub starved : ℕ → Worker
starved address = record { created = true; source = false; destination = false; address = address }

-- Such workers by twos, with any addresses.
abbrev pub starved_pairs : List (ℕ × ℕ) → List Worker
starved_pairs [] = []
starved_pairs ((a, b) ∷ more) = starved a ∷ starved b ∷ starved_pairs more

-- Work that needs memory.
abbrev pub NeedsMemory : Work → Type 0
NeedsMemory compute = ⊥
NeedsMemory copy = Unit {0}
NeedsMemory fill = Unit {0}

pairs_cancel :
    (work : Work) (rounds bytes : ℕ) (pairs : List (ℕ × ℕ))
    → NeedsMemory work
    → joined_checksum work rounds bytes (starved_pairs pairs) 0 ≡ 0
unfolding joined_checksum
pairs_cancel work rounds bytes [] h = refl
pairs_cancel compute rounds bytes ((a, b) ∷ more) h = elim h [ ]
pairs_cancel copy rounds bytes ((a, b) ∷ more) h = pairs_cancel copy rounds bytes more h
pairs_cancel fill rounds bytes ((a, b) ∷ more) h = pairs_cancel fill rounds bytes more h

pairs_created : (pairs : List (ℕ × ℕ)) → all_created (starved_pairs pairs) ≡ true
unfolding all_created
pairs_created [] = refl
pairs_created ((a, b) ∷ more) = pairs_created more

-- Copying or filling memory with an even number of workers none of which gets its memory counts as a
-- success with the checksum 0: each of them leaves `UINT64_MAX` as its mark, and two marks cancel.
pub run_memory_misses :
    (work : Work) (rounds bytes : ℕ) (pairs : List (ℕ × ℕ))
    → NeedsMemory work
    → run_memory true true work rounds bytes (starved_pairs pairs) ≡ some 0
unfolding run_memory
run_memory_misses work rounds bytes pairs h =
    rw (pairs_created pairs, pairs_cancel work rounds bytes pairs h) refl
