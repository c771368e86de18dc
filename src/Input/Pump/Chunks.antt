-- ===== src/Input/Pump/Chunks.antt =====
-- How the reads cut the stream of bytes does not matter.
use mathlib.Core.List.{append-nil, append_assoc}
use mathlib.Core.Path.{ap₂}
use vita_linux_next.Prelude.{
  ℕ, zero, suc, ◌≤◌, ◌<◌, ◌≡◌, refl, ◌∙◌, sym, ap, inl, inr, true, false, List, [], ◌∷◌, ◌++◌, some,
  arith, tests, leb, length, take, drop, length-append, length-drop, Bool-cases, leb→le,
}
use vita_linux_next.Input.Defs.{Input, Device, Event, consume_event}
use vita_linux_next.Input.Pump.{
  Read, bytes, ended, interrupted, again, failed, keep_partial, drain, pump, pump_source,
}

take-append : (n : ℕ) (xs ys : List ℕ) → n ≤ length xs → take n (xs ++ ys) ≡ take n xs
take-append zero xs ys h = refl
take-append (suc n) [] ys h = elim h [ ]
take-append (suc n) (x ∷ xs) ys h = ap (◌∷◌ x) (take-append n xs ys (omega arith))

drop-append : (n : ℕ) (xs ys : List ℕ) → n ≤ length xs → drop n (xs ++ ys) ≡ drop n xs ++ ys
drop-append zero xs ys h = refl
drop-append (suc n) [] ys h = elim h [ ]
drop-append (suc n) (x ∷ xs) ys h = drop-append n xs ys (omega arith)

module _ (dev : Device) (event_size : ℕ) (decode : List ℕ → Event) (i : ℕ)
    (positive : 0 < event_size) where
  abbrev pub drained : ℕ → List ℕ → Input → List ℕ × Input
  drained = drain dev event_size decode i

  abbrev next_input : List ℕ → Input → Input
  next_input b s = consume_event dev s i (decode (take event_size b))

  drain_short : (f : ℕ) (b : List ℕ) (s : Input) → length b < event_size → drained f b s ≡ (b, s)
  unfolding drain
  drain_short zero b s h = refl
  drain_short (suc f) b s h = let e : leb event_size (length b) ≡ false = ground arith in rw e refl

  drain_long :
      (f : ℕ) (b : List ℕ) (s : Input)
      → event_size ≤ length b
      → drained (suc f) b s ≡ drained f (drop event_size b) (next_input b s)
  unfolding drain
  drain_long f b s h = let e : leb event_size (length b) ≡ true = ground arith in rw e refl

  -- Fuel for the whole buffer is enough.
  drain_fuel :
      (f g : ℕ) (b : List ℕ) (s : Input)
      → length b ≤ f
      → length b ≤ g
      → drained f b s ≡ drained g b s
  drain_fuel zero g b s hf hg =
      drain_short zero b s (omega arith) ∙ sym (drain_short g b s (omega arith))
  drain_fuel (suc f) zero b s hf hg =
      drain_short (suc f) b s (omega arith) ∙ sym (drain_short zero b s (omega arith))
  drain_fuel (suc f) (suc g) b s hf hg = elim (Bool-cases (leb event_size (length b))) [
    | inr short ↦
        drain_short (suc f) b s (omega tests) ∙ sym (drain_short (suc g) b s (omega tests))
    | inl long ↦
        let h = leb→le event_size (length b) long in
        let l = length-drop event_size b in
        drain_long f b s h
        ∙ drain_fuel f g (drop event_size b) (next_input b s) (omega (arith, l)) (omega (arith, l))
        ∙ sym (drain_long g b s h)
  ]

  -- Draining a buffer and then what follows is draining both at once.
  abbrev resumed : List ℕ → List ℕ × Input → List ℕ × Input
  resumed more (left, s) = drained (length (left ++ more)) (left ++ more) s

  drain_resume :
      (f g : ℕ) (b more : List ℕ) (s : Input)
      → length b ≤ f
      → length (b ++ more) ≤ g
      → drained g (b ++ more) s ≡ resumed more (drained f b s)
  drain_resume zero g b more s hf hg =
      rw (drain_short zero b s (omega arith))
        (drain_fuel g (length (b ++ more)) (b ++ more) s hg (omega arith))
  drain_resume (suc f) g b more s hf hg = elim (Bool-cases (leb event_size (length b))) [
    | inr short ↦
        rw (drain_short (suc f) b s (omega tests))
          (drain_fuel g (length (b ++ more)) (b ++ more) s hg (omega arith))
    | inl long ↦
        let h = leb→le event_size (length b) long in
        let l = length-append {0} b more in
        let d = length-drop event_size b in
        let d' = length-append {0} (drop event_size b) more in
        drain_fuel g (suc g) (b ++ more) s hg (omega arith)
        ∙ drain_long g (b ++ more) s (omega (arith, l))
        ∙ ap₂ (drained g) (drop-append event_size b more h)
            (ap (λ t. consume_event dev s i (decode t)) (take-append event_size b more h))
        ∙ drain_resume f g (drop event_size b) more (next_input b s) (omega (arith, d))
            (omega (arith, d, d', l))
        ∙ ap (resumed more) (sym (drain_long f b s h))
  ]

  -- The bytes of reads that neither end the stream nor find it empty.
  abbrev pub payload : List Read → List ℕ
  payload [] = []
  payload (bytes b ∷ reads) = b ++ payload reads
  payload (_ ∷ reads) = payload reads

  abbrev pub GoesOn : List Read → Type 0
  GoesOn [] = Unit {0}
  GoesOn (bytes b ∷ reads) = GoesOn reads
  GoesOn (interrupted ∷ reads) = GoesOn reads
  GoesOn (_ ∷ reads) = ⊥

  -- Everything at once: all the bytes are in the buffer before any event is consumed.
  abbrev pub at_once : List ℕ → Input → List ℕ × Input
  at_once all s = drained (length all) all s

  pump-at_once :
      (reads rest : List Read) (b : List ℕ) (s : Input)
      → GoesOn reads
      → pump dev event_size decode i (reads ++ (again ∷ rest)) b s
        ≡ some (keep_partial i (at_once (b ++ payload reads) s))
  unfolding pump
  pump-at_once [] rest b s h = ap (λ t. some (keep_partial i (at_once t s))) (sym (append-nil b))
  pump-at_once (bytes c ∷ reads) rest b s h =
      let (left, s') = drained (length b) b s in
      pump-at_once reads rest (left ++ c) s' h
      ∙ ap (λ t. some (keep_partial i (at_once t s'))) (append_assoc left c (payload reads))
      ∙ ap (λ t. some (keep_partial i t))
          (sym (
            drain_resume (length b) (length (b ++ (c ++ payload reads))) b (c ++ payload reads) s
              (omega arith) (omega arith)))
  pump-at_once (interrupted ∷ reads) rest b s h =
      let (left, s') = drained (length b) b s in
      pump-at_once reads rest left s' h
      ∙ ap (λ t. some (keep_partial i t))
          (sym (
            drain_resume (length b) (length (b ++ payload reads)) b (payload reads) s (omega arith)
              (omega arith)))
  pump-at_once (ended ∷ reads) rest b s h = elim h [ ]
  pump-at_once (again ∷ reads) rest b s h = elim h [ ]
  pump-at_once (failed ∷ reads) rest b s h = elim h [ ]

  -- One poll of a source. However the kernel cuts the bytes of the events into reads, also in the
  -- middle of an event and with interrupted reads between, a poll that reads until nothing is left
  -- ends in the state of one that has all the bytes at once: the same events in the same order, and
  -- the same bytes of an incomplete event kept for the next poll.
  pub pump_chunks :
      (reads rest : List Read) (input : Input)
      → GoesOn reads
      → pump_source dev event_size decode i (reads ++ (again ∷ rest)) input
        ≡ some (keep_partial i (at_once (input.partial i ++ payload reads) input))
  unfolding pump_source
  pump_chunks reads rest input h = pump-at_once reads rest (input.partial i) input h

  -- What is kept is shorter than an event.
  drain_rest :
      (f : ℕ) (b : List ℕ) (s : Input) → length b ≤ f → length (drained f b s).0 < event_size
  drain_rest zero b s h = rw (drain_short zero b s (omega arith)) (omega arith)
  drain_rest (suc f) b s h = elim (Bool-cases (leb event_size (length b))) [
    | inr short ↦ rw (drain_short (suc f) b s (omega tests)) (omega tests)
    | inl long ↦ rw (drain_long f b s (leb→le event_size (length b) long)) (
        drain_rest f (drop event_size b) (next_input b s) (omega (arith, length-drop event_size b)))
  ]
