-- ===== src/Tools/InputWatch/Stream.antt =====
-- The counts of vita-inputwatch.c do not depend on how the bytes arrive, and stop at the limit.
use native.Mathlib.Nat.{suc-mul, zero-mul}
use vita_linux_next.Prelude.{
  ℕ, zero, suc, ◌+◌, ◌-◌, ◌*◌, ◌≤◌, ◌<◌, ◌≡◌, refl, sym, ap, ◌∙◌, not, ◌&&◌, List, [], ◌∷◌, ◌++◌,
  arith, ltb, leb, ◌==◌, length, take, drop, Bool-cases, inl, inr, if_holds, length-append,
  length-take, take-append-drop,
}
use vita_linux_next.Prelude.Int.{pos, ◌-ℤ◌, leb_ℤ}
use vita_linux_next.Input.Probe.{wrap_int32}
use vita_linux_next.Tools.InputWatch.{
  Counts, Event, count_event, no_counts, Watch, Polled, interrupted, broken, timeout, ready,
  Received, ended, again, failed_read, bytes, WatchRound, Step, go, stop, lesser, take_in,
  receive_event, after_poll, watch_round, keep_going, watch,
}

append_assoc_bytes : (a b c : List ℕ) → (a ++ b) ++ c ≡ a ++ (b ++ c)
append_assoc_bytes [] b c = refl
append_assoc_bytes (x ∷ a) b c = ap (λ (l : List ℕ). x ∷ l) (append_assoc_bytes a b c)

take-append_whole : (a b : List ℕ) → take (length a) (a ++ b) ≡ a
take-append_whole [] b = refl
take-append_whole (x ∷ a) b = ap (λ (l : List ℕ). x ∷ l) (take-append_whole a b)

drop-append_whole : (a b : List ℕ) → drop (length a) (a ++ b) ≡ b
drop-append_whole [] b = refl
drop-append_whole (x ∷ a) b = drop-append_whole a b

drop-drop : (m n : ℕ) (l : List ℕ) → drop m (drop n l) ≡ drop (n + m) l
drop-drop m zero l = let e : zero + m ≡ m = omega arith in rw e refl
drop-drop zero (suc n) [] = let e : suc n + zero ≡ suc n = omega arith in rw e refl
drop-drop (suc m) (suc n) [] = let e : suc n + suc m ≡ suc (n + suc m) = omega arith in rw e refl
drop-drop m (suc n) (x ∷ l) =
    let e : suc n + m ≡ suc (n + m) = omega arith in rw e (drop-drop m n l)

take_of_length : (a b : List ℕ) (n : ℕ) → length a ≡ n → take n (a ++ b) ≡ a
take_of_length a b n e = rw (← e) (take-append_whole a b)

drop_of_length : (a b : List ℕ) (n : ℕ) → length a ≡ n → drop n (a ++ b) ≡ b
drop_of_length a b n e = rw (← e) (drop-append_whole a b)

-- Where a step leaves the loop.
abbrev pub watch_of : Step → Watch
watch_of (go w) = w
watch_of (stop w status) = w

module _ (size : ℕ) (decode : List ℕ → Event) where
  -- The counts of the first `k` events of a stream of bytes.
  abbrev pub counted : ℕ → List ℕ → Counts
  counted zero stream = no_counts
  counted (suc k) stream =
      count_event (decode (take size (drop (k * size) stream))) (counted k stream)

  -- After `k` events, what is pending and what is still to come are the rest of the stream.
  pub record IsAt (stream : List ℕ) (k : ℕ) (w : Watch) : Type 0 where
    pub counts : w.counts ≡ counted k stream
    pub rest : w.pending ++ w.stream ≡ drop (k * size) stream
    pub short : length w.pending < size

  abbrev pub Counted : List ℕ → Watch → Type 0
  Counted stream w = (k : ℕ) × IsAt stream k w

  take_in-Counted :
      (stream : List ℕ) (w : Watch) (n : ℕ)
      → n ≤ size - length w.pending
      → 0 < size
      → Counted stream w
      → Counted stream (take_in size decode w n)
  unfolding take_in
  take_in-Counted stream w n fits some_size (k, h) =
      let whole : (w.pending ++ take n w.stream) ++ drop n w.stream ≡ drop (k * size) stream =
        append_assoc_bytes w.pending (take n w.stream) (drop n w.stream)
        ∙ ap (λ (l : List ℕ). w.pending ++ l) (take-append-drop n w.stream)
        ∙ h.rest in
      elim (Bool-cases (length (w.pending ++ take n w.stream) == size)) [
        | inr e ↦
            let room : length (w.pending ++ take n w.stream) ≤ size =
              omega (
                arith,
                length-append w.pending (take n w.stream),
                length-take n w.stream,
                h.short,
              ) in
            rw e (k, record { counts = h.counts; rest = whole; short = ground (arith, room) })
        | inl e ↦
            let q : length (w.pending ++ take n w.stream) ≡ size = ground arith in
            let event : take size (drop (k * size) stream) ≡ w.pending ++ take n w.stream =
              ap (take size) (sym whole)
              ∙ take_of_length (w.pending ++ take n w.stream) (drop n w.stream) size q in
            let behind : drop n w.stream ≡ drop (suc k * size) stream =
              sym (drop_of_length (w.pending ++ take n w.stream) (drop n w.stream) size q)
              ∙ ap (drop size) whole
              ∙ drop-drop size (k * size) stream
              ∙ ap (λ (m : ℕ). drop m stream) (sym (suc-mul k size)) in
            rw e (
              suc k,
              record {
                counts = (λ i. count_event (decode (sym event i)) (h.counts i));
                rest = behind;
                short = some_size;
              },
            )
      ]

  module _ (some_size : 0 < size) (stream : List ℕ) where
    receive_event-Counted :
        (w : Watch) (r : Received)
        → Counted stream w
        → Counted stream (watch_of (receive_event size decode w r))
    unfolding receive_event
    receive_event-Counted w ended h = h
    receive_event-Counted w again h = h
    receive_event-Counted w failed_read h = h
    receive_event-Counted w (bytes n) h =
        take_in-Counted stream w (lesser n (size - length w.pending)) (ground arith) some_size h

    after_poll-Counted :
        (w : Watch) (r : Received) (p : Polled)
        → Counted stream w
        → Counted stream (watch_of (after_poll size decode w r p))
    unfolding after_poll
    after_poll-Counted w r interrupted h = h
    after_poll-Counted w r broken h = h
    after_poll-Counted w r timeout h = h
    after_poll-Counted w r (ready hung readable) h =
        if_holds (λ (s : Step). Counted stream (watch_of s)) (hung && not readable) (stop w 1)
          (receive_event size decode w r) (λ e. h) (λ e. receive_event-Counted w r h)

    watch_round-Counted :
        (duration_ms max_events : ℕ) (round : WatchRound) (w : Watch)
        → Counted stream w
        → Counted stream (watch_of (watch_round size decode duration_ms max_events round w))
    unfolding watch_round
    watch_round-Counted duration_ms max_events round w h =
        if_holds (λ (s : Step). Counted stream (watch_of s))
          (ltb 0 max_events && leb max_events w.counts.events_seen) (stop w 0) _ (λ e. h)
          (λ e.
            if_holds (λ (s : Step). Counted stream (watch_of s))
              (leb_ℤ (wrap_int32 (pos duration_ms) -ℤ round.elapsed_ms) (pos 0)) (stop w 1)
              (after_poll size decode w round.received round.polled) (λ d. h)
              (λ d. after_poll-Counted w round.received round.polled h))

    keep_going-Counted :
        (more : Watch → Step) (s : Step)
        → ((w : Watch) → Counted stream w → Counted stream (watch_of (more w)))
        → Counted stream (watch_of s)
        → Counted stream (watch_of (keep_going more s))
    keep_going-Counted more (go w) k h = k w h
    keep_going-Counted more (stop w status) k h = h

    watch-Counted :
        (duration_ms max_events : ℕ) (rounds : List WatchRound) (w : Watch)
        → Counted stream w
        → Counted stream (watch_of (watch size decode duration_ms max_events rounds w))
    unfolding watch
    watch-Counted duration_ms max_events [] w h = h
    watch-Counted duration_ms max_events (round ∷ more) w h =
        keep_going-Counted (watch size decode duration_ms max_events more)
          (watch_round size decode duration_ms max_events round w)
          (watch-Counted duration_ms max_events more)
          (watch_round-Counted duration_ms max_events round w h)

  -- However the bytes of a device come, in what pieces and with what interruptions, whenever the loop
  -- is left and while it runs: the counts are those of the first events of the stream of bytes, one
  -- after the other and none twice, and less than an event is pending.
  pub watch_counts :
      (duration_ms max_events : ℕ) (rounds : List WatchRound) (stream : List ℕ)
      → 0 < size
      → Counted stream (
          watch_of (
            watch size decode duration_ms max_events rounds
              (record { counts = no_counts; pending = []; stream = stream })))
  watch_counts duration_ms max_events rounds stream some_size =
      watch-Counted some_size stream duration_ms max_events rounds _ (
        0,
        record {
          counts = refl;
          rest = ap (λ (m : ℕ). drop m stream) (sym (zero-mul size));
          short = some_size;
        },
      )
