-- ===== src/Input/Poll/Desync.antt =====
-- Sources that are out of sync.
use vita_linux_next.Prelude.{
  ℕ, zero, suc, ◌+◌, ◌≡◌, ◌≢◌, refl, ◌∙◌, sym, ap, inl, inr, false, List, [], ◌∷◌, Option, some,
  arith, leb, ◌==◌, ==_iff, length, take, drop, Bool-cases, ◌>>=◌, >>=-eq-some,
}
use vita_linux_next.Prelude.Int.{ℤ}
use vita_linux_next.Input.Actions.{Action, quiet, map_key}
use vita_linux_next.Input.Defs.{
  max_sources, Source, Input, Device, Event, desync, set_source, handle_disconnect, consume_event,
  process_key_event, hold_key, enqueue_action,
}
use vita_linux_next.Input.Pump.{
  Read, bytes, ended, interrupted, again, failed, drain, pump, pump_source,
}
use vita_linux_next.Input.Poll.{poll_source, poll_from, poll, take_action, build_frame, Frame}

enqueue-source : (input : Input) (a : Action) → (enqueue_action input a).source ≡ input.source
unfolding enqueue_action
enqueue-source input quiet = refl
enqueue-source input _ = ground arith

-- The other sources are not touched by an event of source `j`.
key-other :
    (input : Input) (i j code : ℕ) (value : ℤ)
    → j ≢ i
    → (process_key_event input j code value).source i ≡ input.source i
unfolding process_key_event
key-other input i j code value h = ground (
  arith,
  ap (λ (f : ℕ → Source). f i)
      (enqueue-source
        (set_source input j (record s { held_keys = hold_key s.held_keys code value }))
        (map_key code)),
)
  where
    s : Source
    s = input.source j

consume-other :
    (dev : Device) (input : Input) (i j : ℕ) (e : Event)
    → j ≢ i
    → (consume_event dev input j e).source i ≡ input.source i
unfolding consume_event
consume-other dev input i j e h = ground (arith, key-other input i j e.code e.value h)

disconnect-other :
    (input : Input) (i j : ℕ) → j ≢ i → (handle_disconnect input j).source i ≡ input.source i
unfolding handle_disconnect
disconnect-other input i j h = ground arith

other_not_same : (i j : ℕ) → (i == j) ≡ false → i ≢ j
other_not_same i j h = ground arith

module _ (dev : Device) (event_size : ℕ) (decode : List ℕ → Event) where
  -- A row of polls, each with its reads; the last state.
  unfoldable pub polls : List (ℕ → List Read) → Input → Option Input
  polls [] input = some input
  polls (reads ∷ rounds) input = do
    (_, _, after) ← poll dev event_size decode reads input
    polls rounds after

module _ (dev : Device) (event_size : ℕ) (decode : List ℕ → Event) (i : ℕ) where
  drain-other :
      (j f : ℕ) (b : List ℕ) (input : Input)
      → j ≢ i
      → (drain dev event_size decode j f b input).1.source i ≡ input.source i
  unfolding drain
  drain-other j zero b input h = refl
  drain-other j (suc f) b input h = elim (Bool-cases (leb event_size (length b))) [
    | inl e ↦ rw e (
        drain-other j f (drop event_size b) (consume_event dev input j (decode (take event_size b)))
          h
        ∙ consume-other dev input i j (decode (take event_size b)) h)
    | inr e ↦ rw e refl
  ]

  pump-other :
      (j : ℕ) (reads : List Read) (b : List ℕ) (input after : Input)
      → j ≢ i
      → pump dev event_size decode j reads b input ≡ some after
      → after.source i ≡ input.source i
  unfolding pump
  pump-other j [] b input after h e = cc
  pump-other j (bytes c ∷ reads) b input after h e =
      pump-other j reads _ _ after h e ∙ drain-other j (length b) b input h
  pump-other j (interrupted ∷ reads) b input after h e =
      pump-other j reads _ _ after h e ∙ drain-other j (length b) b input h
  pump-other j (again ∷ reads) b input after h e =
      ground (arith, drain-other j (length b) b input h)
  pump-other j (ended ∷ reads) b input after h e =
      let d = (drain dev event_size decode j (length b) b input).1 in
      ground (arith, drain-other j (length b) b input h, disconnect-other d i j h)
  pump-other j (failed ∷ reads) b input after h e =
      let d = (drain dev event_size decode j (length b) b input).1 in
      ground (arith, drain-other j (length b) b input h, disconnect-other d i j h)

  -- Polling source `j` leaves a source that is out of sync alone, also if it is that source.
  poll_source-keeps :
      (j : ℕ) (reads : List Read) (input after : Input)
      → (input.source i).state ≡ desync
      → poll_source dev event_size decode j reads input ≡ some after
      → after.source i ≡ input.source i
  unfolding poll_source pump_source
  poll_source-keeps j reads input after d e = elim (Bool-cases (j == i)) [
    | inl same ↦ ground (arith, ==_iff j i)
    | inr other ↦ ground (
      arith,
      ==_iff j i,
      pump-other j reads (input.partial j) input after (λ eq. other_not_same j i other eq),
    )
  ]

  poll_from-keeps :
      (left j : ℕ) (reads : ℕ → List Read) (input after : Input)
      → (input.source i).state ≡ desync
      → poll_from dev event_size decode left j reads input ≡ some after
      → after.source i ≡ input.source i
  unfolding poll_from
  poll_from-keeps zero j reads input after d e = cc
  poll_from-keeps (suc left) j reads input after d e =
      let (t, first, then_) =
        >>=-eq-some (poll_source dev event_size decode j (reads j) input)
          (poll_from dev event_size decode left (j + 1) reads) e in
      let same = poll_source-keeps j (reads j) input t d first in
      poll_from-keeps left (j + 1) reads t after (ap (λ s. s.state) same ∙ d) then_ ∙ same

  take_action-source : (input : Input) → (take_action input).1.source ≡ input.source
  unfolding take_action
  take_action-source input = ground arith

  poll-keeps :
      (reads : ℕ → List Read) (input after : Input) (action : Action) (frame : Frame)
      → (input.source i).state ≡ desync
      → poll dev event_size decode reads input ≡ some (action, frame, after)
      → after.source i ≡ input.source i
  unfolding poll
  poll-keeps reads input after action frame d e =
      let (t, first, then_) =
        >>=-eq-some (poll_from dev event_size decode max_sources 0 reads input)
          (λ input'. let (a, out) = take_action input' in some (a, build_frame out, out)) e in
      let taken : (take_action t).1 ≡ after = cc in
      sym (ap (λ (s : Input). s.source i) taken)
      ∙ ap (λ (f : ℕ → Source). f i) (take_action-source t)
      ∙ poll_from-keeps max_sources 0 reads input t d first

  polls-keeps :
      (rounds : List (ℕ → List Read)) (input after : Input)
      → (input.source i).state ≡ desync
      → polls dev event_size decode rounds input ≡ some after
      → after.source i ≡ input.source i
  unfolding polls
  polls-keeps [] input after d e = cc
  polls-keeps (reads ∷ rounds) input after d e =
      let ((a, frame, t), first, then_) =
        >>=-eq-some (poll dev event_size decode reads input)
          (λ out. polls dev event_size decode rounds out.2) e in
      let same = poll-keeps reads input t a frame d first in
      polls-keeps rounds t after (ap (λ (s : Source). s.state) same ∙ d) then_ ∙ same

-- A source that is out of sync when `cart_input_poll` is called stays out of sync for good: no later
-- poll, whatever the kernel has to report, changes anything of that source, its held keys and axes
-- included, since the poll passes it over and so never reads the report that would end the desync.
pub desync_stuck :
    (dev : Device) (event_size : ℕ) (decode : List ℕ → Event) (i : ℕ)
    (rounds : List (ℕ → List Read)) (input after : Input)
    → (input.source i).state ≡ desync
    → polls dev event_size decode rounds input ≡ some after
    → after.source i ≡ input.source i
desync_stuck dev event_size decode i rounds input after d e =
    polls-keeps dev event_size decode i rounds input after d e
