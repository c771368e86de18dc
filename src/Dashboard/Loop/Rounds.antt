-- ===== src/Dashboard/Loop/Rounds.antt =====
-- What the rounds of the dashboard's loop keep: the screen is one of the four, and no more frames are
-- written than the option allows.
use vita_linux_next.Prelude.{
  ℕ, ◌+◌, ◌≤◌, ◌<◌, ◌≡◌, ◌≢◌, false, not, ◌&&◌, List, [], ◌∷◌, some, arith, leb, ◌==◌, Status, ok,
  fail, if_holds, Bool-cases, inl, inr,
}
use vita_linux_next.Prelude.Text.{codes}
use vita_linux_next.Dashboard.Owner.{System, set_error, refuse}
use vita_linux_next.Dashboard.Owner.Frame.{
  Opening, no_open, no_seek, opened, Outcome, left_after, write_failed, waiting, Returned, done,
  refused, pending, write_frame, send_frame, finish_frame, write_all, is_owned,
}
use vita_linux_next.Dashboard.Input.{Reader, Action, quiet, advance, exit, input_poll}
use vita_linux_next.Dashboard.Screen.{Formats, draw_screen}
use vita_linux_next.Dashboard.Options.{Options}
use vita_linux_next.Dashboard.Loop.{
  Loop, Round, Turn, again, over, stuck, act, poll_after, poll_round, show_after, show_round,
  one_round, carry_on, rounds, elapsed,
}

-- The loop that a turn leaves.
abbrev pub loop_of : Turn → Loop
loop_of (again l) = l
loop_of (over l text rc) = l
loop_of (stuck l) = l

module _ (most : ℕ) where
  -- One of four screens, and at most `most` frames, should there be a limit.
  pub record IsBounded (l : Loop) : Type 0 where
    pub screen : l.screen < 4
    pub frames : most ≢ 0 → l.system.owner.frames_written ≤ most

  act-IsBounded :
      (round : Round) (l : Loop) (a : Action) → IsBounded l → IsBounded (loop_of (act round l a))
  unfolding act
  act-IsBounded round l quiet h = h
  act-IsBounded round l exit h = h
  act-IsBounded round l advance h = record { screen = omega arith; frames = h.frames }

  poll_after-IsBounded :
      (round : Round) (l : Loop) (p : Reader × Action) (rc : Status)
      → IsBounded l
      → IsBounded (loop_of (poll_after round l p rc))
  unfolding poll_after
  poll_after-IsBounded round l (reader, action) fail h = record {
    screen = h.screen;
    frames = h.frames;
  }
  poll_after-IsBounded round l (reader, action) ok h =
      act-IsBounded round (record l { reader = reader }) action
        (record { screen = h.screen; frames = h.frames })

  show_after-IsBounded :
      (round : Round) (l : Loop) (s : System) (rc : Returned)
      → l.screen < 4
      → (most ≢ 0 → s.owner.frames_written ≤ most)
      → IsBounded (loop_of (show_after round l s rc))
  unfolding show_after poll_round
  show_after-IsBounded round l s done h k =
      poll_after-IsBounded round (record l { system = s }) (input_poll round.polled l.reader).0
        (input_poll round.polled l.reader).1 (record { screen = h; frames = k })
  show_after-IsBounded round l s refused h k = record { screen = h; frames = k }
  show_after-IsBounded round l s pending h k = record { screen = h; frames = k }

-- A call counts at most one frame.
finish_frame_count :
    (s : System) (len : ℕ) (r : Outcome × (ℕ → ℕ))
    → (finish_frame s len r).0.owner.frames_written ≤ s.owner.frames_written + 1
unfolding finish_frame set_error
finish_frame_count s len (waiting, screen) = omega arith
finish_frame_count s len (write_failed, screen) = omega arith
finish_frame_count s len (left_after n, screen) = elim (Bool-cases (not (n == len))) [
  | inl e ↦ rw e (omega arith)
  | inr e ↦ rw e (omega arith)
]

send_frame_count :
    (bytes : ℕ → ℕ) (len : ℕ) (o : Opening) (s : System)
    → (send_frame bytes len o s).0.owner.frames_written ≤ s.owner.frames_written + 1
unfolding send_frame set_error
send_frame_count bytes len no_open s = omega arith
send_frame_count bytes len no_seek s = omega arith
send_frame_count bytes len (opened answers) s =
    finish_frame_count s len (write_all bytes len answers 0 s.machine.screen)

pub write_frame_count :
    (bytes : ℕ → ℕ) (len : ℕ) (o : Opening) (s : System)
    → (write_frame (some bytes) len o s).0.owner.frames_written ≤ s.owner.frames_written + 1
unfolding write_frame refuse
write_frame_count bytes len o s = elim (Bool-cases (not (is_owned s.owner.state))) [
  | inl e ↦ rw e (omega arith)
  | inr e ↦ elim (Bool-cases (not (len == s.owner.frame_bytes))) [
    | inl d ↦ rw (e, d) (omega arith)
    | inr d ↦ rw (e, d) (send_frame_count bytes len o s)
  ]
]

module _ (f : Formats) (o : Options) (started : ℕ) where
  room :
      (most count after : ℕ)
      → most ≢ 0
      → (not (most == 0) && leb most count) ≡ false
      → after ≤ count + 1
      → after ≤ most
  room most count after k c h = ground arith

  one_round-IsBounded :
      (round : Round) (l : Loop)
      → IsBounded o.frames_max l
      → IsBounded o.frames_max (loop_of (one_round f o started round l))
  unfolding one_round show_round
  one_round-IsBounded round l h =
      if_holds (λ (t : Turn). IsBounded o.frames_max (loop_of t)) round.stop_requested
        (over l (codes "signal") 0) _ (λ e. h)
        (λ e.
          if_holds (λ (t : Turn). IsBounded o.frames_max (loop_of t))
            (not o.forever && leb o.duration_ms (elapsed round.now_ms started))
            (over l (codes "duration_reached") 0) _ (λ d. h)
            (λ d.
              if_holds (λ (t : Turn). IsBounded o.frames_max (loop_of t))
                (not (o.frames_max == 0) && leb o.frames_max l.system.owner.frames_written)
                (over l (codes "frames_reached") 0) _ (λ c. h)
                (λ c.
                  let drawn =
                    draw_screen f l.screen l.facts l.reader (elapsed round.now_ms started)
                      l.system.owner.frames_written l.renderer in
                  let shown =
                    write_frame (some drawn.memory) drawn.frame_bytes round.opening l.system in
                  show_after-IsBounded o.frames_max round (record l { renderer = drawn }) shown.0
                    shown.1 h.screen
                    (λ k.
                      room o.frames_max l.system.owner.frames_written shown.0.owner.frames_written k
                        c
                        (write_frame_count drawn.memory drawn.frame_bytes round.opening
                          l.system)))))

  carry_on-IsBounded :
      (more : Loop → Turn) (t : Turn)
      → ((l : Loop) → IsBounded o.frames_max l → IsBounded o.frames_max (loop_of (more l)))
      → IsBounded o.frames_max (loop_of t)
      → IsBounded o.frames_max (loop_of (carry_on more t))
  unfolding carry_on
  carry_on-IsBounded more (again l) k h = k l h
  carry_on-IsBounded more (over l text rc) k h = h
  carry_on-IsBounded more (stuck l) k h = h

  -- However long the loop has run and however it is left, the screen is one of the four, and with a
  -- limit on the frames no more of them are counted than the limit, if it was so at the start.
  pub rounds-IsBounded :
      (met : List Round) (l : Loop)
      → IsBounded o.frames_max l
      → IsBounded o.frames_max (loop_of (rounds f o started met l))
  unfolding rounds
  rounds-IsBounded [] l h = h
  rounds-IsBounded (round ∷ met) l h =
      carry_on-IsBounded (rounds f o started met) (one_round f o started round l)
        (rounds-IsBounded met) (one_round-IsBounded round l h)
