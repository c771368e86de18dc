-- ===== src/Dashboard/Loop/Limit.antt =====
-- When the loop of the dashboard's main.c is left because of the limit on its frames.
use vita_linux_next.Prelude.{
  ℕ, ◌+◌, ◌^◌, ◌≤◌, ◌<◌, ◌≡◌, ◌≢◌, refl, ◌∙◌, false, not, ◌&&◌, List, [], ◌∷◌, some, arith, leb,
  ◌==◌, Status, ok, fail, length, if_holds, Bool-cases, inl, inr,
}
use vita_linux_next.Prelude.Text.{codes}
use vita_linux_next.Dashboard.Owner.{System, owned, word}
use vita_linux_next.Dashboard.Owner.Frame.{
  Opening, no_open, no_seek, opened, Outcome, left_after, write_failed, waiting, Returned, done,
  refused, pending, write_frame, send_frame, finish_frame, write_all, is_owned,
}
use vita_linux_next.Dashboard.Owner.Frame.Whole.{IsProgress, writes, write_frame_ends, was_owned}
use vita_linux_next.Dashboard.Input.{Reader, Action, quiet, advance, exit, input_poll}
use vita_linux_next.Dashboard.Screen.{Formats, draw_screen}
use vita_linux_next.Dashboard.Options.{Options}
use vita_linux_next.Dashboard.Loop.{
  Loop, Round, Turn, again, over, stuck, act, poll_after, poll_round, show_after, show_round,
  one_round, carry_on, rounds, elapsed,
}

-- The loop has been left, with a status and an exit code.
abbrev pub IsOver : Turn → Type 0
IsOver (again l) = ⊥
IsOver (over l text rc) = Unit {0}
IsOver (stuck l) = ⊥

-- A device that cannot be opened, or that takes at least one byte of a frame at each write.
abbrev pub Answers : ℕ → Opening → Type 0
Answers size no_open = Unit {0}
Answers size no_seek = Unit {0}
Answers size (opened answers) = IsProgress answers × (size ≤ writes answers)

abbrev pub AllAnswer : ℕ → List Round → Type 0
AllAnswer size [] = Unit {0}
AllAnswer size (round ∷ met) = Answers size round.opening × AllAnswer size met

-- What a write does to the count: it returns, and if it succeeds one more frame is counted.
abbrev Counted : System → System × Returned → Type 0
Counted s (t, done) =
    (t.owner.frames_written ≡ word (s.owner.frames_written + 1))
    × (t.owner.frame_bytes ≡ s.owner.frame_bytes)
Counted s (t, refused) = Unit {0}
Counted s (t, pending) = ⊥

finish_frame-Counted :
    (s : System) (len : ℕ) (r : Outcome × (ℕ → ℕ))
    → (finish_frame s len r).1 ≢ pending
    → Counted s (finish_frame s len r)
unfolding finish_frame
finish_frame-Counted s len (waiting, screen) n = absurd (n refl)
finish_frame-Counted s len (write_failed, screen) n = tt
finish_frame-Counted s len (left_after count, screen) n =
    if_holds (Counted s) (not (count == len)) _ _ (λ e. tt) (λ e. (refl, refl))

send_frame-Counted :
    (bytes : ℕ → ℕ) (len : ℕ) (o : Opening) (s : System)
    → (send_frame bytes len o s).1 ≢ pending
    → Counted s (send_frame bytes len o s)
unfolding send_frame
send_frame-Counted bytes len no_open s n = tt
send_frame-Counted bytes len no_seek s n = tt
send_frame-Counted bytes len (opened answers) s n =
    finish_frame-Counted s len (write_all bytes len answers 0 s.machine.screen) n

-- Such a device does not keep the call waiting.
returns :
    (bytes : ℕ → ℕ) (o : Opening) (s : System)
    → Answers s.owner.frame_bytes o
    → s.owner.state ≡ owned
    → (write_frame (some bytes) s.owner.frame_bytes o s).1 ≢ pending
unfolding write_frame send_frame
returns bytes no_open s a h =
    let yes : not (is_owned s.owner.state) ≡ false = simp (h) in
    let same : not (s.owner.frame_bytes == s.owner.frame_bytes) ≡ false = ground arith in
    λ e. cc (rw (yes, same) at e)
returns bytes no_seek s a h =
    let yes : not (is_owned s.owner.state) ≡ false = simp (h) in
    let same : not (s.owner.frame_bytes == s.owner.frame_bytes) ≡ false = ground arith in
    λ e. cc (rw (yes, same) at e)
returns bytes (opened answers) s a h = λ e. cc (write_frame_ends bytes answers s h a.0 a.1)

write_frame-Counted :
    (bytes : ℕ → ℕ) (len : ℕ) (o : Opening) (s : System)
    → Answers s.owner.frame_bytes o
    → Counted s (write_frame (some bytes) len o s)
unfolding write_frame
write_frame-Counted bytes len o s a = elim (Bool-cases (not (is_owned s.owner.state))) [
  | inl e ↦ rw e tt
  | inr e ↦ elim (Bool-cases (not (len == s.owner.frame_bytes))) [
    | inl d ↦ rw (e, d) tt
    | inr d ↦
        let q : len ≡ s.owner.frame_bytes = ground arith in
        rw (e, d, q)
          (send_frame-Counted bytes s.owner.frame_bytes o s (
            let r = returns bytes o s a (was_owned s.owner.state e) in
            let same : not (s.owner.frame_bytes == s.owner.frame_bytes) ≡ false = ground arith in
            rw (e, same) at r))
  ]
]

abbrev count_of : Loop → ℕ
count_of l = l.system.owner.frames_written

abbrev size_of : Loop → ℕ
size_of l = l.system.owner.frame_bytes

-- A turn that goes on has written a frame.
abbrev Next : ℕ → ℕ → Turn → Type 0
Next count size (again l) = (count_of l ≡ count) × (size_of l ≡ size)
Next count size (over l text rc) = Unit {0}
Next count size (stuck l) = ⊥

act-Next : (round : Round) (l : Loop) (a : Action) → Next (count_of l) (size_of l) (act round l a)
unfolding act
act-Next round l quiet = (refl, refl)
act-Next round l exit = tt
act-Next round l advance = (refl, refl)

poll_after-Next :
    (round : Round) (l : Loop) (p : Reader × Action) (rc : Status)
    → Next (count_of l) (size_of l) (poll_after round l p rc)
unfolding poll_after
poll_after-Next round l (reader, action) fail = tt
poll_after-Next round l (reader, action) ok = act-Next round (record l { reader = reader }) action

Next-moved :
    {count count' size size' : ℕ} (t : Turn)
    → count ≡ count'
    → size ≡ size'
    → Next count size t
    → Next count' size' t
Next-moved (again l) e d n = (n.0 ∙ e, n.1 ∙ d)
Next-moved (over l text rc) e d n = tt
Next-moved (stuck l) e d n = n

show_after-Next :
    (round : Round) (l : Loop) (s : System) (r : System × Returned)
    → Counted s r
    → Next (word (s.owner.frames_written + 1)) s.owner.frame_bytes (show_after round l r.0 r.1)
unfolding show_after poll_round
show_after-Next round l s (t, done) c =
    let (polled, rc) = input_poll round.polled l.reader in
    Next-moved (show_after round l t done) c.0 c.1
      (poll_after-Next round (record l { system = t }) polled rc)
show_after-Next round l s (t, refused) c = tt
show_after-Next round l s (t, pending) c = c

module _ (f : Formats) (o : Options) (started : ℕ) where
  -- A round ends the loop, or there was room for one more frame and it has been written.
  abbrev Goes : Loop → Turn → Type 0
  Goes l (again k) =
      (count_of l < o.frames_max) × (count_of k ≡ count_of l + 1) × (size_of k ≡ size_of l)
  Goes l (over k text rc) = Unit {0}
  Goes l (stuck k) = ⊥

  goes :
      (l : Loop) (t : Turn)
      → o.frames_max < 2 ^ 32
      → count_of l < o.frames_max
      → Next (word (count_of l + 1)) (size_of l) t
      → Goes l t
  goes l (again k) small h n = (h, omega (arith, n.0), n.1)
  goes l (over k text rc) small h n = tt
  goes l (stuck k) small h n = n

  one_round-Goes :
      (round : Round) (l : Loop)
      → o.frames_max ≢ 0
      → o.frames_max < 2 ^ 32
      → Answers (size_of l) round.opening
      → Goes l (one_round f o started round l)
  unfolding one_round show_round
  one_round-Goes round l limited small a =
      if_holds (Goes l) round.stop_requested (over l (codes "signal") 0) _ (λ e. tt)
        (λ e.
          if_holds (Goes l) (not o.forever && leb o.duration_ms (elapsed round.now_ms started))
            (over l (codes "duration_reached") 0) _ (λ d. tt)
            (λ d.
              if_holds (Goes l) (not (o.frames_max == 0) && leb o.frames_max (count_of l))
                (over l (codes "frames_reached") 0) _ (λ c. tt)
                (λ c.
                  let drawn =
                    draw_screen f l.screen l.facts l.reader (elapsed round.now_ms started)
                      (count_of l) l.renderer in
                  goes l _ small (ground (arith, limited, c)) (
                    show_after-Next round (record l { renderer = drawn }) l.system
                      (write_frame (some drawn.memory) drawn.frame_bytes round.opening l.system)
                      (write_frame-Counted drawn.memory drawn.frame_bytes round.opening l.system
                        a)))))

  carried :
      (l : Loop) (more : Loop → Turn) (t : Turn)
      → Goes l t
      → ((k : Loop)
          → count_of l < o.frames_max
          → count_of k ≡ count_of l + 1
          → size_of k ≡ size_of l
          → IsOver (more k))
      → IsOver (carry_on more t)
  unfolding carry_on
  carried l more (again k) g h = h k g.0 g.1 g.2
  carried l more (over k text rc) g h = tt
  carried l more (stuck k) g h = g

  -- With a limit on the frames the loop comes to an end: if the device, where it can be opened, takes
  -- at least one byte of a frame at each write, then after one round more than the frames that are
  -- left, at the latest, the loop has been left with a status and an exit code.
  pub rounds-IsOver :
      (met : List Round) (l : Loop)
      → o.frames_max ≢ 0
      → o.frames_max < 2 ^ 32
      → AllAnswer l.system.owner.frame_bytes met
      → l.system.owner.frames_written ≤ o.frames_max
      → o.frames_max < l.system.owner.frames_written + length met
      → IsOver (rounds f o started met l)
  unfolding rounds
  rounds-IsOver [] l limited small a h enough = omega (arith, h, enough)
  rounds-IsOver (round ∷ met) l limited small a h enough =
      carried l (rounds f o started met) (one_round f o started round l)
        (one_round-Goes round l limited small a.0)
        (λ k room count size.
          rounds-IsOver met k limited small (rw size a.1) (omega (arith, count, room))
            (omega (arith, count, enough)))
