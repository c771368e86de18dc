-- ===== src/Dashboard/Loop/Ends.antt =====
-- On every path out of the dashboard's `main` the console is as it was found.
use vita_linux_next.Prelude.{
  ℕ, ◌≡◌, ◌≢◌, refl, ◌∙◌, Bool, true, false, not, ◌&&◌, List, [], ◌∷◌, none, some, leb, ◌==◌,
  Status, ok, fail, if_holds,
}
use vita_linux_next.Prelude.Text.{codes}
use vita_linux_next.Dashboard.Owner.{
  System, init, probe, set_error, Binding, unknown, unbound, bound,
}
use vita_linux_next.Dashboard.Owner.Console.{
  BindWrite, stored, no_file, no_print, no_close, write_bind, take_console, is_probed, acquire,
  release, give_back, is_released,
}
use vita_linux_next.Dashboard.Owner.Frame.{Returned, done, refused, pending, write_frame}
use vita_linux_next.Dashboard.Owner.Lease.{by_probe, by_acquire, by_write}
use vita_linux_next.Dashboard.Owner.Lease.Restore.{Run, here, next, release_restores}
use vita_linux_next.Dashboard.Render.{Renderer, render_init}
use vita_linux_next.Dashboard.Input.{Reader, Action, quiet, advance, exit, input_poll, input_open}
use vita_linux_next.Dashboard.Screen.{Formats, draw_screen}
use vita_linux_next.Dashboard.Options.{Options, Parsed, run, leave}
use vita_linux_next.Dashboard.Loop.{
  Loop, Round, Turn, again, over, stuck, act, poll_after, poll_round, show_after, show_round,
  one_round, carry_on, rounds, elapsed, Host, Left, close_down, after_loop, loop_after, take_over,
  make_shadow, set_up, run_with,
}
use vita_linux_next.Dashboard.Loop.Rounds.{loop_of}

-- A round makes calls of the owner's interface only.
module _ (s : System) where
  act-Run :
      (round : Round) (l : Loop) (a : Action)
      → Run s l.system
      → Run s (loop_of (act round l a)).system
  unfolding act
  act-Run round l quiet h = h
  act-Run round l exit h = h
  act-Run round l advance h = h

  poll_after-Run :
      (round : Round) (l : Loop) (p : Reader × Action) (rc : Status)
      → Run s l.system
      → Run s (loop_of (poll_after round l p rc)).system
  unfolding poll_after
  poll_after-Run round l (reader, action) fail h = h
  poll_after-Run round l (reader, action) ok h =
      act-Run round (record l { reader = reader }) action h

  show_after-Run :
      (round : Round) (l : Loop) (t : System) (rc : Returned)
      → Run s t
      → Run s (loop_of (show_after round l t rc)).system
  unfolding show_after poll_round
  show_after-Run round l t done h =
      poll_after-Run round (record l { system = t }) (input_poll round.polled l.reader).0
        (input_poll round.polled l.reader).1 h
  show_after-Run round l t refused h = h
  show_after-Run round l t pending h = h

  show_round-Run :
      (round : Round) (l : Loop) → Run s l.system → Run s (loop_of (show_round round l)).system
  unfolding show_round
  show_round-Run round l h =
      let shown =
        write_frame (some l.renderer.memory) l.renderer.frame_bytes round.opening l.system in
      show_after-Run round l shown.0 shown.1
        (next h (by_write (some l.renderer.memory) l.renderer.frame_bytes round.opening refl))

  module _ (f : Formats) (o : Options) (started : ℕ) where
    abbrev Ran : Turn → Type 0
    Ran t = Run s (loop_of t).system

    one_round-Run :
        (round : Round) (l : Loop)
        → Run s l.system
        → Run s (loop_of (one_round f o started round l)).system
    unfolding one_round
    one_round-Run round l h =
        if_holds Ran round.stop_requested (over l (codes "signal") 0) _ (λ e. h)
          (λ e.
            if_holds Ran (not o.forever && leb o.duration_ms (elapsed round.now_ms started))
              (over l (codes "duration_reached") 0) _ (λ d. h)
              (λ d.
                if_holds Ran
                  (not (o.frames_max == 0) && leb o.frames_max l.system.owner.frames_written)
                  (over l (codes "frames_reached") 0) _ (λ c. h)
                  (λ c.
                    show_round-Run round
                      (record l {
                        renderer =
                            draw_screen f l.screen l.facts l.reader (elapsed round.now_ms started)
                              l.system.owner.frames_written l.renderer;
                      })
                      h)))

    carry_on-Run :
        (more : Loop → Turn) (t : Turn)
        → ((l : Loop) → Run s l.system → Run s (loop_of (more l)).system)
        → Run s (loop_of t).system
        → Run s (loop_of (carry_on more t)).system
    unfolding carry_on
    carry_on-Run more (again l) k h = k l h
    carry_on-Run more (over l text rc) k h = h
    carry_on-Run more (stuck l) k h = h

    rounds-Run :
        (met : List Round) (l : Loop)
        → Run s l.system
        → Run s (loop_of (rounds f o started met l)).system
    unfolding rounds
    rounds-Run [] l h = h
    rounds-Run (round ∷ met) l h =
        carry_on-Run (rounds f o started met) (one_round f o started round l) (rounds-Run met)
          (one_round-Run round l h)

-- A release whose write to the bind node works returns 0.
give_back_ok : (s : System) (debt : Bool) → (give_back stored s debt).1 ≡ ok
unfolding give_back write_bind
give_back_ok s true = refl
give_back_ok s false = refl

stored_ok : (s : System) → (release stored s).1 ≡ ok
unfolding release
stored_ok s =
    if_holds (λ (r : System × Status). r.1 ≡ ok) (is_released s.owner.state) (s, ok)
      (give_back stored s s.owner.fbcon_unbound_by_us) (λ e. refl)
      (λ e. give_back_ok s s.owner.fbcon_unbound_by_us)

-- An acquisition that fails has not touched the console.
abbrev Untouched : System → System × Status → Type 0
Untouched s r = r.1 ≡ fail → r.0.machine.console ≡ s.machine.console

take_console-Untouched :
    (w : BindWrite) (s : System) (was : Binding) → Untouched s (take_console w s was)
unfolding take_console write_bind
take_console-Untouched w s unknown e = refl
take_console-Untouched w s unbound e = refl
take_console-Untouched stored s bound e = cc
take_console-Untouched no_file s bound e = refl
take_console-Untouched no_print s bound e = refl
take_console-Untouched no_close s bound e = refl

acquire-Untouched : (w : BindWrite) (s : System) → Untouched s (acquire w s)
unfolding acquire
acquire-Untouched w s =
    if_holds (Untouched s) (not (is_probed s.owner.state))
      (
        record s { owner = set_error s.owner (codes "acquire called before a successful probe") },
        fail,
      )
      (take_console w s s.owner.fbcon_was_bound) (λ e h. refl)
      (λ e. take_console-Untouched w s s.owner.fbcon_was_bound)

-- What `main` leaves, should it end: the console as it was found.
module _ (host : Host) (works : host.rebinding ≡ stored) where
  abbrev Restored : Left → Type 0
  Restored left = left.code ≢ none → left.system.machine.console ≡ host.machine.console

  module _ (root : List ℕ) where
    abbrev begun : System
    begun = record { owner = init host.owner (some root); machine = host.machine }

    close_down-Restored : (s : System) (rc : ℕ) → Run begun s → Restored (close_down host s rc)
    unfolding close_down
    close_down-Restored s rc r h =
        release_restores host.owner (some root) host.machine host.rebinding r
          (rw works (stored_ok s))

    after_loop-Restored : (t : Turn) → Run begun (loop_of t).system → Restored (after_loop host t)
    unfolding after_loop
    after_loop-Restored (again l) r h = absurd (h refl)
    after_loop-Restored (stuck l) r h = absurd (h refl)
    after_loop-Restored (over l text rc) r h = close_down-Restored l.system rc r h

    loop_after-Restored :
        (f : Formats) (o : Options) (reader : Reader) (renderer : Renderer) (s : System)
        (rc : Status)
        → Run begun s
        → (rc ≡ fail → s.machine.console ≡ host.machine.console)
        → Restored (loop_after f host o reader renderer s rc)
    unfolding loop_after
    loop_after-Restored f o reader renderer s fail r e h = e refl
    loop_after-Restored f o reader renderer s ok r e h =
        let l : Loop = record {
          system = s;
          renderer = renderer;
          reader = reader;
          screen = 0;
          screens_visited = 1;
          facts = host.facts;
        } in
        after_loop-Restored (rounds f o host.started host.rounds_met l)
          (rounds-Run begun f o host.started host.rounds_met l r) h

    take_over-Restored :
        (f : Formats) (o : Options) (reader : Reader) (s : System) (made : Renderer × Status)
        → Run begun s
        → s.machine.console ≡ host.machine.console
        → Restored (take_over f host o reader s made)
    unfolding take_over
    take_over-Restored f o reader s (renderer, fail) r e h = e
    take_over-Restored f o reader s (renderer, ok) r e h =
        let taken = acquire host.unbinding s in
        loop_after-Restored f o reader renderer taken.0 taken.1
          (next r (by_acquire host.unbinding refl)) (λ x. acquire-Untouched host.unbinding s x ∙ e)
          h

    make_shadow-Restored :
        (f : Formats) (o : Options) (reader : Reader) (s : System) (rc : Status)
        → Run begun s
        → s.machine.console ≡ host.machine.console
        → Restored (make_shadow f host o reader s rc)
    unfolding make_shadow
    make_shadow-Restored f o reader s fail r e h = e
    make_shadow-Restored f o reader s ok r e h =
        take_over-Restored f o reader s
          (render_init host.granted host.renderer s.owner.width s.owner.height s.owner.bpp
            s.owner.stride)
          r e h

  set_up-Restored :
      (f : Formats) (o : Options) (opened : Reader × Status) → Restored (set_up f host o opened)
  unfolding set_up
  set_up-Restored f o (reader, fail) h = refl
  set_up-Restored f o (reader, ok) h =
      let probed = probe host.answers (begun o.root) in
      make_shadow-Restored o.root f o reader probed.0 probed.1
        (next here (by_probe host.answers refl)) (unfold probe in refl) h

-- Whatever the options, the files, the device, the input and the signals do: when the program ends,
-- with any exit code, the console is bound exactly if it was bound before. This is so if the write
-- that binds it again works, a write that reports an error has changed nothing, and nobody else
-- writes to the bind node.
pub run_restores :
    (f : Formats) (host : Host) (parsed : Parsed)
    → host.rebinding ≡ stored
    → (run_with f host parsed).code ≢ none
    → (run_with f host parsed).system.machine.console ≡ host.machine.console
unfolding run_with
run_restores f host (leave code) works h = refl
run_restores f host (run o) works h =
    set_up-Restored host works f o (input_open host.tree (some o.wanted_phys)) h
