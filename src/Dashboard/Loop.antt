-- ===== src/Dashboard/Loop.antt =====
-- `main` of toolkit/examples/vita-dashboard/src/main.c: the loop of screens, and the exit codes. What
-- the kernel answers in each round is a parameter, as is the collection of the facts that are shown.
-- The report that is printed at the end is left out but for the flush that may fail.
pub mod Rounds
pub mod Ends
pub mod Limit
pub mod Tests
use vita_linux_next.Prelude.{
  ℕ, zero, suc, ◌+◌, ◌-◌, ◌%◌, ◌≡◌, Bool, true, false, not, ◌&&◌, ◌||◌, List, [], ◌∷◌, Option, none,
  some, leb, ◌==◌, if◌then◌else◌, Status, ok, fail,
}
use vita_linux_next.Prelude.Text.{codes}
use vita_linux_next.Dashboard.Owner.{Owner, Machine, System, Answers, init, probe, word}
use vita_linux_next.Dashboard.Owner.Console.{BindWrite, acquire, release}
use vita_linux_next.Dashboard.Owner.Frame.{Opening, Returned, done, refused, pending, write_frame}
use vita_linux_next.Dashboard.Render.{Renderer, render_init, render_free}
use vita_linux_next.Dashboard.Input.{
  Reader, Tree, Polled, Action, quiet, advance, exit, input_open, input_poll, input_close,
}
use vita_linux_next.Dashboard.Screen.{Facts, Formats, draw_screen}
use vita_linux_next.Dashboard.Options.{Options, Parsed, run, leave, parse, defaults}

-- The variables of the loop.
pub record Loop : Type 0 where
  pub system : System
  pub renderer : Renderer
  pub reader : Reader
  pub screen : ℕ
  pub screens_visited : ℕ
  pub facts : Facts

-- What one round of the loop meets: the clock, the flag of the signal handler, the device, the input,
-- and the facts, should they be collected again.
pub record Round : Type 0 where
  pub now_ms : ℕ
  pub stop_requested : Bool
  pub opening : Opening
  pub polled : Polled
  pub collected : Facts

-- How a round ends: the loop goes on, it is left with a status and an exit code, or the write of the
-- frame does not return.
pub data Turn : Type 0 where
  again : Loop → Turn
  over : Loop → List ℕ → ℕ → Turn
  stuck : Loop → Turn

abbrev frames_of : Loop → ℕ
frames_of l = l.system.owner.frames_written

-- The end of a round: what the polled action does.
unfoldable pub act : Round → Loop → Action → Turn
act round l quiet = again l
act round l exit = over l (codes "user_exit") 0
act round l advance = again (record l {
  screen = (l.screen + 1) % 4;
  screens_visited = word (l.screens_visited + 1);
  facts = round.collected;
})

unfoldable pub poll_after : Round → Loop → Reader × Action → Status → Turn
unfolding act
poll_after round l (reader, action) fail =
    over (record l { reader = reader }) (codes "input_error") 8
poll_after round l (reader, action) ok = act round (record l { reader = reader }) action

-- The poll of a round.
unfoldable pub poll_round : Round → Loop → Turn
unfolding poll_after
poll_round round l =
    let (polled, rc) = input_poll round.polled l.reader in poll_after round l polled rc

unfoldable pub show_after : Round → Loop → System → Returned → Turn
unfolding poll_round
show_after round l system done = poll_round round (record l { system = system })
show_after round l system refused =
    over (record l { system = system }) (codes "frame_write_failed") 7
show_after round l system pending = stuck (record l { system = system })

-- The frame of a round.
unfoldable pub show_round : Round → Loop → Turn
unfolding show_after
show_round round l =
    let (system, rc) =
      write_frame (some l.renderer.memory) l.renderer.frame_bytes round.opening l.system in
    show_after round l system rc

-- `now_ms() - started` of an `unsigned long` of 32 bits.
abbrev pub elapsed : ℕ → ℕ → ℕ
elapsed now started = word (now + 4_294_967_296 - word started)

-- One round of the loop.
unfoldable pub one_round : Formats → Options → ℕ → Round → Loop → Turn
unfolding show_round
one_round f o started round l =
    let runtime = elapsed round.now_ms started in
    if round.stop_requested
    then over l (codes "signal") 0
    else if not o.forever && leb o.duration_ms runtime
    then over l (codes "duration_reached") 0
    else if not (o.frames_max == 0) && leb o.frames_max (frames_of l)
    then over l (codes "frames_reached") 0
    else show_round round (record l {
      renderer = draw_screen f l.screen l.facts l.reader runtime (frames_of l) l.renderer;
    })

unfoldable pub carry_on : (Loop → Turn) → Turn → Turn
carry_on more (again l) = more l
carry_on more (over l text rc) = over l text rc
carry_on more (stuck l) = stuck l

-- The loop, as far as the rounds go; `again` is a loop that still runs.
unfoldable pub rounds : Formats → Options → ℕ → List Round → Loop → Turn
unfolding one_round carry_on
rounds f o started [] l = again l
rounds f o started (round ∷ more) l =
    carry_on (rounds f o started more) (one_round f o started round l)

-- What `main` leaves behind: an exit code, or none while it runs, and the machine with its owner.
pub record Left : Type 0 where
  pub code : Option ℕ
  pub system : System

-- Everything around the program: the arguments, the files, the memory, the writes to the bind node,
-- the rounds, and whether the output can be flushed.
pub record Host : Type 0 where
  pub tree : Tree
  pub owner : Owner
  pub machine : Machine
  pub answers : Answers
  pub granted : Bool
  pub renderer : Renderer
  pub unbinding : BindWrite
  pub rebinding : BindWrite
  pub facts : Facts
  pub started : ℕ
  pub rounds_met : List Round
  pub flushed : Bool

abbrev pub exit_code : Bool → ℕ → Status → ℕ
exit_code flushed rc ok = if flushed then rc else 10
exit_code flushed rc fail = if not flushed then 10 else if rc == 0 then 9 else rc

-- The end of `main`: the release on every path out of the loop.
unfoldable pub close_down : Host → System → ℕ → Left
close_down host s rc =
    let (t, status) = release host.rebinding s in
    record { code = some (exit_code host.flushed rc status); system = t }

unfoldable pub after_loop : Host → Turn → Left
unfolding close_down
after_loop host (again l) = record { code = none; system = l.system }
after_loop host (stuck l) = record { code = none; system = l.system }
after_loop host (over l text rc) = close_down host l.system rc

-- From the acquisition on.
unfoldable pub loop_after : Formats → Host → Options → Reader → Renderer → System → Status → Left
unfolding after_loop
loop_after f host o reader renderer s fail = record { code = some 6; system = s }
loop_after f host o reader renderer s ok = after_loop host (
    rounds f o host.started host.rounds_met (record {
      system = s;
      renderer = renderer;
      reader = reader;
      screen = 0;
      screens_visited = 1;
      facts = host.facts;
    }))

unfoldable pub take_over : Formats → Host → Options → Reader → System → Renderer × Status → Left
unfolding loop_after
take_over f host o reader s (renderer, fail) = record { code = some 5; system = s }
take_over f host o reader s (renderer, ok) =
    let (t, rc) = acquire host.unbinding s in loop_after f host o reader renderer t rc

-- The shadow.
unfoldable pub make_shadow : Formats → Host → Options → Reader → System → Status → Left
unfolding take_over
make_shadow f host o reader s fail = record { code = some 4; system = s }
make_shadow f host o reader s ok =
    take_over f host o reader s (
      render_init host.granted host.renderer s.owner.width s.owner.height s.owner.bpp
        s.owner.stride)

-- The probe.
unfoldable pub set_up : Formats → Host → Options → Reader × Status → Left
unfolding make_shadow
set_up f host o (reader, fail) = record {
  code = some 3;
  system = record { owner = host.owner; machine = host.machine };
}
set_up f host o (reader, ok) =
    let (s, rc) =
      probe host.answers
        (record { owner = init host.owner (some o.root); machine = host.machine }) in
    make_shadow f host o reader s rc

-- `main` with the options read.
unfoldable pub run_with : Formats → Host → Parsed → Left
unfolding set_up
run_with f host (leave code) = record {
  code = some code;
  system = record { owner = host.owner; machine = host.machine };
}
run_with f host (run o) = set_up f host o (input_open host.tree (some o.wanted_phys))
