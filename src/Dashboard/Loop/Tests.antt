-- ===== src/Dashboard/Loop/Tests.antt =====
-- Tests of the dashboard's input and loop, and their theorems at inputs that meet their hypotheses.
use vita_linux_next.Prelude.{
  ℕ, zero, suc, ◌≡◌, refl, true, false, List, [], ◌∷◌, none, some, arith, ok,
}
use vita_linux_next.Prelude.Int.{pos}
use vita_linux_next.Prelude.Text.{codes}
use vita_linux_next.Dashboard.Texts.{streq}
use vita_linux_next.Dashboard.Owner.{init, probe}
use vita_linux_next.Dashboard.Owner.Console.{stored, acquire, release}
use vita_linux_next.Dashboard.Owner.Frame.{opened, took, interrupted}
use vita_linux_next.Dashboard.Render.{render_init}
use vita_linux_next.Dashboard.Input.{
  Tree, Reading, event, partial, ready, input_open, input_poll, search_from, candidate, read_text,
  stripped,
}
use vita_linux_next.Dashboard.Input.Choice.{IsChoice, input_open-IsChoice}
use vita_linux_next.Dashboard.Input.Drain.{meanings, last_meant, input_poll_last}
use vita_linux_next.Dashboard.Options.{Parsed, run, defaults}
use vita_linux_next.Dashboard.Loop.{
  Loop, Round, Host, rounds, run_with, set_up, make_shadow, take_over, loop_after, after_loop,
  close_down, carry_on, one_round,
}
use vita_linux_next.Dashboard.Loop.Rounds.{IsBounded, loop_of, rounds-IsBounded}
use vita_linux_next.Dashboard.Loop.Limit.{IsOver, rounds-IsOver}
use vita_linux_next.Dashboard.Loop.Ends.{run_restores}
use vita_linux_next.Dashboard.Tests.{
  blank_owner, lit, small_answers, holder, short_writes, canvas, no_facts, formats, keyboard,
}

-- Only node 1 is the wanted device.
abbrev two_nodes : Tree
two_nodes = record {
  phys_file = λ n. elim n [
    | zero ↦ some (codes "usb")
    | suc m ↦ elim m [ zero ↦ some (codes "pad\n") | suc k ↦ none ]
  ];
  name_file = λ n. none;
  node_path = λ n. codes "/dev/input/event";
  opening = λ n. some 5;
}

input_open-IsChoice_example :
    (number : ℕ) × IsChoice two_nodes
      (codes "pad")
      number
      (input_open two_nodes (some (codes "pad"))).0
unfolding input_open search_from candidate read_text stripped streq
input_open-IsChoice_example = input_open-IsChoice two_nodes (codes "pad") refl

abbrev mute : Tree
mute = record two_nodes { opening = λ n. none }

abbrev keys : List Reading
keys =
    event 1 304 (pos 1)
    ∷ event 0 0 (pos 0)
    ∷ event 1 16 (pos 2)
    ∷ event 1 30 (pos 1)
    ∷ partial
    ∷ event 1 304 (pos 1)
    ∷ []

input_poll_last_example :
    ((input_poll (ready true keys) keyboard).0.1 ≡ last_meant (meanings keys))
    × ((input_poll (ready true keys) keyboard).1 ≡ ok)
input_poll_last_example = input_poll_last keys keyboard 4 refl

abbrev started_loop : Loop
started_loop = record {
  system = holder;
  renderer = canvas;
  reader = keyboard;
  screen = 0;
  screens_visited = 1;
  facts = no_facts;
}

abbrev stopping : Round
stopping = record {
  now_ms = 5;
  stop_requested = true;
  opening = opened short_writes;
  polled = ready true keys;
  collected = no_facts;
}

rounds-IsBounded_example :
    IsBounded 1
      (loop_of (rounds formats (record defaults { frames_max = 1 }) 0 (stopping ∷ []) started_loop))
unfolding defaults
rounds-IsBounded_example =
    rounds-IsBounded formats (record defaults { frames_max = 1 }) 0 (stopping ∷ []) started_loop
      (record { screen = omega arith; frames = λ k. omega arith })

-- Two rounds with a device that takes a frame of three bytes in three writes, and a limit of one frame.
abbrev going : Round
going = record stopping {
  stop_requested = false;
  opening = opened (took 1 ∷ interrupted ∷ took 1 ∷ took 9 ∷ []);
  polled = ready true [];
}

rounds-IsOver_example : IsOver (
    rounds formats
      (record defaults { frames_max = 1 })
      0
      (going ∷ going ∷ [])
      (record started_loop { renderer = record canvas { frame_bytes = 3 } }))
unfolding defaults
rounds-IsOver_example =
    rounds-IsOver formats (record defaults { frames_max = 1 }) 0 (going ∷ going ∷ [])
      (record started_loop { renderer = record canvas { frame_bytes = 3 } }) (omega arith)
      (omega arith) ((omega arith, omega arith), ((omega arith, omega arith), tt)) (omega arith)
      (omega arith)

abbrev small_host : Host
small_host = record {
  tree = two_nodes;
  owner = blank_owner;
  machine = lit;
  answers = small_answers;
  granted = true;
  renderer = canvas;
  unbinding = stored;
  rebinding = stored;
  facts = no_facts;
  started = 0;
  rounds_met = stopping ∷ [];
  flushed = true;
}

abbrev for_pad : Parsed
for_pad = run (record defaults { wanted_phys = codes "pad" })

small_host_ends : (run_with formats small_host for_pad).code ≡ some 0
unfolding run_with set_up make_shadow take_over loop_after after_loop close_down rounds carry_on
    one_round input_open search_from probe init render_init acquire release
small_host_ends = refl

run_restores_example :
    (run_with formats small_host for_pad).system.machine.console ≡ small_host.machine.console
run_restores_example = run_restores formats small_host for_pad refl (λ e. cc (small_host_ends))
