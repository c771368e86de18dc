-- ===== src/Dashboard/Tests.antt =====
-- Tests of the dashboard's model, and its theorems at inputs that meet their hypotheses.
use vita_linux_next.Prelude.{◌+◌, ◌≡◌, refl, true, false, List, [], ◌∷◌, none, some, arith}
use vita_linux_next.Prelude.Int.{pos}
use vita_linux_next.Prelude.Text.{codes}
use vita_linux_next.Dashboard.Texts.{join, copied, sset, sappend}
use vita_linux_next.Dashboard.Owner.{
  Owner, Machine, System, idle, owned, unknown, Answers, regular, init, probe, probe_owner,
  read_geometry, probe_geometry, probe_device,
}
use vita_linux_next.Dashboard.Owner.Geometry.{Probed, probe_sound}
use vita_linux_next.Dashboard.Owner.Console.{
  stored, acquire, take_console, write_bind, release, give_back,
}
use vita_linux_next.Dashboard.Owner.Frame.{
  Written, took, interrupted, opened, done, write_frame, send_frame, finish_frame, write_all,
}
use vita_linux_next.Dashboard.Owner.Frame.Whole.{Shows, write_frame-Shows, write_frame_ends}
use vita_linux_next.Dashboard.Owner.Lease.{Refines, by_probe, by_acquire}
use vita_linux_next.Dashboard.Owner.Lease.Restore.{here, next, Step-Refines, release_restores}
use vita_linux_next.Dashboard.Render.{Renderer, put_pixel}
use vita_linux_next.Dashboard.Render.Inside.{Draws}
use vita_linux_next.Dashboard.Render.Shadow.{put_pixel_overrun}
use vita_linux_next.Dashboard.Input.{Reader}
use vita_linux_next.Dashboard.Screen.{Facts, Formats, draw_screen, draw_screen-Draws}

abbrev pub blank_owner : Owner
blank_owner = record {
  fb_path = [];
  vtcon_bind_path = [];
  sysfs_size_path = [];
  sysfs_bpp_path = [];
  sysfs_stride_path = [];
  width = 0;
  height = 0;
  bpp = 0;
  stride = 0;
  frame_bytes = 0;
  fbcon_was_bound = unknown;
  fbcon_unbound_by_us = false;
  fbcon_restored = false;
  frames_written = 0;
  state = idle;
  error = [];
}

abbrev pub lit : Machine
lit = record { console = some true; screen = λ i. 7 }

-- A framebuffer of two by two pixels in a file.
abbrev pub small_answers : Answers
small_answers = record {
  size = some (2, 2);
  bits = some 32;
  pitch = none;
  device = regular 64;
  bind_reads = true;
}

abbrev begun : System
begun = record { owner = init blank_owner (some []); machine = lit }

path_joined : join 256 [] (some (codes "/tmp")) (codes "/dev/fb0") ≡ codes "/tmp/dev/fb0"
unfolding join sset sappend copied
path_joined = refl

probe_sound_example :
    (begun.owner.state ≡ idle)
    × Probed small_answers begun.machine.console (probe small_answers begun).0.owner
    × ((probe small_answers begun).0.machine ≡ begun.machine)
unfolding probe probe_owner read_geometry probe_geometry probe_device init
probe_sound_example = probe_sound small_answers begun refl

abbrev taken : System
taken = (acquire stored (probe small_answers begun).0).0

console_dark : taken.machine.console ≡ some false
unfolding acquire take_console write_bind probe probe_owner read_geometry probe_geometry
    probe_device init
console_dark = refl

release_restores_example : (release stored taken).0.machine.console ≡ some true
unfolding release give_back acquire take_console write_bind probe probe_owner read_geometry
    probe_geometry probe_device init
release_restores_example =
    release_restores blank_owner (some []) lit stored
      (next (next here (by_probe small_answers refl)) (by_acquire stored refl)) refl

Step-Refines_example : Refines begun (probe small_answers begun).0
unfolding init
Step-Refines_example =
    Step-Refines begun (probe small_answers begun).0
      (record {
        known = λ k. cc;
        owes = λ k. cc;
        fresh = λ k. refl;
        ready = λ k. refl;
        paid = λ k. refl;
      })
      (by_probe small_answers refl)

abbrev pub holder : System
holder = record { owner = record blank_owner { state = owned; frame_bytes = 3 }; machine = lit }

abbrev pub short_writes : List Written
short_writes = took 2 ∷ interrupted ∷ took 5 ∷ []

write_frame-Shows_example :
    (3 ≡ holder.owner.frame_bytes)
    × Shows (λ i. i + 10) holder (write_frame (some (λ i. i + 10)) 3 (opened short_writes) holder).0
unfolding write_frame send_frame finish_frame write_all
write_frame-Shows_example = write_frame-Shows (λ i. i + 10) 3 (opened short_writes) holder refl

write_frame_ends_example :
    (write_frame
      (some (λ i. i + 10))
      3
      (opened (took 1 ∷ interrupted ∷ took 1 ∷ took 9 ∷ []))
      holder).1
    ≡ done
write_frame_ends_example =
    write_frame_ends (λ i. i + 10) (took 1 ∷ interrupted ∷ took 1 ∷ took 9 ∷ []) holder refl
      (omega arith) (omega arith)

abbrev pub canvas : Renderer
canvas = record {
  shadow = true;
  memory = λ i. 0;
  frame_bytes = 32;
  width = 2;
  height = 2;
  stride = 16;
  bytes_per_pixel = 4;
  clipped_writes = 0;
}

abbrev bytes_canvas : Renderer
bytes_canvas = record canvas { frame_bytes = 4; stride = 2; bytes_per_pixel = 1 }

put_pixel_overrun_example : (put_pixel bytes_canvas (pos 1) (pos 1) 43_520).memory 5 ≡ 170
put_pixel_overrun_example =
    put_pixel_overrun bytes_canvas 43_520 refl (omega arith) refl (omega arith) (omega arith)
      (omega arith) (omega arith)

abbrev pub no_facts : Facts
no_facts = record {
  kernel = codes "6.1";
  arch = [];
  cpus_online = [];
  memory_available = [];
  uptime = [];
  interface = [];
  address = [];
  storage = [];
  toolkit = [];
  compiler = [];
  workspace = [];
}

abbrev pub formats : Formats
formats = record { geometry = λ w h s. []; count = λ n. n ∷ []; footer = λ n s. n ∷ s ∷ [] }

abbrev pub keyboard : Reader
keyboard = record {
  fd = pos 4;
  number = 0;
  name = [];
  phys = [];
  path = [];
  events_seen = 0;
  malformed = 0;
}

draw_screen-Draws_example : Draws canvas (draw_screen formats 0 no_facts keyboard 1500 3 canvas)
draw_screen-Draws_example =
    draw_screen-Draws formats 0 no_facts keyboard 1500 3 canvas
      (record { bytes = refl; high = omega arith; rows = omega arith; deep = omega arith })
