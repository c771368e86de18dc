-- ===== src/Tools/Control.antt =====
-- toolkit/share/vita-control.c: status and scene changes of a running cart, no more often than an
-- interval allows. `strtoull`, the files below /proc, signals and the clock are parameters; what is
-- printed is the list of its keys and values.
pub mod RateLimit
use vita_linux_next.Prelude.{
  ℕ, zero, suc, ◌+◌, ◌-◌, ◌*◌, ◌/◌, ◌%◌, ◌^◌, ◌≡◌, Bool, true, false, not, ◌&&◌, ◌||◌, List, [],
  ◌∷◌, ◌++◌, Option, none, some, ltb, leb, ◌==◌, if◌then◌else◌, Status, ok, fail, length, take,
}
use Prim.Native.String.{String}
use vita_linux_next.Prelude.Text.{codes}
use vita_linux_next.Dashboard.Texts.{streq}

-- `PID_BUFFER` and `SMALL_BUFFER`.
abbrev pub pid_buffer : ℕ
pid_buffer = 32

abbrev pub small_buffer : ℕ
small_buffer = 256

abbrev pub longest_interval_ms : ℕ
longest_interval_ms = 3_600_000

-- Lines of `report`.
abbrev pub Report : Type 0
Report = List (List ℕ × List ℕ)

abbrev status_is : String → Report
status_is text = (codes "status", codes text) ∷ []

-- `parse_unsigned`, from what `strtoull` makes of the whole text; an empty one or NULL is refused.
unfoldable pub parse_unsigned : (List ℕ → Option ℕ) → Option (List ℕ) → Option ℕ
parse_unsigned strtoull none = none
parse_unsigned strtoull (some []) = none
parse_unsigned strtoull (some (c ∷ text)) = strtoull (c ∷ text)

abbrev is_blank : ℕ → Bool
is_blank b = b == 10 || b == 13 || b == 32 || b == 9

-- The blanks at the end are cut off.
unfoldable pub cut_blanks : List ℕ → List ℕ
cut_blanks [] = []
cut_blanks (b ∷ bs) =
    let rest = cut_blanks bs in if length rest == 0 && is_blank b then [] else b ∷ rest

-- `read_small_file`: `none` for a file that cannot be opened or read, or is empty.
unfoldable pub read_small_file : ℕ → Option (List ℕ) → Option (List ℕ)
unfolding cut_blanks
read_small_file capacity none = none
read_small_file capacity (some []) = none
read_small_file capacity (some (b ∷ bs)) = some (cut_blanks (take (capacity - 1) (b ∷ bs)))

-- What the system says of processes: whether signal 0 can be sent (or only the permission is missing),
-- where /proc/N/exe leads, and whether SIGUSR1 can be sent.
pub record Processes : Type 0 where
  pub alive : ℕ → Bool
  pub exe : ℕ → Option (List ℕ)
  pub signals : ℕ → Bool

-- The results of `load_target`: 0 with the process, and -2 to -5.
pub data Target : Type 0 where
  found : ℕ → List ℕ → Target
  bad_pidfile : Target
  not_running not_inspected : ℕ → Target
  mismatch : ℕ → List ℕ → Target

unfoldable pub inspect : Processes → List ℕ → ℕ → Target
unfolding streq
inspect world expected pid =
    if not (world.alive pid) then not_running pid else elim (world.exe pid) [
      | none ↦ not_inspected pid
      | some link ↦
          let actual = take (small_buffer - 1) link in
          if streq actual expected then found pid actual else mismatch pid actual
    ]

unfoldable pub load_target : (List ℕ → Option ℕ) → Processes → Option (List ℕ) → List ℕ → Target
unfolding inspect read_small_file parse_unsigned
load_target strtoull world pidfile expected =
    elim (parse_unsigned strtoull (read_small_file pid_buffer pidfile)) [
      | none ↦ bad_pidfile
      | some pid ↦
          if pid == 0 || ltb 2_147_483_647 pid then bad_pidfile else inspect world expected pid
    ]

abbrev override_or : Option (List ℕ) → Option (List ℕ) → List ℕ
override_or (some text) environment = text
override_or none (some text) = text
override_or none none = codes "500"

-- `load_interval`: the option, the environment, or 500 ms.
unfoldable pub load_interval : (List ℕ → Option ℕ) → Option (List ℕ) → Option (List ℕ) → Option ℕ
unfolding parse_unsigned
load_interval strtoull override environment =
    elim (parse_unsigned strtoull (some (override_or override environment))) [
      | none ↦ none
      | some milliseconds ↦ if ltb longest_interval_ms milliseconds then none else some milliseconds
    ]

-- `monotonic_ns` of a clock's seconds and nanoseconds.
unfoldable pub monotonic_ns : ℕ × ℕ → ℕ
monotonic_ns (seconds, nanoseconds) = (seconds * 1_000_000_000 + nanoseconds) % 2 ^ 64

-- How `update_rate_state` ends.
pub data Rated : Type 0 where
  granted unavailable write_failed : Rated
  limited : ℕ → Rated

-- `uint64_t`.
abbrev pub u64 : ℕ → ℕ
u64 n = n % 18_446_744_073_709_551_616

-- The test of the time that is kept in the state file: `none` lets the action through.
unfoldable pub retry_after : Option ℕ → ℕ → ℕ → Option ℕ
retry_after none interval_ms now_ns = none
retry_after (some previous_ns) interval_ms now_ns =
    let wanted = u64 (interval_ms * 1_000_000) in
    let elapsed_ns = now_ns - previous_ns in
    if ltb now_ns previous_ns
    then none
    else if ltb elapsed_ns wanted
    then some (u64 (wanted - elapsed_ns + 999_999) / 1_000_000)
    else none

-- The state file: its text, and how the calls on it go: whether it is opened and locked, read, cut and
-- rewound, and, should the last write be short or fail, how many bytes it leaves.
pub record StateFile : Type 0 where
  pub text : List ℕ
  pub opens : Bool
  pub reads : Bool
  pub truncates : Bool
  pub seeks : Bool
  pub short : Option ℕ

-- The time that the file keeps; a read that fails or finds nothing gives none.
unfoldable pub kept_time : (List ℕ → Option ℕ) → StateFile → Option ℕ
unfolding parse_unsigned
kept_time strtoull file =
    if not file.reads
    then none
    else parse_unsigned strtoull (some (take (pid_buffer - 1) file.text))

-- The write behind `ftruncate` and `lseek`.
abbrev write_text : StateFile → List ℕ → Option ℕ → StateFile × Rated
write_text file text none = (record file { text = text }, granted)
write_text file text (some written) = (record file { text = take written text }, write_failed)

unfoldable pub store_time : (ℕ → List ℕ) → StateFile → ℕ → Option ℕ → StateFile × Rated
store_time print file now_ns (some retry_ms) = (file, limited retry_ms)
store_time print file now_ns none =
    if leb pid_buffer (length (print now_ns)) || not file.truncates
    then (file, write_failed)
    else if not file.seeks
    then (record file { text = [] }, write_failed)
    else write_text file (print now_ns) file.short

-- `update_rate_state`, under the lock of the file; `print` is the `%llu` of `snprintf`.
unfoldable pub update_rate_state :
    (List ℕ → Option ℕ) → (ℕ → List ℕ) → StateFile → ℕ → ℕ → StateFile × Rated
unfolding retry_after kept_time store_time
update_rate_state strtoull print file interval_ms now_ns =
    if not file.opens
    then (file, unavailable)
    else store_time print file now_ns (retry_after (kept_time strtoull file) interval_ms now_ns)

-- `report_target_error`.
unfoldable pub target_error : Target → Report
target_error (found pid exe) = []
target_error bad_pidfile = status_is "invalid_pidfile"
target_error (not_running pid) = status_is "target_not_running"
target_error (not_inspected pid) = status_is "target_inspection_failed"
target_error (mismatch pid exe) =
    status_is "target_executable_mismatch" ++ (codes "actual_exe", exe) ∷ []

-- What the action `next` does: the state file, the process that was signalled, the report and the exit
-- code.
pub record Outcome : Type 0 where
  pub file : StateFile
  pub signalled : Option ℕ
  pub report : Report
  pub code : ℕ

abbrev failing : StateFile → Report → Outcome
failing file report = record { file = file; signalled = none; report = report; code = 1 }

unfoldable pub send_signal : (ℕ → List ℕ) → Processes → ℕ → StateFile × Rated → Outcome
send_signal print world pid (file, unavailable) = failing file (status_is "rate_state_unavailable")
send_signal print world pid (file, write_failed) =
    failing file (status_is "rate_state_write_failed")
send_signal print world pid (file, limited retry_ms) =
    failing file (status_is "rate_limited" ++ (codes "retry_after_ms", print retry_ms) ∷ [])
send_signal print world pid (file, granted) =
    if not (world.signals pid) then failing file (status_is "signal_failed") else record {
      file = file;
      signalled = some pid;
      report =
          status_is "triggered"
          ++ (codes "pid", print pid) ∷ (codes "signal", codes "SIGUSR1") ∷ [];
      code = 0;
    }

-- `main` of the action `next`, from the target, the interval and the clock on.
unfoldable pub next_action :
    (List ℕ → Option ℕ)
    → (ℕ → List ℕ)
    → Processes
    → Target
    → Option ℕ
    → Option ℕ
    → StateFile
    → Outcome
unfolding send_signal target_error update_rate_state
next_action strtoull print world (found pid exe) (some interval_ms) (some now_ns) file =
    send_signal print world pid (update_rate_state strtoull print file interval_ms now_ns)
next_action strtoull print world (found pid exe) (some interval_ms) none file =
    failing file (status_is "clock_or_interval_failed")
next_action strtoull print world (found pid exe) none now file =
    failing file (status_is "clock_or_interval_failed")
next_action strtoull print world bad_pidfile interval now file =
    failing file (target_error bad_pidfile)
next_action strtoull print world (not_running pid) interval now file =
    failing file (target_error (not_running pid))
next_action strtoull print world (not_inspected pid) interval now file =
    failing file (target_error (not_inspected pid))
next_action strtoull print world (mismatch pid exe) interval now file =
    failing file (target_error (mismatch pid exe))
