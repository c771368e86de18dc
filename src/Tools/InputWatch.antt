-- ===== src/Tools/InputWatch.antt =====
-- toolkit/share/vita-inputwatch.c: counting the events of one device for a while. `strtoul`, the files
-- of sysfs, the clock, `poll` and the bytes that `read` gives are parameters, and so are the size of
-- `struct input_event` and its decoding. What is printed on the way is left out.
pub mod Stream
use vita_linux_next.Prelude.{
  ℕ, zero, suc, ◌+◌, ◌-◌, ◌%◌, ◌≡◌, Bool, true, false, not, ◌&&◌, ◌||◌, List, [], ◌∷◌, ◌++◌, Option,
  none, some, ltb, leb, ◌==◌, if◌then◌else◌, Status, ok, fail, length, take, drop,
}
use vita_linux_next.Prelude.Int.{ℤ, pos, negsuc, ◌-ℤ◌, leb_ℤ}
use vita_linux_next.Prelude.Text.{codes}
use vita_linux_next.Input.Probe.{wrap_int32}
use vita_linux_next.Dashboard.Texts.{streq}
use vita_linux_next.Dashboard.Owner.{word}
use vita_linux_next.Dashboard.Input.{read_text}

-- `struct input_device`; the path is made of the number.
pub record InputDevice : Type 0 where
  pub number : ℕ
  pub name : List ℕ
  pub phys : List ℕ

-- `struct counts`.
pub record Counts : Type 0 where
  pub events_seen : ℕ
  pub key_presses : ℕ
  pub key_releases : ℕ
  pub key_repeats : ℕ
  pub abs_events : ℕ
  pub syn_reports : ℕ

-- `struct input_event`, without its time.
pub record Event : Type 0 where
  pub kind : ℕ
  pub code : ℕ
  pub value : ℤ

-- `parse_positive`, from what `strtoul` makes of the whole text; an empty one or NULL is refused.
unfoldable pub parse_positive : (List ℕ → Option ℕ) → Option (List ℕ) → Option ℕ
parse_positive strtoul none = none
parse_positive strtoul (some []) = none
parse_positive strtoul (some (c ∷ text)) = elim (strtoul (c ∷ text)) [
  | none ↦ none
  | some value ↦ if ltb 4_294_967_295 value then none else some value
]

-- The event nodes of sysfs: which are there, and their files.
pub record Nodes : Type 0 where
  pub there : ℕ → Bool
  pub phys_file : ℕ → Option (List ℕ)
  pub name_file : ℕ → Option (List ℕ)

abbrev pub node_name : Option (List ℕ) → List ℕ
node_name none = codes "UNKNOWN"
node_name (some name) = name

abbrev pub wanted_node : Nodes → List ℕ → ℕ → Option (List ℕ) → Option InputDevice
wanted_node nodes wanted number none = none
wanted_node nodes wanted number (some phys) =
    if not (streq phys wanted)
    then none
    else some (record {
      number = number;
      name = node_name (read_text 256 (nodes.name_file number));
      phys = phys;
    })

-- One number of `find_device`; no path is too long for its buffer.
unfoldable pub node_at : Nodes → List ℕ → ℕ → Option InputDevice
unfolding read_text streq
node_at nodes wanted number =
    if not (nodes.there number)
    then none
    else wanted_node nodes wanted number (read_text 256 (nodes.phys_file number))

abbrev pub first_of : Option InputDevice → Option InputDevice → Option InputDevice
first_of none rest = rest
first_of (some device) rest = some device

-- `find_device` from `number` on, with `left` numbers to try; it starts with 0 and 128.
unfoldable pub find_device : Nodes → List ℕ → ℕ → ℕ → Option InputDevice
unfolding node_at
find_device nodes wanted zero number = none
find_device nodes wanted (suc left) number =
    let rest = find_device nodes wanted left (number + 1) in
    first_of (node_at nodes wanted number) rest

-- `count_event`.
unfoldable pub count_event : Event → Counts → Counts
count_event e counts =
    let c = record counts { events_seen = word (counts.events_seen + 1) } in
    if e.kind == 1
    then elim e.value [
      | pos value ↦
          if value == 1
          then record c { key_presses = word (c.key_presses + 1) }
          else if value == 0
          then record c { key_releases = word (c.key_releases + 1) }
          else if value == 2
          then record c { key_repeats = word (c.key_repeats + 1) }
          else c
      | negsuc value ↦ c
    ]
    else if e.kind == 3
    then record c { abs_events = word (c.abs_events + 1) }
    else if e.kind == 0 && e.code == 0
    then record c { syn_reports = word (c.syn_reports + 1) }
    else c

abbrev pub no_counts : Counts
no_counts = record {
  events_seen = 0;
  key_presses = 0;
  key_releases = 0;
  key_repeats = 0;
  abs_events = 0;
  syn_reports = 0;
}

-- The variables of the loop, and the bytes that the device still has to give.
pub record Watch : Type 0 where
  pub counts : Counts
  pub pending : List ℕ
  pub stream : List ℕ

-- What `poll` answers: EINTR, another error, no time left, or a descriptor, with POLLERR, POLLHUP or
-- POLLNVAL or without, and with POLLIN or without.
pub data Polled : Type 0 where
  interrupted broken timeout : Polled
  ready : Bool → Bool → Polled

-- What `read` answers: the end, EAGAIN, another error, or at most so many bytes.
pub data Received : Type 0 where
  ended again failed_read : Received
  bytes : ℕ → Received

pub record WatchRound : Type 0 where
  pub elapsed_ms : ℤ
  pub polled : Polled
  pub received : Received

-- The loop goes on, or is left with a status.
pub data Step : Type 0 where
  go : Watch → Step
  stop : Watch → ℕ → Step

abbrev pub lesser : ℕ → ℕ → ℕ
lesser a b = if ltb a b then a else b

abbrev pub keep_going : (Watch → Step) → Step → Step
keep_going more (go w) = more w
keep_going more (stop w status) = stop w status

module _ (size : ℕ) (decode : List ℕ → Event) where
  -- An event that is whole is counted.
  unfoldable pub take_in : Watch → ℕ → Watch
  unfolding count_event
  take_in w n =
      let chunk = take n w.stream in
      let pending = w.pending ++ chunk in
      let rest = drop n w.stream in
      if length pending == size
      then record { counts = count_event (decode pending) w.counts; pending = []; stream = rest }
      else record { counts = w.counts; pending = pending; stream = rest }

  -- The read of a round.
  unfoldable pub receive_event : Watch → Received → Step
  unfolding take_in
  receive_event w ended = stop w (if length w.pending == 0 then 0 else 1)
  receive_event w again = go w
  receive_event w failed_read = stop w 1
  receive_event w (bytes n) = go (take_in w (lesser n (size - length w.pending)))

  unfoldable pub after_poll : Watch → Received → Polled → Step
  unfolding receive_event
  after_poll w received interrupted = go w
  after_poll w received broken = stop w 1
  after_poll w received timeout = stop w 1
  after_poll w received (ready hung readable) =
      if hung && not readable then stop w 1 else receive_event w received

  -- One round of the loop of `main`.
  unfoldable pub watch_round : ℕ → ℕ → WatchRound → Watch → Step
  unfolding after_poll
  watch_round duration_ms max_events round w =
      if ltb 0 max_events && leb max_events w.counts.events_seen
      then stop w 0
      else if leb_ℤ (wrap_int32 (pos duration_ms) -ℤ round.elapsed_ms) (pos 0)
      then stop w 1
      else after_poll w round.received round.polled

  -- The loop, as far as the rounds go.
  unfoldable pub watch : ℕ → ℕ → List WatchRound → Watch → Step
  unfolding watch_round
  watch duration_ms max_events [] w = go w
  watch duration_ms max_events (round ∷ more) w =
      keep_going (watch duration_ms max_events more) (watch_round duration_ms max_events round w)
