-- ===== src/Input/Discover.antt =====
-- Discovery of cart/src/input_evdev.c: which nodes become candidates, how candidates claim slots,
-- and the start and the end of the input stack. What the host's files say is a parameter. The
-- final loop of `discover_pass` over descriptors that are left has no counterpart: the loop before
-- it has set each of them to -1.
pub mod Slots
pub mod Tests
use vita_linux_next.Prelude.{
  ℕ, zero, suc, ◌+◌, ◌-◌, ◌*◌, ◌^◌, ◌%◌, ◌≤◌, ◌<◌, ◌≡◌, refl, Bool, true, false, not, ◌&&◌, ◌||◌,
  List, [], ◌∷◌, ◌++◌, Option, none, some, arith, ltb, leb, ◌==◌, if◌then◌else◌, length, take, drop,
  ◌>>=◌,
}
use vita_linux_next.Prelude.Text.{codes}
use vita_linux_next.Prelude.Int.{ℤ, pos}
use vita_linux_next.Prelude.Loops.{for_from}
use vita_linux_next.Input.Normalize.{AxisRange}
use vita_linux_next.Input.Defs.{
  max_sources, u32_mod, Source, Input, Device, SourceState, absent, connected, at, set_source,
}
use vita_linux_next.Input.Plan.{Candidate, plan}
use vita_linux_next.Input.Probe.{classify}

-- The texts that mark the built-in buttons.
abbrev buttons_phys : List ℕ
buttons_phys = codes "vita_syscon_buttons"

abbrev buttons_name : List ℕ
buttons_name = codes "PlayStation Vita Buttons (Syscon)"

-- What the directory gives: no such directory, another error, or its entries.
pub data Listing : Type 0 where
  missing unreadable : Listing
  entries : List (List ℕ) → Listing

-- The files of the host, by the name of the entry: the first bytes of `device/phys` and
-- `device/name`, if they can be opened, and the descriptor of a successful `ops->open`. `stale` is
-- what an unwritten line buffer holds.
pub record Host : Type 0 where
  pub listing : Listing
  pub phys : List ℕ → Option (List ℕ)
  pub label : List ℕ → Option (List ℕ)
  pub opened : List ℕ → Option ℕ
  pub stale : List ℕ

abbrev ends_line : ℕ → Bool
ends_line b = b == 10 || b == 13

-- A line without the line ends behind it.
unfoldable pub trimmed : List ℕ → List ℕ
trimmed [] = []
trimmed (b ∷ bs) = let rest = trimmed bs in if length rest == 0 && ends_line b then [] else b ∷ rest

unfoldable pub same_text : List ℕ → List ℕ → Bool
same_text [] [] = true
same_text [] (_ ∷ _) = false
same_text (_ ∷ _) [] = false
same_text (a ∷ more) (b ∷ bs) = let rest = same_text more bs in a == b && rest

-- The digits of a number, `none` at another byte.
unfoldable pub digits_value : List ℕ → ℕ → Option ℕ
digits_value [] n = some n
digits_value (b ∷ bs) n =
    let rest = digits_value bs (n * 10 + (b - 48)) in if ltb b 48 || ltb 57 b then none else rest

-- "event" and a number up to INT_MAX. A number that `strtoul` cannot hold is above it too.
unfoldable pub event_node_number : List ℕ → Option ℕ
event_node_number name =
    if not (same_text (take 5 name) (codes "event")) || leb (length name) 5 then none else do
      number ← digits_value (drop 5 name) 0
      if ltb (2 ^ 31 - 1) number then none else some number

-- The line buffer after a read: a file that cannot be opened leaves it alone.
abbrev line_of : List ℕ → Option (List ℕ) → List ℕ
line_of buffer none = buffer
line_of buffer (some line) = trimmed line

-- The rank that the texts of a node give it.
unfoldable pub sysfs_rank : Host → List ℕ → ℕ
sysfs_rank host name =
    let phys = line_of [] (host.phys name) in
    let label = line_of host.stale (host.label name) in
    if same_text phys buttons_phys then 4 else if same_text label buttons_name then 3 else 0

abbrev blank_range : AxisRange
blank_range = record { min = pos 0; max = pos 0; deadzone_pct = pos 0 }

-- `reset_source`.
unfoldable pub empty_source : Source
empty_source = record {
  fd = none;
  rank = 0;
  state = absent;
  generation = 0;
  node = [];
  name = [];
  held_keys = 0;
  axis = λ _. blank_range;
  axis_valid = λ _. false;
  last_raw = λ _. pos 0;
}

-- What an entry comes to: it is passed over, it was opened and is closed again, or it is a candidate.
pub data Verdict : Type 0 where
  skipped : Verdict
  rejected : ℕ → Verdict
  admitted : Candidate → Verdict

unfoldable pub examine_open : Device → ℕ → List ℕ → ℕ → ℕ → Verdict
examine_open dev rank name number fd =
    elim (classify dev fd rank (record empty_source { node = name })) [
      | none ↦ rejected fd
      | some (classified, scratch) ↦ admitted (record {
        fd = fd;
        rank = if ltb classified rank then rank else classified;
        number = number;
        node = name;
        prepared = scratch;
      })
    ]

unfoldable pub examine : Device → Host → List ℕ → Verdict
examine dev host name = elim (event_node_number name) [
  | none ↦ skipped
  | some number ↦ if leb 32 (length name) then skipped else elim (host.opened name) [
    | none ↦ skipped
    | some fd ↦ examine_open dev (sysfs_rank host name) name number fd
  ]
]

-- The candidates so far, in the order of the directory, and the descriptors closed, latest first.
pub record Found : Type 0 where
  pub candidates : List Candidate
  pub closed : List ℕ

unfoldable pub note : Verdict → Found → Found
note skipped found = found
note (rejected fd) found = record found { closed = fd ∷ found.closed }
note (admitted c) found = record found { candidates = found.candidates ++ (c ∷ []) }

-- The loop over the directory stops at `CANDIDATE_CAP` candidates.
unfoldable pub collect : Device → Host → List (List ℕ) → Found → Found
collect dev host [] found = found
collect dev host (name ∷ names) found =
    let rest = collect dev host names (note (examine dev host name) found) in
    if ltb (length found.candidates) 16 then rest else found

unfoldable pub slot_empty : Input → ℕ → Bool
slot_empty input i = elim ((input.source i).fd) [ none ↦ true | some _ ↦ false ]

-- The first empty slot from `i` on, among `left` of them.
unfoldable pub free_from : Input → ℕ → ℕ → Option ℕ
free_from input zero i = none
free_from input (suc left) i =
    let rest = free_from input left (i + 1) in if slot_empty input i then some i else rest

unfoldable pub first_free_slot : Input → Option ℕ
first_free_slot input = free_from input max_sources 0

-- What a claimed slot holds.
unfoldable pub installed : Candidate → Source
installed c = record c.prepared {
  fd = some c.fd;
  state = connected;
  generation = (c.prepared.generation + 1) % u32_mod;
}

-- One candidate: it claims a slot, or is closed. The number is how many have claimed one.
unfoldable pub settle : Candidate → ℕ → Input → Option ℕ → ℕ × Input
settle c claimed input none = (claimed, record input { closed = c.fd ∷ input.closed })
settle c claimed input (some slot) = (claimed + 1, set_source input slot (installed c))

unfoldable pub claim : Candidate → ℕ × Input → ℕ × Input
claim c (claimed, input) = settle c claimed input (first_free_slot input)

unfoldable pub claim_all : List Candidate → ℕ × Input → ℕ × Input
claim_all [] state = state
claim_all (c ∷ cs) state = claim_all cs (claim c state)

-- What follows from the listing. The result is `none` for -1.
unfoldable pub listed : Device → Host → Input → Listing → Option ℕ × Input
listed dev host input missing = (some 0, input)
listed dev host input unreadable = (none, input)
listed dev host input (entries names) =
    let found = collect dev host names (record { candidates = []; closed = input.closed }) in
    let (claimed, after) =
      claim_all (plan found.candidates) (0, record input { closed = found.closed }) in
    (some claimed, after)

unfoldable pub discover_pass : Device → Host → Input → Option ℕ × Input
discover_pass dev host input = listed dev host input host.listing

-- `cart_input_init_ex` with all its arguments. The memory it is given is cleared.
unfoldable pub init_ex : Device → Host → List ℕ → Option ℕ × Input
init_ex dev host closed =
    discover_pass dev host
      (record { source = λ _. empty_source; pending = []; partial = λ _. []; closed = closed })

-- `cart_input_rescan`.
unfoldable pub rescan : Device → Host → Input → Option ℕ × Input
rescan dev host input = discover_pass dev host input

-- `if (fd >= 0) close(fd)`.
unfoldable pub close : Option ℕ → List ℕ → List ℕ
close none closed = closed
close (some fd) closed = fd ∷ closed

unfoldable pub release : ℕ → Input → Input
release i input = record (set_source input i empty_source) {
  closed = close (input.source i).fd input.closed;
}

-- `cart_input_shutdown`.
unfoldable pub shutdown : Input → Input
shutdown input =
    let q = for_from max_sources 0 release input in record q { pending = []; partial = λ _. [] }
