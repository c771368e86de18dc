-- ===== src/Tools/Bench.antt =====
-- toolkit/share/vita-bench.c: the work of the benchmark's threads, and what counts as a failure. Times
-- and rates are left out; `strtoul`, the thread library, `malloc`, the address of a worker's arguments
-- and the answers of files and of `write` are parameters.
pub mod Verdict
use Prim.Native.Nat.{bit_xor}
use vita_linux_next.Prelude.{
  ℕ, zero, suc, ◌+◌, ◌-◌, ◌*◌, ◌/◌, ◌%◌, ◌^◌, ◌≡◌, Bool, true, false, not, ◌&&◌, ◌||◌, List, [],
  ◌∷◌, ◌++◌, Option, none, some, ltb, leb, ◌==◌, if◌then◌else◌, Status, ok, fail, length,
}
use vita_linux_next.Prelude.Int.{ℤ, pos, negsuc}
use vita_linux_next.Prelude.Loops.{for_from}
use vita_linux_next.Prelude.Text.{codes}
use vita_linux_next.Dashboard.Texts.{streq}
use vita_linux_next.Dashboard.Input.{stripped}
use vita_linux_next.Dashboard.Owner.{word}

abbrev pub max_workers : ℕ
max_workers = 4

-- `UINT64_MAX`.
abbrev pub u64_max : ℕ
u64_max = 18_446_744_073_709_551_615

abbrev pub u64 : ℕ → ℕ
u64 n = n % 18_446_744_073_709_551_616

-- `rooted_path`: a path that fits its buffer.
unfoldable pub rooted_path : List ℕ → List ℕ → ℕ → Option (List ℕ)
rooted_path root path size = if leb size (length (root ++ path)) then none else some (root ++ path)

abbrev or_unknown : List ℕ → List ℕ
or_unknown [] = codes "UNKNOWN"
or_unknown (c ∷ text) = c ∷ text

-- `read_online_cpus`, from the first line of the file, which `fgets` has cut to the buffer.
unfoldable pub read_online_cpus : Option (List ℕ) → List ℕ
unfolding stripped
read_online_cpus none = codes "UNKNOWN"
read_online_cpus (some line) = or_unknown (stripped line)

-- `online_worker_limit`, from the answer of `sysconf`.
unfoldable pub online_worker_limit : ℤ → ℕ
online_worker_limit (negsuc n) = 1
online_worker_limit (pos count) =
    if count == 0 then 1 else if ltb max_workers count then max_workers else count

-- One round of the computation of `worker_main`.
unfoldable pub compute_round : ℕ → ℕ → ℕ
compute_round index value =
    let a = bit_xor value (value / 2 ^ 13) in
    let b = bit_xor a (word (a * 2 ^ 17)) in
    let c = bit_xor b (b / 2 ^ 5) in word (c * 1_664_525 + 1_013_904_223 + index)

-- The checksum of a worker that computes.
unfoldable pub compute_checksum : ℕ → ℕ → ℕ
unfolding compute_round for_from
compute_checksum rounds address =
    for_from (word (rounds * 1_000_000)) 0 compute_round (bit_xor 2_654_435_769 (word address))

-- `WORK_COMPUTE`, `WORK_MEMCPY` and `WORK_MEMSET`.
pub data Work : Type 0 where
  compute copy fill : Work

-- The bytes of the destination after a round; `memset` fills the source with a byte of the address.
abbrev pub destination_after : Work → ℕ → ℕ → ℕ → ℕ
destination_after fill address round i = round % 256
destination_after copy address round i = address % 256
destination_after compute address round i = address % 256

-- One round of a worker that moves memory.
unfoldable pub memory_round : Work → ℕ → ℕ → ℕ → ℕ → ℕ
memory_round work address bytes round checksum =
    let mixed =
      bit_xor checksum (destination_after work address round (word (round * 4099) % bytes)) in
    u64 (mixed + destination_after work address round (bytes - 1))

-- The destination at the end: cleared, if there was no round.
abbrev last_byte : Work → ℕ → ℕ → ℕ
last_byte work address zero = 0
last_byte work address (suc rounds) = destination_after work address rounds 0

-- What the system gives a worker: its thread, its two buffers, and the address of its arguments.
pub record Worker : Type 0 where
  pub created : Bool
  pub source : Bool
  pub destination : Bool
  pub address : ℕ

-- The checksum that `worker_main` leaves.
unfoldable pub worker_checksum : Work → ℕ → ℕ → Worker → ℕ
unfolding compute_checksum memory_round for_from
worker_checksum compute rounds bytes w = compute_checksum rounds w.address
worker_checksum copy rounds bytes w =
    if not w.source || not w.destination
    then u64_max
    else bit_xor (for_from rounds 0 (memory_round copy w.address bytes) 0)
        (last_byte copy w.address rounds)
worker_checksum fill rounds bytes w =
    if not w.source || not w.destination
    then u64_max
    else bit_xor (for_from rounds 0 (memory_round fill w.address bytes) 0)
        (last_byte fill w.address rounds)

-- The checksums of the workers put together.
unfoldable pub joined_checksum : Work → ℕ → ℕ → List Worker → ℕ → ℕ
unfolding worker_checksum
joined_checksum work rounds bytes [] checksum = checksum
joined_checksum work rounds bytes (w ∷ workers) checksum =
    joined_checksum work rounds bytes workers
      (bit_xor checksum (worker_checksum work rounds bytes w))

unfoldable pub all_created : List Worker → Bool
all_created [] = true
all_created (w ∷ workers) = let rest = all_created workers in w.created && rest

-- `run_memory`: the objects of the thread library are there or not; no worker starts its work before
-- all of them are created. The result is the checksum, if the run counts as a success.
unfoldable pub run_memory : Bool → Bool → Work → ℕ → ℕ → List Worker → Option ℕ
unfolding joined_checksum all_created
run_memory mutex condition work rounds bytes workers =
    let checksum = joined_checksum work rounds bytes workers 0 in
    if not mutex || not condition || not (all_created workers)
    then none
    else if checksum == u64_max
    then none
    else some checksum

-- `read_fb_metadata`: the height of the frame and its stride, if both can be read.
unfoldable pub read_fb_metadata : Option (ℕ × ℕ) → Option ℕ → Option ℕ
read_fb_metadata none stride = none
read_fb_metadata (some size) none = none
read_fb_metadata (some (width, height)) (some stride) =
    let bytes = word (height * stride) in if ltb 0 bytes then some bytes else none

abbrev pub lesser : ℕ → ℕ → ℕ
lesser a b = if ltb a b then a else b

-- The loop of `run_framebuffer`: each answer of `write` is what it took, and 0 stands for an error.
unfoldable pub write_zeros : List ℕ → ℕ → ℕ → Option ℕ
write_zeros [] bytes written = if ltb written bytes then none else some written
write_zeros (n ∷ more) bytes written =
    let count = lesser n (bytes - written) in
    let rest = write_zeros more bytes (written + count) in
    if not (ltb written bytes) then some written else if count == 0 then none else rest

-- The numbers of workers that `main` runs with: from the first on, doubled up to the maximum; only the
-- first if it was asked for.
unfoldable pub worker_counts : ℕ → Bool → ℕ → ℕ → List ℕ
worker_counts zero requested maximum index = []
worker_counts (suc fuel) requested maximum index =
    let rest = worker_counts fuel requested maximum (index * 2) in
    if ltb maximum index
    then []
    else if requested || index == maximum
    then index ∷ []
    else index ∷ rest

-- The options.
pub record Options : Type 0 where
  pub machine : Bool
  pub quick : Bool
  pub framebuffer : Bool
  pub requested : ℕ

pub data Parsed : Type 0 where
  run : Options → Parsed
  leave : ℕ → Parsed

pub data Flag : Type 0 where
  machine_flag quick_flag framebuffer_flag help_flag other_flag : Flag

abbrev flag_of : List ℕ → Flag
flag_of a =
    if streq a (codes "--machine")
    then machine_flag
    else if streq a (codes "--quick")
    then quick_flag
    else if streq a (codes "--framebuffer")
    then framebuffer_flag
    else if streq a (codes "--help")
    then help_flag
    else other_flag

abbrev after_flag : Flag → Options → (Options → Parsed) → Parsed → Parsed
after_flag machine_flag o more other = more (record o { machine = true })
after_flag quick_flag o more other = more (record o { quick = true })
after_flag framebuffer_flag o more other = more (record o { framebuffer = true })
after_flag help_flag o more other = leave 0
after_flag other_flag o more other = other

-- The loop over the arguments; `strtoul` gives 0 for a text that is no number.
unfoldable pub parse : (List ℕ → ℕ) → Options → List (List ℕ) → Parsed
parse strtoul o [] = run o
parse strtoul o (a ∷ []) = after_flag (flag_of a) o run (leave 2)
parse strtoul o (a ∷ v ∷ more) =
    let next_o = record o { requested = strtoul v } in
    let rest = parse strtoul next_o more in
    after_flag (flag_of a) o (λ o'. parse strtoul o' (v ∷ more))
      (if not (streq a (codes "--workers"))
        then leave 2
        else if strtoul v == 0 || ltb max_workers (strtoul v)
        then leave 2
        else rest)
