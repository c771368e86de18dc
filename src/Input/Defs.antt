-- ===== src/Input/Defs.antt =====
-- The state of cart/include/cart/input.h and what cart/src/input_evdev.c does with one event.
-- Arrays over the axis slots and over the four sources are functions of the index. A file
-- descriptor below 0 is `none`. `closed` lists the calls of `ops->close`, the latest first.
use Prim.Native.Nat.{bit_or, bit_and}
use vita_linux_next.Prelude.{
  ℕ, ◌+◌, ◌-◌, ◌*◌, ◌/◌, ◌%◌, ◌^◌, Bool, true, false, ◌&&◌, List, [], ◌∷◌, ◌++◌, Option, none, some,
  ltb, ◌==◌, if◌then◌else◌, length, get_or,
}
use vita_linux_next.Prelude.Int.{ℤ, pos, negsuc}
use vita_linux_next.Prelude.Loops.{for_from}
use vita_linux_next.Input.Actions.{Action, quiet, map_key, key_emits_action}
use vita_linux_next.Input.Normalize.{AxisRange}

-- `CART_INPUT_MAX_SOURCES`, `CART_INPUT_AXIS_COUNT` and the size of `pending.item`.
abbrev pub max_sources : ℕ
max_sources = 4

abbrev pub axis_count : ℕ
axis_count = 8

abbrev pub max_pending : ℕ
max_pending = 8

abbrev pub u32_mod : ℕ
u32_mod = 2 ^ 32

pub data SourceState : Type 0 where
  absent connected desync : SourceState

abbrev pub is_absent : SourceState → Bool
is_absent absent = true
is_absent _ = false

abbrev pub is_connected : SourceState → Bool
is_connected connected = true
is_connected _ = false

abbrev pub is_desync : SourceState → Bool
is_desync desync = true
is_desync _ = false

pub record Source : Type 0 where
  pub fd : Option ℕ
  pub rank : ℕ
  pub state : SourceState
  pub generation : ℕ
  pub node : List ℕ
  pub name : List ℕ
  pub held_keys : ℕ
  pub axis : ℕ → AxisRange
  pub axis_valid : ℕ → Bool
  pub last_raw : ℕ → ℤ

pub record Input : Type 0 where
  pub source : ℕ → Source
  pub pending : List Action
  pub partial : ℕ → List ℕ
  pub closed : List ℕ

-- `struct input_event`, without its time.
pub record Event : Type 0 where
  pub kind : ℕ
  pub code : ℕ
  pub value : ℤ

-- What `ioctl_abs` reports.
pub record AbsInfo : Type 0 where
  pub value : ℤ
  pub minimum : ℤ
  pub maximum : ℤ
  pub flat : ℤ

-- The queries of `struct cart_input_ops`, which the kernel answers; `none` is a failed call. They
-- take the file descriptor.
pub record Device : Type 0 where
  pub name : ℕ → Option (List ℕ)
  pub key_state : ℕ → Option (List ℕ)
  pub bits : ℕ → ℕ → Option (List ℕ)
  pub abs_info : ℕ → ℕ → Option AbsInfo

abbrev pub at {ℓ} : {A : Type ℓ} → (ℕ → A) → ℕ → A → ℕ → A
at f i v j = if i == j then v else f j

abbrev pub set_source : Input → ℕ → Source → Input
set_source input i s = record input { source = at input.source i s }

-- `(buffer[bit >> 3] >> (bit & 7)) & 1`.
unfoldable pub bit_test : List ℕ → ℕ → ℕ
bit_test buffer bit = (get_or buffer (bit / 8) 0 / 2 ^ (bit % 8)) % 2

-- `AXIS_CODES`, and the slot of a code.
abbrev pub axis_codes : List ℕ
axis_codes = 0 ∷ 1 ∷ 3 ∷ 4 ∷ 2 ∷ 5 ∷ 16 ∷ 17 ∷ []

abbrev pub index_of : List ℕ → ℕ → ℕ → Option ℕ
index_of [] i code = none
index_of (c ∷ cs) i code = if c == code then some i else index_of cs (i + 1) code

unfoldable pub axis_slot : ℕ → Option ℕ
axis_slot code = index_of axis_codes 0 code

-- The bounded queue of actions; a full one drops the newcomer.
unfoldable pub enqueue_action : Input → Action → Input
enqueue_action input quiet = input
enqueue_action input action =
    if ltb (length input.pending) max_pending
    then record input { pending = input.pending ++ (action ∷ []) }
    else input

-- The conversion of an `int32_t` to a `uint16_t`.
abbrev pub to_u16 : ℤ → ℕ
to_u16 (pos n) = n % 2 ^ 16
to_u16 (negsuc n) = 2 ^ 16 - 1 - n % 2 ^ 16

abbrev pub is_zero : ℤ → Bool
is_zero (pos n) = n == 0
is_zero (negsuc n) = false

-- `held |= 1 << code` or `held &= ~(1 << code)`.
unfoldable pub hold_key : ℕ → ℕ → ℤ → ℕ
hold_key held code value =
    if ltb code 64
    then (if is_zero value then bit_and held (2 ^ 64 - 1 - 2 ^ code) else bit_or held (2 ^ code))
    else held

unfoldable pub process_key_event : Input → ℕ → ℕ → ℤ → Input
process_key_event input i code value =
    let s = input.source i in
    let kept = set_source input i (record s { held_keys = hold_key s.held_keys code value }) in
    if key_emits_action (to_u16 value) then enqueue_action kept (map_key code) else kept

unfoldable pub handle_disconnect : Input → ℕ → Input
handle_disconnect input i =
    let s = input.source i in
    record input {
      source = at input.source i (record s {
        fd = none;
        state = absent;
        generation = (s.generation + 1) % u32_mod;
        held_keys = 0;
        last_raw = λ _. pos 0;
      });
      partial = at input.partial i [];
      closed = elim s.fd [ none ↦ input.closed | some fd ↦ fd ∷ input.closed ];
    }

-- The held keys that the device reports, over codes 0 to 63.
unfoldable pub merged_keys : List ℕ → ℕ
merged_keys state = for_from 64 0 (λ code m. bit_or m (bit_test state code * 2 ^ code)) 0

-- The present value of an axis, if it is valid and the device tells it.
abbrev pub fresh_value : Device → ℕ → Source → ℕ → ℤ
fresh_value dev fd s slot =
    if s.axis_valid slot
    then elim (dev.abs_info fd (get_or axis_codes slot 0)) [
      | none ↦ s.last_raw slot
      | some info ↦ info.value
    ]
    else s.last_raw slot

unfoldable pub resync : Device → ℕ → Source → Source
resync dev fd s = record s {
  held_keys = elim (dev.key_state fd) [ none ↦ s.held_keys | some state ↦ merged_keys state ];
  last_raw = λ slot. if ltb slot axis_count then fresh_value dev fd s slot else s.last_raw slot;
}

-- `resync_after_desync` on the source's descriptor.
unfoldable pub resync_after_desync : Device → Source → Source
resync_after_desync dev s = elim s.fd [ none ↦ s | some fd ↦ resync dev fd s ]

-- EV_SYN: a drop starts a desync, and a report ends one after the device has been asked anew.
unfoldable pub sync_event : Device → Source → ℕ → Source
sync_event dev s code =
    if code == 3 && is_connected s.state
    then record s { state = desync }
    else if code == 0 && is_desync s.state
    then (let t = resync_after_desync dev s in record t { state = connected })
    else s

-- EV_ABS.
unfoldable pub abs_event : Source → ℕ → ℤ → Source
abs_event s code value = elim (axis_slot code) [
  | none ↦ s
  | some slot ↦ if is_connected s.state then record s { last_raw = at s.last_raw slot value } else s
]

unfoldable pub consume_event : Device → Input → ℕ → Event → Input
consume_event dev input i e =
    let s = input.source i in
    if e.kind == 0
    then set_source input i (sync_event dev s e.code)
    else if e.kind == 1
    then (if is_connected s.state then process_key_event input i e.code e.value else input)
    else if e.kind == 3
    then set_source input i (abs_event s e.code e.value)
    else input
