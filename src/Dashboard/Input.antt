-- ===== src/Dashboard/Input.antt =====
-- input.c and input.h of toolkit/examples/vita-dashboard/src: a device chosen by its identity, and the
-- last key that means something. The files below sysfs and the answers of `poll` and `read` are
-- parameters; a text of sysfs holds no NUL.
pub mod Choice
pub mod Drain
use vita_linux_next.Prelude.{
  ℕ, zero, suc, ◌+◌, ◌-◌, ◌%◌, ◌≡◌, Bool, true, false, not, ◌&&◌, ◌||◌, List, [], ◌∷◌, Option, none,
  some, ltb, leb, ◌==◌, if◌then◌else◌, Status, ok, fail, length, take,
}
use vita_linux_next.Prelude.Int.{ℤ, pos, negsuc, ltb_ℤ}
use vita_linux_next.Prelude.Text.{codes}
use vita_linux_next.Dashboard.Texts.{copied, streq}
use vita_linux_next.Dashboard.Owner.{word}

-- `INPUT_TEXT`.
abbrev pub input_text : ℕ
input_text = 256

-- `enum dashboard_action`.
pub data Action : Type 0 where
  quiet advance exit : Action

-- `struct dashboard_input`. A descriptor is -1 or a number.
pub record Reader : Type 0 where
  pub fd : ℤ
  pub number : ℕ
  pub name : List ℕ
  pub phys : List ℕ
  pub path : List ℕ
  pub events_seen : ℕ
  pub malformed : ℕ

-- `sset` of this file: a signed size, and a buffer that is there.
unfoldable pub fitted : ℕ → List ℕ → List ℕ
fitted size src = if size == 0 then [] else copied size 0 src

-- Line ends are cut off.
unfoldable pub stripped : List ℕ → List ℕ
stripped [] = []
stripped (b ∷ bs) =
    let rest = stripped bs in if length rest == 0 && (b == 10 || b == 13) then [] else b ∷ rest

-- `read_text`: `none` for a file that cannot be opened or has nothing to read.
unfoldable pub read_text : ℕ → Option (List ℕ) → Option (List ℕ)
unfolding stripped
read_text size none = none
read_text size (some contents) =
    let text = stripped (take (size - 1) contents) in
    if leb size 1 || length text == 0 then none else some text

-- The tree of event nodes, by number: the files `phys` and `name`, the path of the node as printed,
-- and what opening it gives.
pub record Tree : Type 0 where
  pub phys_file : ℕ → Option (List ℕ)
  pub name_file : ℕ → Option (List ℕ)
  pub node_path : ℕ → List ℕ
  pub opening : ℕ → Option ℕ

-- The start of `input_open`.
abbrev pub closed : Reader
closed = record {
  fd = negsuc 0;
  number = 0;
  name = [];
  phys = [];
  path = [];
  events_seen = 0;
  malformed = 0;
}

abbrev pub name_or_unknown : Option (List ℕ) → List ℕ
name_or_unknown none = fitted input_text (codes "UNKNOWN")
name_or_unknown (some name) = name

abbrev pub opened : List ℕ → Option ℕ → Option (List ℕ × ℕ)
opened phys none = none
opened phys (some fd) = some (phys, fd)

abbrev pub matched : List ℕ → Option ℕ → Option (List ℕ) → Option (List ℕ × ℕ)
matched wanted opening none = none
matched wanted opening (some phys) = if not (streq phys wanted) then none else opened phys opening

-- The identity and the descriptor of a node that matches and can be opened.
unfoldable pub candidate : Tree → List ℕ → ℕ → Option (List ℕ × ℕ)
unfolding read_text streq
candidate tree wanted number =
    matched wanted (tree.opening number) (read_text input_text (tree.phys_file number))

unfoldable pub claimed : Tree → ℕ → List ℕ × ℕ → Reader
unfolding fitted read_text
claimed tree number (identity, fd) = record {
  fd = pos fd;
  number = number;
  name = name_or_unknown (read_text input_text (tree.name_file number));
  phys = fitted input_text identity;
  path = fitted input_text (tree.node_path number);
  events_seen = 0;
  malformed = 0;
}

abbrev pub chosen : Tree → ℕ → Reader × Status → Option (List ℕ × ℕ) → Reader × Status
chosen tree number rest none = rest
chosen tree number rest (some found) = (claimed tree number found, ok)

-- The loop of `input_open` from `number` on, with `left` numbers to try.
unfoldable pub search_from : Tree → List ℕ → ℕ → ℕ → Reader × Status
unfolding candidate claimed
search_from tree wanted zero number = (closed, fail)
search_from tree wanted (suc left) number =
    let rest = search_from tree wanted left (number + 1) in
    chosen tree number rest (candidate tree wanted number)

-- `input_open`; a wanted identity that is NULL is `none`.
unfoldable pub input_open : Tree → Option (List ℕ) → Reader × Status
input_open tree none = (closed, fail)
input_open tree (some wanted) =
    if length wanted == 0 then (closed, fail) else search_from tree wanted 128 0

-- `action_for`: the codes of linux/input-event-codes.h.
unfoldable pub action_for : ℕ → Action
action_for code =
    if code == 305 || code == 1 || code == 16
    then exit
    else if code == 304 || code == 108 || code == 57 || code == 28 || code == 15
    then advance
    else quiet

-- What one `read` gives: an event, part of one, or nothing or an error.
pub data Reading : Type 0 where
  event : ℕ → ℕ → ℤ → Reading
  partial nothing : Reading

abbrev pub is_quiet : Action → Bool
is_quiet quiet = true
is_quiet _ = false

-- The key of an event that is a press or a repeat.
unfoldable pub pressed : ℕ → ℕ → ℤ → Action
unfolding action_for
pressed kind code (pos value) =
    if kind == 1 && (value == 1 || value == 2) then action_for code else quiet
pressed kind code (negsuc value) = quiet

-- The loop of `input_poll` over the reads; no answer left is the error EAGAIN.
unfoldable pub drain : List Reading → Reader → Action → Reader × Action
unfolding pressed
drain [] r action = (r, action)
drain (nothing ∷ more) r action = (r, action)
drain (partial ∷ more) r action = (record r { malformed = word (r.malformed + 1) }, action)
drain (event kind code value ∷ more) r action =
    let mapped = pressed kind code value in
    drain more (record r { events_seen = word (r.events_seen + 1) })
      (if is_quiet mapped then action else mapped)

-- What `poll` answers: EINTR, another error, no time left, or a descriptor, which may have something
-- to read.
pub data Polled : Type 0 where
  interrupted broken timeout : Polled
  ready : Bool → List Reading → Polled

-- `input_poll` past its first test; the time it may wait is the kernel's business.
unfoldable pub poll_open : Polled → Reader → (Reader × Action) × Status
unfolding drain
poll_open interrupted r = ((r, quiet), ok)
poll_open broken r = ((r, quiet), fail)
poll_open timeout r = ((r, quiet), ok)
poll_open (ready false readings) r = ((r, quiet), ok)
poll_open (ready true readings) r = (drain readings r quiet, ok)

-- `input_poll`.
unfoldable pub input_poll : Polled → Reader → (Reader × Action) × Status
unfolding poll_open
input_poll polled r = if ltb_ℤ r.fd (pos 0) then ((r, quiet), fail) else poll_open polled r

-- `input_close`.
unfoldable pub input_close : Reader → Reader
input_close r = if ltb_ℤ r.fd (pos 0) then r else record r { fd = negsuc 0 }
