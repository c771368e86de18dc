-- ===== src/Dashboard/Input/Drain.antt =====
-- What a poll of the dashboard's input.c makes of the events that wait.
use vita_linux_next.Prelude.{
  ℕ, ◌+◌, ◌≡◌, ◌&&◌, ◌||◌, ◌==◌, refl, ◌∙◌, true, false, List, [], ◌∷◌, arith, if◌then◌else◌, ok,
}
use vita_linux_next.Prelude.Int.{ℤ, pos, ltb_ℤ, leb_ℤ}
use vita_linux_next.Dashboard.Owner.{word}
use vita_linux_next.Dashboard.Input.{
  Reader, Reading, event, partial, nothing, Action, quiet, advance, exit, is_quiet, action_for,
  pressed, drain, poll_open, input_poll, ready,
}

-- What a key means.
abbrev pub key_meaning : ℕ → Action
key_meaning code =
    if code == 1 || code == 16 || code == 305
    then exit
    else if code == 15 || code == 28 || code == 57 || code == 108 || code == 304
    then advance
    else quiet

-- What an event means: of a key event the value 1 is a press and 2 a repeat, and 0 a release.
abbrev pub meaning : ℕ → ℕ → ℤ → Action
meaning kind code value =
    if kind == 1 && (leb_ℤ (pos 1) value && leb_ℤ value (pos 2)) then key_meaning code else quiet

action_for-meaning : (code : ℕ) → action_for code ≡ key_meaning code
unfolding action_for
action_for-meaning code = ground arith

pressed-meaning : (kind code : ℕ) (value : ℤ) → pressed kind code value ≡ meaning kind code value
unfolding pressed
pressed-meaning kind code value = ground (arith, action_for-meaning code)

-- The meanings of the whole events that wait, oldest first: up to the first part of an event.
abbrev pub meanings : List Reading → List Action
meanings [] = []
meanings (nothing ∷ more) = []
meanings (partial ∷ more) = []
meanings (event kind code value ∷ more) = meaning kind code value ∷ meanings more

-- The last one that means something.
abbrev pub last_meant : List Action → Action
last_meant [] = quiet
last_meant (a ∷ more) = let later = last_meant more in if is_quiet later then a else later

-- With an action from before.
abbrev latest : List Action → Action → Action
latest actions before = let a = last_meant actions in if is_quiet a then before else a

latest_pick :
    (l a before : Action)
    → (if is_quiet l then (if is_quiet a then before else a) else l)
      ≡ (let m = if is_quiet l then a else l in if is_quiet m then before else m)
latest_pick quiet quiet before = refl
latest_pick quiet advance before = refl
latest_pick quiet exit before = refl
latest_pick advance a before = refl
latest_pick exit a before = refl

drain_last :
    (readings : List Reading) (r : Reader) (before : Action)
    → (drain readings r before).1 ≡ latest (meanings readings) before
unfolding drain
drain_last [] r before = refl
drain_last (nothing ∷ more) r before = refl
drain_last (partial ∷ more) r before = refl
drain_last (event kind code value ∷ more) r before =
    drain_last more (record r { events_seen = word (r.events_seen + 1) })
      (if is_quiet (pressed kind code value) then before else pressed kind code value)
    ∙ rw (pressed-meaning kind code value)
        (latest_pick (last_meant (meanings more)) (meaning kind code value) before)

latest_quiet : (a : Action) → (if is_quiet a then quiet else a) ≡ a
latest_quiet quiet = refl
latest_quiet advance = refl
latest_quiet exit = refl

-- With an open device that has something to read, a poll returns 0, and its action is the meaning of
-- the last key event with the value 1 or 2 that has one, among the events that wait up to the first
-- one that comes in part: the keys 1, 16 and 305 leave the program, the keys 15, 28, 57, 108 and 304
-- advance, and no other key means anything.
pub input_poll_last :
    (readings : List Reading) (r : Reader) (descriptor : ℕ)
    → r.fd ≡ pos descriptor
    → ((input_poll (ready true readings) r).0.1 ≡ last_meant (meanings readings))
      × ((input_poll (ready true readings) r).1 ≡ ok)
unfolding input_poll poll_open
input_poll_last readings r descriptor e =
    let open_fd : ltb_ℤ r.fd (pos 0) ≡ false = rw e (ground arith) in
    rw open_fd (drain_last readings r quiet ∙ latest_quiet (last_meant (meanings readings)), refl)
