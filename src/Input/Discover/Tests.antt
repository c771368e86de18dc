-- ===== src/Input/Discover/Tests.antt =====
-- Discovery on a host with three nodes, and the laws at it.
use mathlib.Core.List.{Perm, Pairwise}
use vita_linux_next.Prelude.{ℕ, ◌+◌, ◌≡◌, refl, List, [], ◌∷◌, none, some, ◌==◌, if◌then◌else◌}
use vita_linux_next.Prelude.Int.{pos, ◌-ℤ◌, ◌*ℤ◌}
use vita_linux_next.Input.Normalize.{div_ℤ}
use vita_linux_next.Input.Actions.{next}
use vita_linux_next.Input.Defs.{Input, AbsInfo, Device, connected}
use vita_linux_next.Input.Plan.{InOrder, Candidate, goes_before, plan, plan_from, shift, plan_sorts}
use vita_linux_next.Input.Probe.{deadzone_of, wrap_int32}
use vita_linux_next.Input.Discover.{
  Host, entries, event_node_number, empty_source, rescan, digits_value, same_text,
}
use vita_linux_next.Input.Discover.Slots.{rescan_keeps}

-- A stick that reports a wide flat zone.
abbrev loose : AbsInfo
loose = record { value = pos 128; minimum = pos 0; maximum = pos 255; flat = pos 60 }

loose_deadzone : deadzone_of loose ≡ pos 47
unfolding deadzone_of wrap_int32 ◌-ℤ◌ div_ℤ ◌*ℤ◌
loose_deadzone = refl

abbrev node : ℕ → ℕ → Candidate
node rank number = record {
  fd = 10 + number;
  rank = rank;
  number = number;
  node = [];
  prepared = empty_source;
}

abbrev nodes : List Candidate
nodes = node 1 0 ∷ node 2 7 ∷ node 4 3 ∷ node 2 5 ∷ []

plan_example : plan nodes ≡ node 4 3 ∷ node 2 5 ∷ node 2 7 ∷ node 1 0 ∷ []
unfolding plan plan_from shift goes_before
plan_example = refl

plan_sorts_example : Perm (plan nodes) nodes × Pairwise InOrder (plan nodes)
plan_sorts_example = plan_sorts nodes

-- "event12" is node 12, and "event" is none.
node_number_example : event_node_number (101 ∷ 118 ∷ 101 ∷ 110 ∷ 116 ∷ 49 ∷ 50 ∷ []) ≡ some 12
unfolding event_node_number same_text digits_value
node_number_example = refl

node_number_bare : event_node_number (101 ∷ 118 ∷ 101 ∷ 110 ∷ 116 ∷ []) ≡ none
unfolding event_node_number same_text
node_number_bare = refl

abbrev one_pad : Input
one_pad = record {
  source =
      λ i. if i == 0 then record empty_source { fd = some 5; state = connected } else empty_source;
  pending = next ∷ [];
  partial = λ _. [];
  closed = [];
}

abbrev silent : Device
silent = record {
  name = λ _. none;
  key_state = λ _. none;
  bits = λ _ _. none;
  abs_info = λ _ _. none;
}

abbrev host : Host
host = record {
  listing = entries ((101 ∷ 118 ∷ 101 ∷ 110 ∷ 116 ∷ 49 ∷ []) ∷ []);
  phys = λ _. none;
  label = λ _. none;
  opened = λ _. some 9;
  stale = [];
}

rescan_keeps_example : (rescan silent host one_pad).1.source 0 ≡ one_pad.source 0
rescan_keeps_example = rescan_keeps silent host one_pad 0 5 refl
