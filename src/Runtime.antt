-- ===== src/Runtime.antt =====
-- cart/src/runtime.c: the frame clock of the demo cart. It paces frames, walks the scenes of the
-- attract loop, holds a scene that was asked for, and limits how often the scene may change.
-- A `uint64_t` is a number below 2 ^ 64, a `size_t` one below 2 ^ 32 (the target is 32-bit ARM);
-- the wrap-around of a sum is written out. A flag (`had_change`, `manual_hold_active`) is a `Bool`.
pub mod Defs
pub mod Invariant
pub mod Rate
pub mod Deadline
pub mod Scenes
pub mod Tests
