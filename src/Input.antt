-- ===== src/Input.antt =====
-- The input stack of the demo cart. `Normalize` is cart/src/input_normalize.c, `Actions`
-- cart/src/input_actions.c, and the others cart/src/input_evdev.c with cart/include/cart/input.h.
pub mod Normalize
pub mod Actions
pub mod Defs
pub mod Pump
pub mod Keys
pub mod Poll
pub mod Plan
pub mod Probe
pub mod Discover
pub mod Tests
