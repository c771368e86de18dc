-- ===== src/Transition.antt =====
-- cart/src/transition.c and cart/include/cart/transition.h: the fade between two scenes. `Defs` has
-- the state and the operations, `Weight` the easing curve, `Fade` the life of a fade and the
-- pixels that it shows.
pub mod Defs
pub mod Weight
pub mod Fade
pub mod Tests
