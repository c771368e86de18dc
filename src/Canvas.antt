-- ===== src/Canvas.antt =====
-- cart/src/canvas.c and cart/include/cart/canvas.h: packed colours and clipped drawing into a
-- pixel buffer. `Color` has the colours, `Defs` the canvas and its drawing routines.
pub mod Color
pub mod Mix
pub mod Defs
pub mod Sweep
pub mod Shapes
pub mod Circle
pub mod Pixel
pub mod Tests
