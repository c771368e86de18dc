-- ===== src/Dashboard.antt =====
-- The dashboard of toolkit/examples/vita-dashboard/src.
pub mod Texts
pub mod Owner
pub mod Font
pub mod Render
pub mod Input
pub mod Screen
pub mod Options
pub mod Loop
pub mod Tests
