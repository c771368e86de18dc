-- ===== src/Tools.antt =====
-- The stand-alone tools of toolkit/share.
pub mod FbServe
pub mod Control
pub mod InputWatch
pub mod Bench
pub mod Tests
