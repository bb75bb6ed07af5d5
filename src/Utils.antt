-- ===== src/Utils.antt =====
-- utils/: the timer that a node sleeps by, and helpers.
pub mod Timeout
