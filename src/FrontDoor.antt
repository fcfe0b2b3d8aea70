-- ===== src/FrontDoor.antt =====
-- anima/kernel/frontdoor.py: what a login lands in, and the installer with its revert timer.
pub mod Entry
pub mod Install
mod Tests
