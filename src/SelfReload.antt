-- ===== src/SelfReload.antt =====
-- anima/kernel/self_reload.py: the process becomes a new version of its own source, under a timer
-- that reverts it. `Preflight` is `preflight_stage`, `Swap` is `arm_and_swap` and the owner's funnel,
-- `Boot` is `boot_liveness_commit`, `Gate` the autonomous gate and the boot task of anima/api/app.py.
-- `Earned` and `Lifecycle` are sequences of these: of the tables, and of the host and its timer.
pub mod Host
pub mod Preflight
pub mod Swap
pub mod Boot
pub mod Gate
pub mod Earned
pub mod Lifecycle
mod Tests
