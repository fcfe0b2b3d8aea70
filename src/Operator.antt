-- ===== src/Operator.antt =====
-- anima/kernel/operator.py: reversible operations and the gates in front of them. `Contract` is the
-- capture, apply, verify, restore contract, `FileEdit` and `ServiceAction` are its instances,
-- `Kernel` is the state and the settings that the gates read, `FileGate` and `ServiceGate` are the
-- entry points. The unit topology gate is in UnitTopology.
pub mod Contract
pub mod Validator
pub mod FileEdit
pub mod ServiceAction
pub mod UnitTopology
pub mod Kernel
pub mod FileGate
pub mod ServiceGate
pub mod UnitGate
mod Tests
