-- ===== src/AuditChain.antt =====
-- anima/kernel/audit_chain.py: the hash-chained, signed audit log. `Crypto` is what the code takes
-- from other libraries, `Log` the file and the object that appends to it, `Check` is `verify`.
pub mod Crypto
pub mod Log
pub mod Check
pub mod Linked
pub mod Histories
mod Tests
