-- ===== src/Owners.antt =====
-- Programs that hold many owning handles at once, over any kind of handle that keeps its contract.
pub mod Ledger
pub mod Interface
pub mod Audit
pub mod Programs
pub mod Safety
