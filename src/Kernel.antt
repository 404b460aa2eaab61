-- ===== src/Kernel.antt =====
-- packages/runtime/runtime-kernel/src/reconciliation: which micro systems can run, in which order, and
-- what is done to get there.
pub mod Model
pub mod Resolve
pub mod Resolved
pub mod Covered
pub mod Graph
pub mod Constructed
pub mod Plan
pub mod Passes
pub mod Members
pub mod TwoPasses
mod Tests
pub mod Distinct
pub mod Execution
pub mod Executable
pub mod Registry
