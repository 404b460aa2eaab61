-- ===== src/Attempt.antt =====
-- packages/execution/work-queue/src/attempt-executor.ts: one generation-pinned attempt of a WorkItem.
pub mod Ports
pub mod Failure
pub mod Settle
pub mod Executor
pub mod Effects
pub mod Once
mod Tests
