-- ===== src/Generation.antt =====
-- packages/runtime/runtime-kernel/src/generation/generation-fence.ts: admission to a Runtime
-- generation and its retirement.
pub mod Fence
pub mod Counts
pub mod Sound
pub mod Steps
pub mod Retirement
pub mod Runs
mod Tests
