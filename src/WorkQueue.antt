-- ===== src/WorkQueue.antt =====
-- packages/execution/work-queue: the durable work queue. Children follow its source files.
pub mod Item
pub mod Row
pub mod Constraints
pub mod Store
pub mod Updates
pub mod Mutations
pub mod Guards
pub mod Lifecycle
pub mod Coherence
pub mod History
pub mod Claims
pub mod Storable
pub mod Totality
pub mod Insert
pub mod Catalog
pub mod Admission
pub mod Scan
pub mod Tests
