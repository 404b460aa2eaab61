-- ===== src/Lifecycle.antt =====
-- The lifecycle trackers of packages/bootstrap: a statechart, which the source hands to XState, and
-- the tracker that refuses what the chart does not accept.
pub mod Chart
pub mod HostLease
pub mod PrivatePostgres
mod Tests
