-- ===== src/Signal.antt =====
-- packages/execution/signal: the hints that wake a listener.
pub mod Codec
pub mod RoundTrip
mod Tests
