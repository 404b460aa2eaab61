-- ===== src/Effect.antt =====
-- packages/execution/effect-operation: one external effect, from its preparation to its outcome.
pub mod Operation
pub mod Store
pub mod Calls
pub mod Steps
pub mod Coherent
pub mod Fenced
pub mod Later
pub mod Once
pub mod Adapter
pub mod Ports
pub mod Program
pub mod Service
pub mod Calling
pub mod Single
pub mod Actions
pub mod Reading
pub mod Recovery
pub mod Alone
pub mod Ready
pub mod Outcome
mod Tests
