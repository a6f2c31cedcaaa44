-- ===== src/NightShifts.antt =====
-- The night_shifts package: jobs that a restricted worker runs, their lifecycle and their store.
pub mod Models
pub mod StateMachine
pub mod Protocol
pub mod Policy
pub mod Inference
pub mod Executor
pub mod JobExecution
pub mod Storage
pub mod Service
mod Tests
