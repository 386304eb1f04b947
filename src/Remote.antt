-- ===== src/Remote.antt =====
-- The second suite's broker of remote VISA sessions: sources/pyvisa/pyvisa_dut_validation_v2.
pub mod Outcome
pub mod Wire
pub mod Query
pub mod Broker
pub mod Invoke
pub mod Dispatch
pub mod Quiet
pub mod Operations
pub mod Answers
pub mod Limits
pub mod Leaving
pub mod Tests
