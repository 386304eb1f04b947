-- ===== src/Gateway.antt =====
-- The gateway: gateway/server.py of sources/pyvisa/pyvisa_dut_validation_v1. A request of a
-- connected client is one step on the rack, the sessions and the journal.
pub mod Session
pub mod Server
pub mod Moves
pub mod Steps
pub mod Records
pub mod Ownership
pub mod Cleanup
pub mod Pending
pub mod Tests
