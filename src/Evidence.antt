-- ===== src/Evidence.antt =====
-- The evidence of a run: gateway/journal.py of sources/pyvisa/pyvisa_dut_validation_v1.
pub mod Event
pub mod Journal
