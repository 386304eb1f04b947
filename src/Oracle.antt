-- ===== src/Oracle.antt =====
-- The reconstruction of the measurement from the evidence: oracle/reconstruct.py of
-- sources/pyvisa/pyvisa_dut_validation_v1.
pub mod Block
pub mod Curve
pub mod Tests
