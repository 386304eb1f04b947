-- ===== src/Constraints.antt =====
-- The causal constraints on a run: constraints/partial_order.py of
-- sources/pyvisa/pyvisa_dut_validation_v1.
pub mod Events
pub mod Rules
mod Sets
pub mod Repeat
pub mod Sort
pub mod Before
pub mod Identity
pub mod Closing
pub mod Tests
