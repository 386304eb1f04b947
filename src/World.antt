-- ===== src/World.antt =====
-- The simulated bench of one device under test: dut_world.py and models.py of
-- sources/pyvisa/pyvisa_dut_validation_v1. A method is an action of `Exec (World F)`; the
-- lock of the class makes each one atomic, so its body runs alone.
pub mod Data
pub mod Apply
pub mod Ready
pub mod Interlock
pub mod Invariant
pub mod Observe
pub mod Tests
