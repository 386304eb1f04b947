-- ===== src/Instruments.antt =====
-- The instrument models and the rack: instruments.py of
-- sources/pyvisa/pyvisa_dut_validation_v1. The models share one world, so a method of a model is
-- an action on the model beside the world.
pub mod Base
pub mod Parse
pub mod Psu
pub mod Switch
pub mod Awg
pub mod Dmm
pub mod Scope
pub mod Rack
pub mod Steps
pub mod Harmless
pub mod Safety
pub mod Effects
pub mod Interlock
pub mod Tests
pub mod Errors
pub mod Transient
pub mod Generator
pub mod Loaded
pub mod Supply
