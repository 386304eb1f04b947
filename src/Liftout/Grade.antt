-- ===== src/Liftout/Grade.antt =====
-- scoring.py: the grade of a world from its journal and checkpoints, and of the suite.
pub mod Scan
pub mod Markers
pub mod Evidence
pub mod Steps
pub mod World
pub mod Suite
pub mod Order
pub mod Gaps
pub mod Attempt
pub mod Forbidden
pub mod Pass
pub mod SuitePass
pub mod Retry
