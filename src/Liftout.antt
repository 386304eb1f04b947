-- ===== src/Liftout.antt =====
-- The FIB-SEM suite: sources/openfibsem/fibsem_liftout_v1.
pub mod Value
pub mod Journal
pub mod Chain
pub mod Built
pub mod Rubric
pub mod Grade
pub mod Sample
pub mod Tests
