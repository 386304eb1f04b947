-- ===== src/Liftout/Rubric.antt =====
-- step_rubric.py: the score of a step from the evidence on its checkpoint.
pub mod Metrics
pub mod Criteria
pub mod Caps
pub mod Score
pub mod Laws
pub mod Bounds
pub mod CapBounds
pub mod ScoreBounds
pub mod Full
