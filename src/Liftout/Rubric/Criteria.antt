-- ===== src/Liftout/Rubric/Criteria.antt =====
-- The criteria of each step, with their points and the metrics that they report.
use instrument_benchmark_eva.Prelude.{
  ℕ, Bool, true, not, ◌+◌, none, some, [], ◌∷◌, if◌then◌else◌, ◌==◌,
}
use instrument_benchmark_eva.Prelude.Text.{Text, codes}
use instrument_benchmark_eva.Prelude.Decimal.{pos}
use instrument_benchmark_eva.Prelude.Dict.{Dict, find}
use instrument_benchmark_eva.Host.{Host}
use instrument_benchmark_eva.Liftout.Value.{Value, boolean, integer, real, text}
use instrument_benchmark_eva.Liftout.Rubric.Metrics.{
  Numbers, GeometryMetrics, ShapeComparison, ScenarioSpec, StepEvidence, decimal, clamp01,
  threshold_fraction, pose_fraction, if_float, common_fraction, sort_keys,
}

pub record CriterionScore (F : Type 0) : Type 0 where
  pub criterion_id : Text
  pub points : F
  pub maximum_points : F
  pub metrics : Dict (Value F)

-- `sum` of three Booleans
abbrev pub count_three : Bool → Bool → Bool → ℕ
count_three a b c = (if a then 1 else 0) + ((if b then 1 else 0) + (if c then 1 else 0))

module _ {F : Type 0} ⦃h : Host F⦄ ⦃num : Numbers F⦄ where
  -- `_criterion`, whose metrics are given in any order
  unfoldable pub criterion : Text → F → F → Dict (Value F) → CriterionScore F
  criterion name fraction maximum metrics = record {
    criterion_id = name;
    points = num.round6 (h.mul (clamp01 fraction) maximum);
    maximum_points = maximum;
    metrics = sort_keys metrics;
  }

  -- `_shape_fraction`
  unfoldable pub shape_fraction : StepEvidence F → Text → F
  unfolding find
  shape_fraction e name = elim (find name e.shapes) [
    | none ↦ h.of_ℕ 0
    | some s ↦ clamp01 s.shape_score
  ]

  unfoldable pub shape_metrics : ShapeComparison F → Dict (Value F)
  shape_metrics s =
      (codes "candidate_volume_um3", real s.candidate_volume_um3)
      ∷ (codes "reference_volume_um3", real s.reference_volume_um3)
      ∷ (codes "volume_similarity", real s.volume_similarity)
      ∷ (codes "voxel_iou", real s.voxel_iou)
      ∷ (codes "symmetric_surface_distance_um", real s.symmetric_surface_distance_um)
      ∷ (codes "hausdorff_distance_um", real s.hausdorff_distance_um)
      ∷ (codes "asd_score", real s.asd_score)
      ∷ (codes "hausdorff_score", real s.hausdorff_score)
      ∷ (codes "shape_score", real s.shape_score)
      ∷ (codes "voxel_size_um", real s.voxel_size_um)
      ∷ (codes "surface_sample_count", integer (pos s.surface_sample_count))
      ∷ (codes "candidate_geometry_sha256", text s.candidate_geometry_sha256)
      ∷ (codes "reference_geometry_sha256", text s.reference_geometry_sha256)
      ∷ []

  -- `_shape_criterion`
  unfoldable pub shape_criterion : Text → StepEvidence F → Text → F → CriterionScore F
  shape_criterion name e shape maximum = elim (find shape e.shapes) [
    | none ↦ criterion name (h.of_ℕ 0) maximum ((codes "missing_shape_evidence", boolean true) ∷ [])
    | some s ↦ criterion name s.shape_score maximum (shape_metrics s)
  ]

  abbrev shape_named : Text → StepEvidence F → Text → ℕ → Text × CriterionScore F
  shape_named name e shape maximum = (name, shape_criterion name e shape (h.of_ℕ maximum))

  abbrev criterion_named : Text → F → ℕ → Dict (Value F) → Text × CriterionScore F
  criterion_named name fraction maximum metrics =
      (name, criterion name fraction (h.of_ℕ maximum) metrics)

  abbrev connections : GeometryMetrics F → Dict (Value F) → Dict (Value F)
  connections m rest =
      (codes "sample_to_needle", boolean m.sample_to_needle)
      ∷ (codes "sample_to_target", boolean m.sample_to_target)
      ∷ rest

  abbrev rounded : F → Value F
  rounded x = real (num.round6 x)

  -- `_step_1`
  unfoldable pub score_step_1 : StepEvidence F → ScenarioSpec F → Dict (CriterionScore F)
  score_step_1 e spec =
      let m = e.geometry in
      let bridge_fraction =
        h.div
          (h.add (shape_fraction e (codes "source_bridge"))
            (if_float m.sample_to_source (h.of_ℕ 1)))
          (h.of_ℕ 2) in
      let integrity_fraction =
        h.div
          (h.add (if_float (m.sample_component_count == 1) (h.of_ℕ 1))
            (threshold_fraction m.retained_sample_fraction (decimal 65 100) (decimal 75 100)))
          (h.of_ℕ 2) in
      shape_named (codes "sample_global") e (codes "sample") 6
      ∷ shape_named (codes "cut_morphology") e (codes "cut") 4
      ∷ shape_named (codes "protection_morphology") e (codes "protection") 3
      ∷ criterion_named (codes "source_bridge") bridge_fraction 3
          ((codes "sample_to_source", boolean m.sample_to_source) ∷ [])
      ∷ criterion_named (codes "sample_integrity") integrity_fraction 2 (
          (codes "component_count", integer (pos m.sample_component_count))
          ∷ (codes "retained_fraction", rounded m.retained_sample_fraction)
          ∷ [])
      ∷ criterion_named (codes "common_state") (common_fraction m) 2 []
      ∷ []

  -- `_step_2`
  unfoldable pub score_step_2 : StepEvidence F → ScenarioSpec F → Dict (CriterionScore F)
  score_step_2 e spec =
      let m = e.geometry in
      let state_fraction =
        h.div
          (h.of_ℕ
            (count_three (not m.sample_to_source) m.sample_to_needle (not m.sample_to_target)))
          (h.of_ℕ 3) in
      let joint_fraction =
        clamp01 (h.div m.needle_joint_section_um spec.tolerances.joint_scale_um) in
      let connectivity_points =
        h.add (h.mul (h.of_ℕ 3) state_fraction) (h.mul (h.of_ℕ 2) joint_fraction) in
      shape_named (codes "sample_preservation") e (codes "sample") 5
      ∷ shape_named (codes "source_separation") e (codes "source_separation") 5
      ∷ shape_named (codes "needle_joint") e (codes "needle_joint") 5
      ∷ criterion_named (codes "transfer_connectivity") (h.div connectivity_points (h.of_ℕ 5)) 5 (
          (codes "sample_to_source", boolean m.sample_to_source)
          ∷ connections m
              ((codes "needle_joint_section_um", rounded m.needle_joint_section_um) ∷ []))
      ∷ criterion_named (codes "co_motion") e.co_motion_score 3 []
      ∷ criterion_named (codes "common_state") (common_fraction m) 2 []
      ∷ []

  unfoldable pub position_fraction : StepEvidence F → ScenarioSpec F → F
  position_fraction e spec =
      pose_fraction e.geometry.sample_position_error_um spec.tolerances.position_um

  unfoldable pub orientation_fraction : StepEvidence F → ScenarioSpec F → F
  orientation_fraction e spec =
      pose_fraction e.geometry.sample_orientation_error_degrees spec.tolerances.orientation_degrees

  abbrev pose_metrics : GeometryMetrics F → Dict (Value F)
  pose_metrics m =
      (codes "position_error_um", rounded m.sample_position_error_um)
      ∷ (codes "orientation_error_degrees", rounded m.sample_orientation_error_degrees)
      ∷ []

  -- `_step_3`
  unfoldable pub score_step_3 : StepEvidence F → ScenarioSpec F → Dict (CriterionScore F)
  unfolding position_fraction orientation_fraction
  score_step_3 e spec =
      let m = e.geometry in
      let pose_points =
        h.add (h.mul (h.of_ℕ 3) (position_fraction e spec))
          (h.mul (h.of_ℕ 2) (orientation_fraction e spec)) in
      let state_fraction =
        h.div (h.of_ℕ (count_three (not m.sample_to_source) m.sample_to_needle m.sample_to_target))
          (h.of_ℕ 3) in
      let needle_fraction =
        clamp01 (h.div m.needle_joint_section_um spec.tolerances.joint_scale_um) in
      let target_fraction =
        clamp01 (h.div m.target_joint_section_um spec.tolerances.joint_scale_um) in
      let connectivity_points =
        h.add (h.add (h.mul (h.of_ℕ 3) state_fraction) needle_fraction) target_fraction in
      shape_named (codes "sample_preservation") e (codes "sample") 4
      ∷ criterion_named (codes "target_pose") (h.div pose_points (h.of_ℕ 5)) 5 (pose_metrics m)
      ∷ shape_named (codes "target_joint") e (codes "target_joint") 5
      ∷ criterion_named (codes "dual_connectivity") (h.div connectivity_points (h.of_ℕ 5)) 5 (
          connections m (
            (codes "needle_joint_section_um", rounded m.needle_joint_section_um)
            ∷ (codes "target_joint_section_um", rounded m.target_joint_section_um)
            ∷ []))
      ∷ shape_named (codes "target_interface") e (codes "target_interface") 4
      ∷ criterion_named (codes "common_state") (common_fraction m) 2 []
      ∷ []

  -- `_step_4`
  unfoldable pub score_step_4 : StepEvidence F → ScenarioSpec F → Dict (CriterionScore F)
  unfolding position_fraction orientation_fraction
  score_step_4 e spec =
      let m = e.geometry in
      let final_topology =
        h.div
          (h.of_ℕ
            (count_three (not m.sample_to_source) (not m.sample_to_needle) m.sample_to_target))
          (h.of_ℕ 3) in
      let pose_points =
        h.add (h.mul (decimal 12 10) (position_fraction e spec))
          (h.mul (decimal 8 10) (orientation_fraction e spec)) in
      let retraction_points =
        h.add (if_float m.needle_safely_retracted (decimal 15 10))
          (if_float m.simulator_idle (decimal 5 10)) in
      shape_named (codes "sample_preservation") e (codes "sample") 4
      ∷ shape_named (codes "needle_separation") e (codes "needle_separation") 4
      ∷ shape_named (codes "target_joint_preservation") e (codes "target_joint") 4
      ∷ criterion_named (codes "final_topology") final_topology 4
          ((codes "sample_to_source", boolean m.sample_to_source) ∷ connections m [])
      ∷ criterion_named (codes "target_pose") (h.div pose_points (h.of_ℕ 2)) 2 (pose_metrics m)
      ∷ criterion_named (codes "safe_retraction") (h.div retraction_points (h.of_ℕ 2)) 2 (
          (codes "needle_safely_retracted", boolean m.needle_safely_retracted)
          ∷ (codes "simulator_idle", boolean m.simulator_idle)
          ∷ [])
      ∷ []
