-- ===== src/Liftout/Grade/Evidence.antt =====
-- The evidence on a world: its checkpoints, its end, its run, and the step evidence that stands in
-- where no reference bundle is given.
use instrument_benchmark_eva.Prelude.{
  ℕ, Bool, true, false, not, ◌&&◌, Option, none, some, List, [], ◌∷◌, map, ◌==◌, if◌then◌else◌,
  Result, ok, err, value_error, key_error,
}
use instrument_benchmark_eva.Prelude.Results.{◌>>=◌, ◌>>◌, guard}
use instrument_benchmark_eva.Prelude.Text.{Text, codes, contains, text_eq, starts_with}
use instrument_benchmark_eva.Prelude.Decimal.{ℤ, pos, negsuc}
use instrument_benchmark_eva.Prelude.Dict.{Dict, find, put}
use instrument_benchmark_eva.Host.{Host}
use instrument_benchmark_eva.Liftout.Value.{text, integer, mapping, Entries, no_entries, entry}
use instrument_benchmark_eva.Liftout.Journal.{Codec, is_digest, zeros}
use instrument_benchmark_eva.Liftout.Rubric.Metrics.{
  Numbers, GeometryMetrics, ShapeComparison, ScenarioSpec, StepEvidence, steps, step_1, step_2,
  step_3, step_4, clamp01, decimal, new_step_evidence,
}

pub record CheckpointEvidence (F : Type 0) : Type 0 where
  pub step_id : Text
  pub geometry : GeometryMetrics F
  pub artifact_complete : Bool
  pub artifact_digest : Text
  pub artifact_root : Option Text
  pub artifact_evidence : Option (Entries F)

-- `CheckpointEvidence.__post_init__`
unfoldable pub new_checkpoint_evidence :
    {F : Type 0} → CheckpointEvidence F → Result (CheckpointEvidence F)
unfolding contains text_eq starts_with
new_checkpoint_evidence e = do
  guard (contains e.step_id steps) (value_error (codes "checkpoint evidence step is invalid"))
  guard (not (e.artifact_complete && not (is_digest e.artifact_digest)))
      (value_error (codes "checkpoint artifact digest is invalid"))
  guard (elim e.artifact_root [ none ↦ true | some root ↦ starts_with root (codes "/") ])
      (value_error (codes "checkpoint artifact root must be absolute"))
  ok e

pub record TerminalEvidence : Type 0 where
  pub safe : Bool
  pub simulator_idle : Bool
  pub collision : Bool
  pub cleanup_error : Option Text

-- `TerminalEvidence.is_safe`
unfoldable pub is_safe : TerminalEvidence → Bool
is_safe t =
    t.safe
    && t.simulator_idle
    && not t.collision
    && elim t.cleanup_error [ none ↦ true | some e ↦ false ]

pub record RuntimeEvidence : Type 0 where
  pub candidate_exit_code : Option ℤ
  pub timed_out : Bool
  pub forbidden_access : Bool
  pub infrastructure_failure : Bool
  pub candidate_uid : ℕ
  pub simulator_uid : ℕ
  pub isolation_verified : Bool

-- `RuntimeEvidence.candidate_completed`
unfoldable pub candidate_completed : RuntimeEvidence → Bool
candidate_completed r =
    elim r.candidate_exit_code [
      | none ↦ false
      | some z ↦ elim z [ pos n ↦ n == 0 | negsuc n ↦ false ]
    ]
    && not r.timed_out

-- `RuntimeEvidence.identities_valid`
unfoldable pub identities_valid : RuntimeEvidence → Bool
identities_valid r = r.candidate_uid == 10001 && r.simulator_uid == 11001

-- The names of the shapes of a step: a `KeyError` for any other name.
unfoldable pub shape_names : Text → Result (List Text)
unfolding text_eq
shape_names step =
    if text_eq step step_1
    then ok (codes "sample" ∷ codes "cut" ∷ codes "protection" ∷ codes "source_bridge" ∷ [])
    else if text_eq step step_2
    then ok (codes "sample" ∷ codes "source_separation" ∷ codes "needle_joint" ∷ [])
    else if text_eq step step_3
    then ok (codes "sample" ∷ codes "target_joint" ∷ codes "target_interface" ∷ [])
    else if text_eq step step_4
    then ok (codes "sample" ∷ codes "needle_separation" ∷ codes "target_joint" ∷ [])
    else err key_error

module _ {F : Type 0} ⦃h : Host F⦄ where
  -- `_perfect_shape`
  unfoldable pub perfect_shape : Text → ShapeComparison F
  perfect_shape geometry_hash = record {
    candidate_volume_um3 = h.of_ℕ 1;
    reference_volume_um3 = h.of_ℕ 1;
    volume_similarity = h.of_ℕ 1;
    voxel_iou = h.of_ℕ 1;
    symmetric_surface_distance_um = h.of_ℕ 0;
    hausdorff_distance_um = h.of_ℕ 0;
    asd_score = h.of_ℕ 1;
    hausdorff_score = h.of_ℕ 1;
    shape_score = h.of_ℕ 1;
    voxel_size_um = decimal 1 10;
    surface_sample_count = 2_048;
    candidate_geometry_sha256 = geometry_hash;
    reference_geometry_sha256 = geometry_hash;
  }

  -- `_shape_with_score`
  unfoldable pub shape_with_score : ShapeComparison F → F → ShapeComparison F
  shape_with_score s score = record s {
    volume_similarity = score;
    voxel_iou = score;
    asd_score = score;
    hausdorff_score = score;
    shape_score = score;
  }

  -- `if name in shapes: shapes[name] = _shape_with_score(shape, score)`
  unfoldable pub rescore :
      Text → ShapeComparison F → F → Dict (ShapeComparison F) → Dict (ShapeComparison F)
  unfolding find put shape_with_score
  rescore name shape score shapes = elim (find name shapes) [
    | none ↦ shapes
    | some s ↦ put name (shape_with_score shape score) shapes
  ]

  -- `_synthetic_step_evidence`
  unfoldable pub synthetic_step_evidence :
      ⦃num : Numbers F⦄ → Text → GeometryMetrics F → ScenarioSpec F → Result (StepEvidence F)
  unfolding shape_names perfect_shape rescore new_step_evidence clamp01 contains text_eq
  synthetic_step_evidence step m spec = do
    names ← shape_names step
    let shape = perfect_shape m.canonical_geometry_hash
    let shapes = map (λ name. (name, shape)) names
    let needle_score = clamp01 (h.div m.needle_joint_section_um spec.tolerances.joint_scale_um)
    let needled =
        if contains step (step_2 ∷ step_3 ∷ [])
        then rescore (codes "needle_joint") shape needle_score shapes
        else shapes
    let target_score = clamp01 (h.div m.target_joint_section_um spec.tolerances.joint_scale_um)
    let targeted =
        if contains step (step_3 ∷ step_4 ∷ [])
        then rescore (codes "target_joint") shape target_score needled
        else needled
    new_step_evidence (record {
      step_id = step;
      geometry = m;
      shapes = targeted;
      co_motion_score = h.of_ℕ 1;
      trusted = true;
    })

  -- `{step: _synthetic_step_evidence(...) for step, checkpoint in checkpoints.items()}`
  unfoldable pub synthetic_steps :
      ⦃num : Numbers F⦄
      → Dict (CheckpointEvidence F)
      → ScenarioSpec F
      → Result (Dict (StepEvidence F))
  unfolding synthetic_step_evidence
  synthetic_steps [] spec = ok []
  synthetic_steps ((step, checkpoint) ∷ rest) spec = do
    e ← synthetic_step_evidence step checkpoint.geometry spec
    es ← synthetic_steps rest spec
    ok ((step, e) ∷ es)

-- `OPENFIBSEM_COMMIT`
abbrev pub openfibsem_commit : Text
openfibsem_commit = codes "2ebccb8b9721234ca66bb94de36d0f7cfe047af9"

-- `_synthetic_reference_identity`
unfoldable pub synthetic_reference_identity :
    {F : Type 0} → ⦃c : Codec F⦄ → ScenarioSpec F → Entries F
synthetic_reference_identity ⦃c = c⦄ spec =
    entry (some (codes "schema_version")) (integer (pos 1)) (
      entry (some (codes "source_id")) (text (codes "openfibsem")) (
        entry (some (codes "evaluator_id")) (text (codes "fibsem_liftout_v1")) (
          entry (some (codes "scenario_id")) (text spec.scenario_id) (
            entry (some (codes "scenario_sha256")) (text (c.sha256 spec.canonical_bytes)) (
              entry (some (codes "openfibsem_commit")) (text openfibsem_commit) (
                entry (some (codes "evaluator_commit")) (text (zeros 40)) (
                  entry (some (codes "generator_tree_sha256")) (text (zeros 64)) (
                    entry (some (codes "reference_solution_sha256")) (text (zeros 64)) (
                      entry (some (codes "mesh_parser_version")) (text (codes "canonical-stl-v1")) (
                        entry (some (codes "algorithm_version")) (text (codes "stl-shape-v1")) (
                          entry (some (codes "parameter_sha256")) (text (zeros 64)) (
                            entry (some (codes "bundle_sha256")) (text (zeros 64)) (
                              entry (some (codes "file_sha256")) (mapping no_entries)
                                no_entries)))))))))))))
