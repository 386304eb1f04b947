-- ===== src/Liftout/Rubric/Metrics.antt =====
-- What a step is scored on: the geometry metrics, the shape comparisons, the tolerances of a
-- scenario, and the arithmetic of step_rubric.py.
use instrument_benchmark_eva.Prelude.{
  ℕ, Bool, not, ◌&&◌, List, [], ◌∷◌, if◌then◌else◌, Result, ok, value_error,
}
use instrument_benchmark_eva.Prelude.Results.{guard, ◌>>◌}
use instrument_benchmark_eva.Prelude.Text.{Text, codes, contains, text_eq, text_le}
use instrument_benchmark_eva.Prelude.Dict.{Dict}
use instrument_benchmark_eva.Host.{Host, lt_float}

-- What scores take from the runtime: `math.isfinite`, `round(x, 6)` and `sum` of floats.
pub record Numbers (F : Type 0) : Type 0 where
  pub finite : F → Bool
  pub round6 : F → F
  pub sum : List F → F

-- `GeometryMetrics`, what scores read of it
pub record GeometryMetrics (F : Type 0) : Type 0 where
  pub sample_to_source : Bool
  pub sample_to_needle : Bool
  pub sample_to_target : Bool
  pub needle_joint_section_um : F
  pub target_joint_section_um : F
  pub sample_component_count : ℕ
  pub retained_sample_fraction : F
  pub sample_position_error_um : F
  pub sample_orientation_error_degrees : F
  pub sample_integrity_step_1 : Bool
  pub sample_integrity_final : Bool
  pub changes_within_work_envelopes : Bool
  pub needle_safely_retracted : Bool
  pub collision : Bool
  pub simulator_idle : Bool
  pub canonical_geometry_hash : Text

pub record ShapeComparison (F : Type 0) : Type 0 where
  pub candidate_volume_um3 : F
  pub reference_volume_um3 : F
  pub volume_similarity : F
  pub voxel_iou : F
  pub symmetric_surface_distance_um : F
  pub hausdorff_distance_um : F
  pub asd_score : F
  pub hausdorff_score : F
  pub shape_score : F
  pub voxel_size_um : F
  pub surface_sample_count : ℕ
  pub candidate_geometry_sha256 : Text
  pub reference_geometry_sha256 : Text

-- `AdaptiveTolerances`, what scores read of it: no tolerance is zero.
pub record Tolerances (F : Type 0) : Type 0 where
  pub position_um : F
  pub joint_scale_um : F
  pub orientation_degrees : F

-- `ScenarioSpec`, what scores read of it
pub record ScenarioSpec (F : Type 0) : Type 0 where
  pub scenario_id : Text
  -- what `canonical_bytes()` returns
  pub canonical_bytes : Text
  pub tolerances : Tolerances F

-- The names of the steps, with the points of each.
abbrev pub step_1 : Text
step_1 = codes "step_1"

abbrev pub step_2 : Text
step_2 = codes "step_2"

abbrev pub step_3 : Text
step_3 = codes "step_3"

abbrev pub step_4 : Text
step_4 = codes "step_4"

-- `STEPS`
abbrev pub steps : List Text
steps = step_1 ∷ step_2 ∷ step_3 ∷ step_4 ∷ []

-- `STEP_TOTALS[step]`, for a name of `STEPS`
unfoldable pub step_total : Text → ℕ
unfolding text_eq
step_total s =
    if text_eq s (codes "step_1")
    then 20
    else if text_eq s (codes "step_2")
    then 25
    else if text_eq s (codes "step_3")
    then 25
    else 20

module _ {F : Type 0} ⦃h : Host F⦄ where
  -- A literal: both numbers are exact, and their quotient is the nearest float.
  abbrev pub decimal : ℕ → ℕ → F
  decimal n d = h.div (h.of_ℕ n) (h.of_ℕ d)

  -- `max(0.0, value)`, which is 0.0 for NaN
  abbrev pub above_zero : F → F
  above_zero x = if lt_float (h.of_ℕ 0) x then x else h.of_ℕ 0

  -- `_clamp01`
  unfoldable pub clamp01 : F → F
  clamp01 x = let y = above_zero x in if lt_float y (h.of_ℕ 1) then y else h.of_ℕ 1

  -- `_threshold_fraction`
  unfoldable pub threshold_fraction : F → F → F → F
  threshold_fraction x minimum full =
      if h.le x minimum
      then h.of_ℕ 0
      else if h.le full x
      then h.of_ℕ 1
      else h.div (h.sub x minimum) (h.sub full minimum)

  -- `_pose_fraction`
  unfoldable pub pose_fraction : F → F → F
  pose_fraction error tolerance =
      if h.le error tolerance
      then h.of_ℕ 1
      else if h.le (h.mul (h.of_ℕ 3) tolerance) error
      then h.of_ℕ 0
      else h.div (h.sub (h.of_ℕ 3) (h.div error tolerance)) (h.of_ℕ 2)

  -- `1.0 if b else 0.0`, for a value
  abbrev pub if_float : Bool → F → F
  if_float b x = if b then x else h.of_ℕ 0

  -- `_common_fraction`
  unfoldable pub common_fraction : GeometryMetrics F → F
  common_fraction m =
      h.div
        (h.add
          (h.add (if_float (not m.collision) (decimal 5 10))
            (if_float m.simulator_idle (decimal 5 10)))
          (if_float m.changes_within_work_envelopes (h.of_ℕ 1)))
        (h.of_ℕ 2)

pub record StepEvidence (F : Type 0) : Type 0 where
  pub step_id : Text
  pub geometry : GeometryMetrics F
  pub shapes : Dict (ShapeComparison F)
  pub co_motion_score : F
  pub trusted : Bool

module _ {F : Type 0} ⦃h : Host F⦄ ⦃num : Numbers F⦄ where
  -- `StepEvidence.__post_init__`
  unfoldable pub new_step_evidence : StepEvidence F → Result (StepEvidence F)
  unfolding contains
  new_step_evidence e = do
    guard (contains e.step_id steps) (value_error (codes "step evidence ID is invalid"))
    guard
        (num.finite e.co_motion_score
          && h.le (h.of_ℕ 0) e.co_motion_score
          && h.le e.co_motion_score (h.of_ℕ 1))
        (value_error (codes "co-motion score must be between zero and one"))
    ok e

-- `sorted(texts)`
place_text : Text → List Text → List Text
place_text t [] = t ∷ []
place_text t (u ∷ us) = let rest = place_text t us in if text_le t u then t ∷ u ∷ us else u ∷ rest

unfoldable pub sort_texts : List Text → List Text
unfolding place_text text_le
sort_texts [] = []
sort_texts (t ∷ ts) = place_text t (sort_texts ts)

module _ {V : Type 0} where
  unfoldable pub place_key : Text → V → Dict V → Dict V
  place_key k v [] = (k, v) ∷ []
  place_key k v ((j, w) ∷ d) =
      let rest = place_key k v d in if text_le k j then (k, v) ∷ (j, w) ∷ d else (j, w) ∷ rest

  -- `dict(sorted(d.items()))`
  unfoldable pub sort_keys : Dict V → Dict V
  unfolding place_key text_le
  sort_keys [] = []
  sort_keys ((k, v) ∷ d) = place_key k v (sort_keys d)
