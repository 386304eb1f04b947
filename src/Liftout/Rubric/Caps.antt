-- ===== src/Liftout/Rubric/Caps.antt =====
-- The caps on the score of a step.
use instrument_benchmark_eva.Prelude.{
  ℕ, Bool, not, ◌&&◌, ◌||◌, List, [], ◌∷◌, map, if◌then◌else◌, ◌==◌,
}
use instrument_benchmark_eva.Prelude.Text.{Text, codes, text_eq}
use instrument_benchmark_eva.Host.{Host, lt_float}
use instrument_benchmark_eva.Liftout.Rubric.Metrics.{
  GeometryMetrics, ScenarioSpec, StepEvidence, decimal, step_1, step_2, step_3, step_total,
  sort_texts,
}

pub record ScoreCap (F : Type 0) : Type 0 where
  pub maximum_points : F
  pub reasons : List Text

-- `if b: applicable.append((points, reason))`, before those that follow
unfoldable pub cap_if : Bool → ℕ → Text → List (ℕ × Text) → List (ℕ × Text)
cap_if b points reason rest = if b then (points, reason) ∷ rest else rest

module _ {F : Type 0} ⦃h : Host F⦄ where
  unfoldable pub fragmented : GeometryMetrics F → Bool
  fragmented m =
      not (m.sample_component_count == 1) || lt_float m.retained_sample_fraction (decimal 65 100)

  unfoldable pub beyond_three_tolerances : GeometryMetrics F → ScenarioSpec F → Bool
  beyond_three_tolerances m spec =
      lt_float (h.mul (h.of_ℕ 3) spec.tolerances.position_um) m.sample_position_error_um

  -- The caps that apply to each step, all whole numbers.
  unfoldable pub caps_1 : GeometryMetrics F → List (ℕ × Text)
  caps_1 m = cap_if (not m.sample_to_source) 8 (codes "sample_not_connected_to_source") (
      cap_if m.sample_to_needle 8 (codes "early_needle_connection") (
        cap_if m.sample_to_target 8 (codes "early_target_connection") (
          cap_if (fragmented m) 5 (codes "sample_fragmented_or_below_65_percent") (
            cap_if (m.collision || not m.changes_within_work_envelopes) 5
              (codes "collision_or_outside_work_envelope") []))))

  unfoldable pub caps_2 : GeometryMetrics F → ScenarioSpec F → List (ℕ × Text)
  caps_2 m spec = cap_if m.sample_to_source 10 (codes "source_still_connected") (
      cap_if (not m.sample_to_needle) 10 (codes "needle_not_connected") (
        cap_if m.sample_to_target 8 (codes "target_connected_too_early") (
          cap_if
            (m.sample_to_needle
              && lt_float m.needle_joint_section_um spec.tolerances.joint_scale_um)
            12 (codes "needle_joint_one_sided_or_thin")
            (cap_if (fragmented m) 6 (codes "sample_fragmented_or_below_65_percent") []))))

  unfoldable pub caps_3 : GeometryMetrics F → ScenarioSpec F → List (ℕ × Text)
  caps_3 m spec = cap_if (not m.sample_to_target) 10 (codes "target_not_connected") (
      cap_if (not m.sample_to_needle) 10 (codes "needle_disconnected_too_early") (
        cap_if m.sample_to_source 5 (codes "source_reconnected") (
          cap_if (beyond_three_tolerances m spec) 12
            (codes "target_position_beyond_three_tolerances")
            (cap_if
              (m.sample_to_target
                && lt_float m.target_joint_section_um spec.tolerances.joint_scale_um)
              12 (codes "target_joint_one_sided_or_thin")
              (cap_if (fragmented m) 8 (codes "sample_fragmented_or_below_65_percent") [])))))

  unfoldable pub caps_4 : GeometryMetrics F → ScenarioSpec F → List (ℕ × Text)
  caps_4 m spec = cap_if (not m.sample_to_target) 6 (codes "target_not_connected") (
      cap_if m.sample_to_needle 6 (codes "needle_still_connected") (
        cap_if m.sample_to_source 4 (codes "source_still_connected") (
          cap_if (not m.needle_safely_retracted) 10 (codes "unsafe_needle_retraction") (
            cap_if (fragmented m) 6 (codes "sample_fragmented_or_below_65_percent") (
              cap_if (beyond_three_tolerances m spec) 10
                (codes "target_position_beyond_three_tolerances") [])))))

  -- `min` of a list that is not empty
  unfoldable pub least : F → List F → F
  least x [] = x
  least x (y ∷ ys) = least (if lt_float y x then y else x) ys

  -- The cap of the list that applies, `total` where none does.
  unfoldable pub cap_of : F → List (ℕ × Text) → ScoreCap F
  unfolding sort_texts
  cap_of total [] = record { maximum_points = total; reasons = [] }
  cap_of total ((n, r) ∷ caps) = record {
    maximum_points = least (h.of_ℕ n) (map (λ (k, _). h.of_ℕ k) caps);
    reasons = sort_texts (r ∷ map (λ (_, s). s) caps);
  }

  unfoldable pub applicable : Text → GeometryMetrics F → ScenarioSpec F → List (ℕ × Text)
  unfolding cap_if caps_1 caps_2 caps_3 caps_4 fragmented beyond_three_tolerances text_eq
  applicable step m spec =
      if text_eq step step_1
      then caps_1 m
      else if text_eq step step_2
      then caps_2 m spec
      else if text_eq step step_3
      then caps_3 m spec
      else caps_4 m spec

  -- `_caps`
  unfoldable pub caps : Text → StepEvidence F → ScenarioSpec F → ScoreCap F
  unfolding step_total
  caps step e spec =
      if not e.trusted
      then record {
        maximum_points = h.of_ℕ 0;
        reasons = codes "missing_or_untrusted_checkpoint" ∷ [];
      }
      else cap_of (h.of_ℕ (step_total step)) (applicable step e.geometry spec)
