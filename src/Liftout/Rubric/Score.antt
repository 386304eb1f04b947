-- ===== src/Liftout/Rubric/Score.antt =====
-- `score_step`: the criteria of a step, their sum, and the cap on it.
use instrument_benchmark_eva.Prelude.{◌&&◌, map, if◌then◌else◌, Result, ok, err, value_error}
use instrument_benchmark_eva.Prelude.Text.{Text, codes, contains, text_eq}
use instrument_benchmark_eva.Prelude.Dict.{Dict}
use instrument_benchmark_eva.Host.{Host, lt_float}
use instrument_benchmark_eva.Liftout.Rubric.Metrics.{
  Numbers, ScenarioSpec, StepEvidence, steps, step_1, step_2, step_3, step_total, sort_keys,
}
use instrument_benchmark_eva.Liftout.Rubric.Criteria.{
  CriterionScore, score_step_1, score_step_2, score_step_3, score_step_4,
}
use instrument_benchmark_eva.Liftout.Rubric.Caps.{ScoreCap, caps}

pub record StepBreakdown (F : Type 0) : Type 0 where
  pub step_id : Text
  pub raw_score : F
  pub final_score : F
  pub maximum_points : F
  pub criteria : Dict (CriterionScore F)
  pub cap : ScoreCap F

-- `min(a, b)`: the first where neither is below the other
abbrev pub min_float : {F : Type 0} ⦃h : Host F⦄ → F → F → F
min_float a b = if lt_float b a then b else a

module _ {F : Type 0} ⦃h : Host F⦄ ⦃num : Numbers F⦄ where
  -- `scorers[step_id]`, for a name of `STEPS`
  unfoldable pub scorers : Text → StepEvidence F → ScenarioSpec F → Dict (CriterionScore F)
  unfolding text_eq
  scorers step e spec =
      if text_eq step step_1
      then score_step_1 e spec
      else if text_eq step step_2
      then score_step_2 e spec
      else if text_eq step step_3
      then score_step_3 e spec
      else score_step_4 e spec

  -- What a step scores once its identity is checked.
  unfoldable pub breakdown : Text → StepEvidence F → ScenarioSpec F → StepBreakdown F
  breakdown step e spec =
      let criteria = scorers step e spec in
      let raw_score = num.round6 (num.sum (map (λ (_, c). c.points) criteria)) in
      let cap = caps step e spec in
      record {
        step_id = step;
        raw_score = raw_score;
        final_score = num.round6 (min_float raw_score cap.maximum_points);
        maximum_points = h.of_ℕ (step_total step);
        criteria = sort_keys criteria;
        cap = cap;
      }

  unfoldable pub score_step : Text → StepEvidence F → ScenarioSpec F → Result (StepBreakdown F)
  unfolding contains text_eq
  score_step step e spec =
      if contains step steps && text_eq e.step_id step
      then ok (breakdown step e spec)
      else err (value_error (codes "step rubric identity mismatch"))
