-- ===== src/Liftout/Rubric/Bounds.antt =====
-- Bounds on the points of criteria and steps.
use instrument_benchmark_eva.Prelude.{
  ℕ, ◌≤◌, ◌≡◌, refl, arith, true, Option-cases, Bool-cases, List, [], ◌∷◌, map, if◌then◌else◌, inl,
  inr,
}
use instrument_benchmark_eva.Prelude.Text.{Text, text_eq}
use instrument_benchmark_eva.Prelude.Dict.{Dict, find}
use instrument_benchmark_eva.Host.{Host}
use instrument_benchmark_eva.Liftout.Value.{Value}
use instrument_benchmark_eva.Liftout.Rubric.Metrics.{
  Numbers, ScenarioSpec, StepEvidence, clamp01, step_1, step_2, step_3, step_4, step_total,
}
use instrument_benchmark_eva.Liftout.Rubric.Criteria.{
  CriterionScore, criterion, shape_criterion, score_step_1, score_step_2, score_step_3,
  score_step_4,
}
use instrument_benchmark_eva.Liftout.Rubric.Score.{scorers}
use instrument_benchmark_eva.Liftout.Rubric.Laws.{
  IsExact, Between, total_of, round_low, round_high, clamp01_low, clamp01_high,
}

-- The maxima of the criteria of each step.
pub maxima : Text → List ℕ
unfolding text_eq
maxima step =
    if text_eq step step_1
    then 6 ∷ 4 ∷ 3 ∷ 3 ∷ 2 ∷ 2 ∷ []
    else if text_eq step step_2
    then 5 ∷ 5 ∷ 5 ∷ 5 ∷ 3 ∷ 2 ∷ []
    else if text_eq step step_3
    then 4 ∷ 5 ∷ 5 ∷ 5 ∷ 4 ∷ 2 ∷ []
    else 4 ∷ 4 ∷ 4 ∷ 4 ∷ 2 ∷ 2 ∷ []

pub total_of-maxima : (step : Text) → total_of (maxima step) ≡ step_total step
unfolding maxima step_total
total_of-maxima step = ground arith

module _ {F : Type 0} ⦃h : Host F⦄ ⦃num : Numbers F⦄ where
  -- A criterion scores between 0 and its maximum, a whole number.
  pub record IsBounded (c : CriterionScore F) (n : ℕ) : Type 0 where
    pub low : h.le (h.of_ℕ 0) c.points ≡ true
    pub high : h.le c.points (h.of_ℕ n) ≡ true
    pub maximum : c.maximum_points ≡ h.of_ℕ n

  criterion-IsBounded :
      IsExact h num
      → (name : Text) (fraction : F) (n : ℕ) (ms : Dict (Value F)) → n ≤ 100
      → IsBounded (criterion name fraction (h.of_ℕ n) ms) n
  unfolding criterion
  criterion-IsBounded law name fraction n ms small =
      let low = clamp01_low law fraction in
      let high = clamp01_high law fraction in
      record {
        low = round_low law _ (law.mul_low (clamp01 fraction) n small low high);
        high = round_high law _ n small (law.mul_high (clamp01 fraction) n small low high);
        maximum = refl;
      }

  shape_criterion-IsBounded :
      IsExact h num
      → (name : Text) (e : StepEvidence F) (shape : Text) (n : ℕ) → n ≤ 100
      → IsBounded (shape_criterion name e shape (h.of_ℕ n)) n
  unfolding shape_criterion
  shape_criterion-IsBounded law name e shape n small = elim (Option-cases (find shape e.shapes)) [
    | inl absent ↦ rw (absent, shape_criterion) (criterion-IsBounded law name _ n _ small)
    | inr (s, found) ↦ rw (found, shape_criterion) (criterion-IsBounded law name _ n _ small)
  ]

  -- The criteria of a step, with the maximum of each.
  pub AllBounded : Dict (CriterionScore F) → List ℕ → Type 0
  AllBounded [] [] = Unit
  AllBounded [] (n ∷ ns) = ⊥
  AllBounded (c ∷ cs) [] = ⊥
  AllBounded ((k, c) ∷ cs) (n ∷ ns) = IsBounded c n × (n ≤ 25) × AllBounded cs ns

  step_1-AllBounded :
      IsExact h num
      → (e : StepEvidence F) (spec : ScenarioSpec F)
      → AllBounded (score_step_1 e spec) (maxima step_1)
  unfolding maxima AllBounded score_step_1
  step_1-AllBounded law e spec = (
    shape_criterion-IsBounded law _ e _ 6 (omega arith),
    omega arith,
    (
      shape_criterion-IsBounded law _ e _ 4 (omega arith),
      omega arith,
      (
        shape_criterion-IsBounded law _ e _ 3 (omega arith),
        omega arith,
        (
          criterion-IsBounded law _ _ 3 _ (omega arith),
          omega arith,
          (
            criterion-IsBounded law _ _ 2 _ (omega arith),
            omega arith,
            (criterion-IsBounded law _ _ 2 _ (omega arith), omega arith, tt),
          ),
        ),
      ),
    ),
  )

  step_2-AllBounded :
      IsExact h num
      → (e : StepEvidence F) (spec : ScenarioSpec F)
      → AllBounded (score_step_2 e spec) (maxima step_2)
  unfolding maxima AllBounded score_step_2
  step_2-AllBounded law e spec = (
    shape_criterion-IsBounded law _ e _ 5 (omega arith),
    omega arith,
    (
      shape_criterion-IsBounded law _ e _ 5 (omega arith),
      omega arith,
      (
        shape_criterion-IsBounded law _ e _ 5 (omega arith),
        omega arith,
        (
          criterion-IsBounded law _ _ 5 _ (omega arith),
          omega arith,
          (
            criterion-IsBounded law _ _ 3 _ (omega arith),
            omega arith,
            (criterion-IsBounded law _ _ 2 _ (omega arith), omega arith, tt),
          ),
        ),
      ),
    ),
  )

  step_3-AllBounded :
      IsExact h num
      → (e : StepEvidence F) (spec : ScenarioSpec F)
      → AllBounded (score_step_3 e spec) (maxima step_3)
  unfolding maxima AllBounded score_step_3
  step_3-AllBounded law e spec = (
    shape_criterion-IsBounded law _ e _ 4 (omega arith),
    omega arith,
    (
      criterion-IsBounded law _ _ 5 _ (omega arith),
      omega arith,
      (
        shape_criterion-IsBounded law _ e _ 5 (omega arith),
        omega arith,
        (
          criterion-IsBounded law _ _ 5 _ (omega arith),
          omega arith,
          (
            shape_criterion-IsBounded law _ e _ 4 (omega arith),
            omega arith,
            (criterion-IsBounded law _ _ 2 _ (omega arith), omega arith, tt),
          ),
        ),
      ),
    ),
  )

  step_4-AllBounded :
      IsExact h num
      → (e : StepEvidence F) (spec : ScenarioSpec F)
      → AllBounded (score_step_4 e spec) (maxima step_4)
  unfolding maxima AllBounded score_step_4
  step_4-AllBounded law e spec = (
    shape_criterion-IsBounded law _ e _ 4 (omega arith),
    omega arith,
    (
      shape_criterion-IsBounded law _ e _ 4 (omega arith),
      omega arith,
      (
        shape_criterion-IsBounded law _ e _ 4 (omega arith),
        omega arith,
        (
          criterion-IsBounded law _ _ 4 _ (omega arith),
          omega arith,
          (
            criterion-IsBounded law _ _ 2 _ (omega arith),
            omega arith,
            (criterion-IsBounded law _ _ 2 _ (omega arith), omega arith, tt),
          ),
        ),
      ),
    ),
  )

  pub scorers-AllBounded :
      IsExact h num
      → (step : Text) (e : StepEvidence F) (spec : ScenarioSpec F)
      → AllBounded (scorers step e spec) (maxima step)
  unfolding scorers maxima text_eq
  scorers-AllBounded law step e spec = elim (Bool-cases (text_eq step step_1)) [
    | inl first ↦ rw first (step_1-AllBounded law e spec)
    | inr not_first ↦ elim (Bool-cases (text_eq step step_2)) [
      | inl second ↦ rw (not_first, second) (step_2-AllBounded law e spec)
      | inr not_second ↦ elim (Bool-cases (text_eq step step_3)) [
        | inl third ↦ rw (not_first, not_second, third) (step_3-AllBounded law e spec)
        | inr not_third ↦ rw (not_first, not_second, not_third) (step_4-AllBounded law e spec)
      ]
    ]
  ]

  -- The points of the criteria, each with its maximum.
  pub AllBounded-Between :
      (cs : Dict (CriterionScore F)) (ns : List ℕ)
      → AllBounded cs ns
      → Between (map (λ (_, c). c.points) cs) ns
  unfolding AllBounded
  AllBounded-Between [] [] b = tt
  AllBounded-Between [] (n ∷ ns) b = elim b [ ]
  AllBounded-Between (c ∷ cs) [] b = elim b [ ]
  AllBounded-Between (c ∷ cs) (n ∷ ns) b =
      (b.0.low, b.0.high, omega (arith, b.1), AllBounded-Between cs ns b.2)
