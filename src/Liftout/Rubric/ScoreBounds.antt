-- ===== src/Liftout/Rubric/ScoreBounds.antt =====
-- Bounds on the score of a step, and what a full score shows.
use instrument_benchmark_eva.Prelude.{
  ℕ, ◌≤◌, ◌≡◌, subst, arith, Bool, true, false, [], map, if◌then◌else◌, inl, inr, ok,
}
use instrument_benchmark_eva.Prelude.Text.{Text}
use instrument_benchmark_eva.Host.{Host}
use instrument_benchmark_eva.Liftout.Rubric.Metrics.{
  Numbers, ScenarioSpec, StepEvidence, step_total,
}
use instrument_benchmark_eva.Liftout.Rubric.Caps.{applicable, caps}
use instrument_benchmark_eva.Liftout.Rubric.Score.{
  StepBreakdown, min_float, scorers, breakdown, score_step,
}
use instrument_benchmark_eva.Liftout.Rubric.Laws.{IsExact, round_low, round_high, whole_le}
use instrument_benchmark_eva.Liftout.Rubric.Bounds.{
  AllBounded-Between, scorers-AllBounded, maxima, total_of-maxima,
}
use instrument_benchmark_eva.Liftout.Rubric.CapBounds.{caps-cases}

step_total-small : (step : Text) → step_total step ≤ 25
unfolding step_total
step_total-small step = ground arith

module _ {F : Type 0} ⦃h : Host F⦄ ⦃num : Numbers F⦄ where
  -- The smaller of two numbers is one of them, and not above either.
  min_float-low :
      IsExact h num
      → (a b z : F) → h.le z a ≡ true
      → h.le z b ≡ true
      → h.le z (min_float a b) ≡ true
  min_float-low law a b z za zb = if_true _
    where
      if_true : (c : Bool) → h.le z (if c then b else a) ≡ true
      if_true true = zb
      if_true false = za

  min_float-le_left : IsExact h num → (a b : F) → h.le a a ≡ true → h.le (min_float a b) a ≡ true
  min_float-le_left law a b na = ground arith

  min_float-le_right :
      IsExact h num → (a b : F) → h.le a a ≡ true → h.le b b ≡ true → h.le (min_float a b) b ≡ true
  min_float-le_right law a b na nb = ground (arith, law.le_total b a nb na)

  -- The cap is a whole number of points, up to the total.
  caps-Whole :
      (step : Text) (e : StepEvidence F) (spec : ScenarioSpec F)
      → (n : ℕ) × (n ≤ step_total step) × ((caps step e spec).maximum_points ≡ h.of_ℕ n)
  unfolding step_total
  caps-Whole step e spec = elim (caps-cases step e spec) [
    | inl (n, small, eq) ↦ (n, ground arith, eq)
    | inr (t, apps, eq) ↦ (step_total step, omega arith, eq)
  ]

  -- What a step scores: between zero, the total, the cap and the sum of its criteria.
  pub record IsWithin (b : StepBreakdown F) : Type 0 where
    pub low : h.le (h.of_ℕ 0) b.final_score ≡ true
    pub total : h.le b.final_score b.maximum_points ≡ true
    pub raw : h.le b.final_score b.raw_score ≡ true
    pub cap : h.le b.final_score b.cap.maximum_points ≡ true

  breakdown-IsWithin :
      IsExact h num
      → (step : Text) (e : StepEvidence F) (spec : ScenarioSpec F)
      → IsWithin (breakdown step e spec)
  unfolding breakdown
  breakdown-IsWithin law step e spec =
      let xs = map (λ (_, c). c.points) (scorers step e spec) in
      let between =
        AllBounded-Between (scorers step e spec) (maxima step)
          (scorers-AllBounded law step e spec) in
      let s = num.sum xs in
      let raw = num.round6 s in
      let raw_low : h.le (h.of_ℕ 0) raw ≡ true =
        round_low law s (law.sum_low xs (maxima step) between) in
      let raw_is = law.le_right (h.of_ℕ 0) raw raw_low in
      let (n, small, eq) = caps-Whole step e spec in
      let bound = step_total-small step in
      let cap_low : h.le (h.of_ℕ 0) (h.of_ℕ n) ≡ true =
        whole_le law 0 n (omega arith) (omega arith) in
      let cap_is = law.le_right (h.of_ℕ 0) (h.of_ℕ n) cap_low in
      let raw_high : h.le raw (h.of_ℕ (step_total step)) ≡ true =
        round_high law s (step_total step) (omega arith) (
          subst (λ k. h.le s (h.of_ℕ k) ≡ true) (total_of-maxima step)
            (law.sum_high xs (maxima step) between (rw (total_of-maxima step) (omega arith)))) in
      let least = min_float raw (h.of_ℕ n) in
      let final_raw : h.le (num.round6 least) (num.round6 raw) ≡ true =
        law.round_le least raw (min_float-le_left law raw (h.of_ℕ n) raw_is) in
      let final_cap : h.le (num.round6 least) (h.of_ℕ n) ≡ true =
        round_high law least n (omega arith)
          (min_float-le_right law raw (h.of_ℕ n) raw_is cap_is) in
      record {
        low =
            rw eq
              (round_low law least (min_float-low law raw (h.of_ℕ n) (h.of_ℕ 0) raw_low cap_low));
        total =
            rw eq
              (law.le_trans _ _ _ final_cap (whole_le law n (step_total step) small (omega arith)));
        raw = rw eq (subst (λ x. h.le (num.round6 least) x ≡ true) (law.round_again s) final_raw);
        cap = rw eq final_cap;
      }

  pub score_step-IsWithin :
      (step : Text) (e : StepEvidence F) (spec : ScenarioSpec F) (b : StepBreakdown F)
      → IsExact h num
      → score_step step e spec ≡ ok b
      → IsWithin b
  unfolding score_step
  score_step-IsWithin step e spec b law done =
      let same : breakdown step e spec ≡ b = ground arith in
      subst IsWithin same (breakdown-IsWithin law step e spec)

  -- Where a step scores its whole total, the checkpoint is trusted and no cap applies.
  pub breakdown-full :
      IsExact h num
      → (step : Text) (e : StepEvidence F) (spec : ScenarioSpec F)
      → h.le (h.of_ℕ (step_total step)) (breakdown step e spec).final_score ≡ true
      → (e.trusted ≡ true) × (applicable step e.geometry spec ≡ [])
  unfolding breakdown step_total
  breakdown-full law step e spec full = elim (caps-cases step e spec) [
    | inr (trusted, apps, eq) ↦ (trusted, apps)
    | inl (n, small, eq) ↦
        let below : h.le (h.of_ℕ (step_total step)) (h.of_ℕ n) ≡ true = law.le_trans _ _ _ full (
          subst (λ x. h.le (breakdown step e spec).final_score x ≡ true) eq
            (breakdown-IsWithin law step e spec).cap) in
        let far =
          law.le_whole (step_total step) n (omega (arith, step_total-small step)) (omega arith) in
        ground arith
  ]
