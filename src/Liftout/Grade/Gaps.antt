-- ===== src/Liftout/Grade/Gaps.antt =====
-- What a missing checkpoint costs, and what full scores of all steps show.
use instrument_benchmark_eva.Prelude.{
  suc, ◌≤◌, ◌≡◌, refl, sym, ap, subst, ◌∙◌, arith, Bool, true, false, ◌&&◌, Option, none, some,
  List, [], ◌∷◌, ◌++◌, map, All, length, leb, inl, inr, Result-cases, ok,
}
use instrument_benchmark_eva.Prelude.Results.{◌>>=◌}
use instrument_benchmark_eva.Prelude.Text.{Text}
use instrument_benchmark_eva.Prelude.Dict.{Dict, find}
use instrument_benchmark_eva.Host.{Host, eq_float}
use instrument_benchmark_eva.Liftout.Rubric.Metrics.{
  Numbers, ScenarioSpec, StepEvidence, step_total,
}
use instrument_benchmark_eva.Liftout.Rubric.Score.{StepBreakdown, score_step}
use instrument_benchmark_eva.Liftout.Rubric.Laws.{IsExact}
use instrument_benchmark_eva.Liftout.Rubric.Full.{IsFlawless, score_step-full}
use instrument_benchmark_eva.Liftout.Grade.Evidence.{CheckpointEvidence}
use instrument_benchmark_eva.Liftout.Grade.Steps.{
  has, zero_breakdown, externally_capped, grade_step, grade_steps,
}
use instrument_benchmark_eva.Liftout.Grade.World.{all_full}

step_total-positive : (step : Text) → leb (step_total step) 0 ≡ false
unfolding step_total
step_total-positive step = ground arith

module _ {F : Type 0} ⦃h : Host F⦄ ⦃num : Numbers F⦄ where
  -- A step that is given no points.
  abbrev pub Pointless : Text × StepBreakdown F → Type 0
  Pointless (_, b) = b.final_score ≡ h.of_ℕ 0

  grade_step-gap :
      (spec : ScenarioSpec F) (step : Text) (e : Option (StepEvidence F)) (b : StepBreakdown F)
      → grade_step spec false step e ≡ ok b
      → b.final_score ≡ h.of_ℕ 0
  unfolding grade_step zero_breakdown externally_capped
  grade_step-gap spec step none b done = ground arith
  grade_step-gap spec step (some e) b done = elim (Result-cases (score_step step e spec)) [
    | inr (x, bad) ↦ ground arith
    | inl (s, good) ↦ ground arith
  ]

  -- After a gap nothing scores.
  grade_steps-after :
      (spec : ScenarioSpec F) (checkpoints : Dict (CheckpointEvidence F))
      (es : Dict (StepEvidence F)) (names : List Text) (bs : Dict (StepBreakdown F))
      → grade_steps spec checkpoints es false names ≡ ok bs
      → All Pointless bs
  unfolding grade_steps
  grade_steps-after spec checkpoints es [] [] done = tt
  grade_steps-after spec checkpoints es [] (b ∷ bs) done = ground arith
  grade_steps-after spec checkpoints es (step ∷ rest) bs done =
      elim (Result-cases (grade_step spec false step (find step es))) [
        | inr (x, bad) ↦ ground arith
        | inl (b, first) ↦ elim (Result-cases (grade_steps spec checkpoints es false rest)) [
          | inr (x, bad) ↦ ground arith
          | inl (cs, later) ↦
              let same : (step, b) ∷ cs ≡ bs = ground arith in
              subst (All Pointless) same (
                grade_step-gap spec step (find step es) b first,
                grade_steps-after spec checkpoints es rest cs later,
              )
        ]
      ]

  -- Where a step has no checkpoint or no evidence, it and every step after it get no points.
  pub grade_steps-gap :
      (spec : ScenarioSpec F) (checkpoints : Dict (CheckpointEvidence F))
      (es : Dict (StepEvidence F)) (earlier : Bool) (before : List Text) (step : Text)
      (after : List Text) (bs : Dict (StepBreakdown F))
      → (has step checkpoints && has step es) ≡ false
      → grade_steps spec checkpoints es earlier (before ++ (step ∷ after)) ≡ ok bs
      → (cs ds : Dict (StepBreakdown F)) × (bs ≡ cs ++ ds)
        × (length cs ≡ length before)
        × All Pointless ds
  unfolding grade_steps
  grade_steps-gap spec checkpoints es earlier [] step after bs gap done =
      let off : (earlier && has step checkpoints && has step es) ≡ false = ground arith in
      let closed : grade_steps spec checkpoints es false (step ∷ after) ≡ ok bs =
        subst
          (λ now.
            (grade_step spec now step (find step es) >>= λ b.
            grade_steps spec checkpoints es now after >>= λ cs. ok ((step, b) ∷ cs))
            ≡ ok bs)
          off done in
      ([], bs, refl, refl, grade_steps-after spec checkpoints es (step ∷ after) bs closed)
  grade_steps-gap spec checkpoints es earlier (name ∷ before) step after bs gap done =
      let now = earlier && has name checkpoints && has name es in
      elim (Result-cases (grade_step spec now name (find name es))) [
        | inr (x, bad) ↦ ground arith
        | inl (b, first) ↦
            elim (Result-cases (grade_steps spec checkpoints es now (before ++ (step ∷ after)))) [
              | inr (x, bad) ↦ ground arith
              | inl (rest, later) ↦
                  let (cs, ds, split, count, zeros) =
                    grade_steps-gap spec checkpoints es now before step after rest gap later in
                  let same : bs ≡ (name, b) ∷ rest = ground arith in
                  ((name, b) ∷ cs, ds, same ∙ ap (◌∷◌ (name, b)) split, ap suc count, zeros)
            ]
      ]

  -- What a step with its whole total shows: its checkpoint is there, its evidence is trusted, and
  -- the sample is as it should be.
  pub record IsDone (checkpoints : Dict (CheckpointEvidence F)) (es : Dict (StepEvidence F))
      (step : Text) : Type 0 where
    pub evidence : StepEvidence F
    pub found : find step es ≡ some evidence
    pub checkpoint : has step checkpoints ≡ true
    pub trusted : evidence.trusted ≡ true
    pub flawless : IsFlawless step evidence.geometry

  -- No step has 0 points in all.
  zero-not_full :
      IsExact h num
      → (step : Text) (x : F) → x ≡ h.of_ℕ 0
      → eq_float x (h.of_ℕ (step_total step)) ≡ false
  unfolding step_total
  zero-not_full law step x e =
      let small : step_total step ≤ 100 = ground arith in
      let far = law.le_whole (step_total step) 0 small (omega arith) in
      rw e (ground (arith, far, step_total-positive step))

  grade_step-full :
      IsExact h num
      → (spec : ScenarioSpec F) (earlier : Bool) (step : Text) (e : Option (StepEvidence F))
      → (b : StepBreakdown F) → grade_step spec earlier step e ≡ ok b
      → eq_float b.final_score (h.of_ℕ (step_total step)) ≡ true
      → (earlier ≡ true)
        × ((v : StepEvidence F) × (e ≡ some v) × (v.trusted ≡ true) × IsFlawless step v.geometry)
  unfolding grade_step zero_breakdown externally_capped
  grade_step-full law spec earlier step none b done full =
      let none_left = zero-not_full law step b.final_score (ground arith) in ground arith
  grade_step-full law spec false step (some e) b done full =
      let none_left =
        zero-not_full law step b.final_score (grade_step-gap spec step (some e) b done) in
      ground arith
  grade_step-full law spec true step (some e) b done full =
      elim (Result-cases (score_step step e spec)) [
        | inr (x, bad) ↦ ground arith
        | inl (s, good) ↦
            let same : s ≡ b = ground arith in
            let (t, f) = score_step-full step e spec s law good (rw same (ground arith)) in
            (refl, (e, refl, t, f))
      ]

  -- Where every step of a list has its whole total, every step is done.
  pub grade_steps-full :
      IsExact h num
      → (spec : ScenarioSpec F) (checkpoints : Dict (CheckpointEvidence F))
        (es : Dict (StepEvidence F)) (earlier : Bool) (names : List Text)
        (bs : Dict (StepBreakdown F))
      → grade_steps spec checkpoints es earlier names ≡ ok bs
      → all_full (map (λ (k, b). (k, b.final_score)) bs) ≡ true
      → All (IsDone checkpoints es) names
  unfolding grade_steps all_full
  grade_steps-full law spec checkpoints es earlier [] bs done full = tt
  grade_steps-full law spec checkpoints es earlier (name ∷ names) bs done full =
      let now = earlier && has name checkpoints && has name es in
      elim (Result-cases (grade_step spec now name (find name es))) [
        | inr (x, bad) ↦ ground arith
        | inl (b, first) ↦ elim (Result-cases (grade_steps spec checkpoints es now names)) [
          | inr (x, bad) ↦ ground arith
          | inl (rest, later) ↦
              let same : (name, b) ∷ rest ≡ bs = ground arith in
              let whole : all_full (map (λ (k, b). (k, b.final_score)) ((name, b) ∷ rest)) ≡ true =
                subst (λ cs. all_full (map (λ (k, b). (k, b.final_score)) cs) ≡ true) (sym same)
                  full in
              let (on, (v, found, t, f)) =
                grade_step-full law spec now name (find name es) b first (ground arith) in
              (
                record {
                  evidence = v;
                  found = found;
                  checkpoint = ground arith;
                  trusted = t;
                  flawless = f;
                },
                grade_steps-full law spec checkpoints es now names rest later (ground arith),
              )
        ]
      ]
