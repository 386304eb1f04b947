-- ===== src/Liftout/Grade/Retry.antt =====
-- When a suite gets no score.
use instrument_benchmark_eva.Prelude.{
  ◌≡◌, ◌↔◌, ◌⊎◌, refl, sym, ap, ◌∙◌, arith, Bool, true, false, not, ◌||◌, Option, none, some, List,
  [], ◌∷◌, any, is_nil, inl, inr, ok,
}
use instrument_benchmark_eva.Prelude.Somewhere.{Somewhere, any-Somewhere, Somewhere-any}
use instrument_benchmark_eva.Prelude.Dict.{Dict}
use instrument_benchmark_eva.Host.{Host}
use instrument_benchmark_eva.Liftout.Journal.{Codec, EventJournal}
use instrument_benchmark_eva.Liftout.Rubric.Metrics.{Numbers, ScenarioSpec}
use instrument_benchmark_eva.Liftout.Grade.Evidence.{
  CheckpointEvidence, TerminalEvidence, RuntimeEvidence,
}
use instrument_benchmark_eva.Liftout.Grade.World.{
  FibsemWorldReport, Given, grade_world, world_report,
}
use instrument_benchmark_eva.Liftout.Grade.Suite.{
  FibsemEvaluationReport, aggregate_worlds, numeric_scores, suite_score,
}
use instrument_benchmark_eva.Liftout.Grade.Pass.{grade_world-Graded}
use instrument_benchmark_eva.Liftout.Grade.SuitePass.{aggregate_worlds-fields}

-- The run of a world, as it is given to `grade_world`.
pub record Run (F : Type 0) : Type 0 where
  pub spec : ScenarioSpec F
  pub journal : EventJournal F
  pub checkpoints : Dict (CheckpointEvidence F)
  pub terminal : TerminalEvidence
  pub runtime : RuntimeEvidence
  pub given : Given F

module _ {F : Type 0} where
  abbrev broken : Run F → Bool
  broken run = run.runtime.infrastructure_failure

  -- The infrastructure of a run failed.
  abbrev pub IsBroken : Run F → Type 0
  IsBroken run = run.runtime.infrastructure_failure ≡ true

  abbrev is_scored : Option F → Bool
  is_scored none = false
  is_scored (some s) = true

module _ {F : Type 0} ⦃c : Codec F⦄ ⦃h : Host F⦄ ⦃num : Numbers F⦄ where
  -- The reports of the worlds are the grades of the runs, in their order.
  abbrev pub AreGraded : List (Run F) → List (FibsemWorldReport F) → Type 0
  AreGraded [] [] = Unit
  AreGraded [] (w ∷ ws) = ⊥
  AreGraded (run ∷ runs) [] = ⊥
  AreGraded (run ∷ runs) (w ∷ ws) =
      (grade_world run.spec run.journal run.checkpoints run.terminal run.runtime run.given ≡ ok w)
      × AreGraded runs ws

  -- A world is scored unless its infrastructure failed.
  grade_world-is_scored :
      (run : Run F) (w : FibsemWorldReport F)
      → grade_world run.spec run.journal run.checkpoints run.terminal run.runtime run.given ≡ ok w
      → (w.retry_eligible ≡ broken run) × (is_scored w.score ≡ not (broken run))
  unfolding world_report
  grade_world-is_scored run w ran =
      let g =
        grade_world-Graded run.spec run.journal run.checkpoints run.terminal run.runtime run.given w
          ran in
      (
        ap (λ r. r.retry_eligible) (sym g.reported),
        ap (λ r. is_scored r.score) (sym g.reported) ∙ ground arith,
      )

  any-retry :
      (runs : List (Run F)) (worlds : List (FibsemWorldReport F))
      → AreGraded runs worlds
      → any (λ w. w.retry_eligible) worlds ≡ any broken runs
  any-retry [] [] g = refl
  any-retry [] (w ∷ ws) g = absurd g
  any-retry (run ∷ runs) [] g = absurd g
  any-retry (run ∷ runs) (w ∷ ws) (ran, g) =
      ground (arith, grade_world-is_scored run w ran, any-retry runs ws g)

  unscored :
      (runs : List (Run F)) (worlds : List (FibsemWorldReport F))
      → AreGraded runs worlds
      → (any (λ w. w.retry_eligible) worlds || is_nil (numeric_scores worlds))
        ≡ (any broken runs || is_nil runs)
  unfolding numeric_scores
  unscored [] [] g = refl
  unscored [] (w ∷ ws) g = absurd g
  unscored (run ∷ runs) [] g = absurd g
  unscored (run ∷ runs) (w ∷ ws) (ran, g) =
      ground (arith, grade_world-is_scored run w ran, any-retry runs ws g)

  suite_score-none :
      (worlds : List (FibsemWorldReport F))
      → (suite_score worlds ≡ none)
        ↔ ((any (λ w. w.retry_eligible) worlds || is_nil (numeric_scores worlds)) ≡ true)
  unfolding suite_score
  suite_score-none worlds = ground arith

  broken_or_nil_iff :
      (runs : List (Run F))
      → ((any broken runs || is_nil runs) ≡ true) ↔ ((runs ≡ []) ⊎ Somewhere IsBroken runs)
  broken_or_nil_iff [] = (λ e. inl refl, λ e. refl)
  broken_or_nil_iff (run ∷ runs) = (
    λ e. inr (any-Somewhere IsBroken broken (λ r. (λ x. x, λ x. x)) (run ∷ runs) (ground arith)),
    λ e. elim e [
      | inl empty ↦ ground arith
      | inr s ↦
          let found = Somewhere-any IsBroken broken (λ r. (λ x. x, λ x. x)) (run ∷ runs) s in
          ground arith
    ],
  )

  -- Where the runs of a suite's worlds are graded and their grades are aggregated, the suite gets
  -- no score exactly if it has no world or the infrastructure of some world's run failed, and is
  -- to be tried again exactly if the infrastructure of some world's run failed.
  pub aggregate_worlds-IsBroken :
      (runs : List (Run F)) (worlds : List (FibsemWorldReport F))
      (report : FibsemEvaluationReport F)
      → AreGraded runs worlds
      → aggregate_worlds worlds ≡ ok report
      → ((report.score ≡ none) ↔ ((runs ≡ []) ⊎ Somewhere IsBroken runs))
        × ((report.retry_eligible ≡ true) ↔ Somewhere IsBroken runs)
  aggregate_worlds-IsBroken runs worlds report g done =
      let (score, pass, retry) = aggregate_worlds-fields worlds report done in
      let failed = any-retry runs worlds g in
      let empty = unscored runs worlds g in
      (
        (
          λ e. (broken_or_nil_iff runs).0 (sym empty ∙ (suite_score-none worlds).0 (sym score ∙ e)),
          λ s. score ∙ (suite_score-none worlds).1 (empty ∙ (broken_or_nil_iff runs).1 s),
        ),
        (
          λ e.
              any-Somewhere IsBroken broken (λ r. (λ x. x, λ x. x)) runs
                (sym failed ∙ sym retry ∙ e),
          λ s. retry ∙ failed ∙ Somewhere-any IsBroken broken (λ r. (λ x. x, λ x. x)) runs s,
        ),
      )
