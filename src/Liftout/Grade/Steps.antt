-- ===== src/Liftout/Grade/Steps.antt =====
-- The loop of `grade_world` over the steps.
use instrument_benchmark_eva.Prelude.{
  Bool, true, false, ◌&&◌, Option, none, some, List, [], ◌∷◌, if◌then◌else◌, Result, ok,
}
use instrument_benchmark_eva.Prelude.Results.{◌>>=◌}
use instrument_benchmark_eva.Prelude.Text.{Text, codes, contains, text_eq}
use instrument_benchmark_eva.Prelude.Dict.{Dict, find}
use instrument_benchmark_eva.Host.{Host}
use instrument_benchmark_eva.Liftout.Rubric.Metrics.{
  Numbers, ScenarioSpec, StepEvidence, step_total, sort_texts,
}
use instrument_benchmark_eva.Liftout.Rubric.Score.{StepBreakdown, score_step}
use instrument_benchmark_eva.Liftout.Grade.Evidence.{CheckpointEvidence}

-- `{*reasons, reason}`
abbrev with_reason : Text → List Text → List Text
with_reason r rs = if contains r rs then rs else r ∷ rs

-- Whether a name is a key.
abbrev pub has : {V : Type 0} → Text → Dict V → Bool
has k d = elim (find k d) [ none ↦ false | some v ↦ true ]

module _ {F : Type 0} ⦃h : Host F⦄ where
  -- `_zero_breakdown`
  unfoldable pub zero_breakdown : Text → Text → StepBreakdown F
  unfolding step_total
  zero_breakdown step reason = record {
    step_id = step;
    raw_score = h.of_ℕ 0;
    final_score = h.of_ℕ 0;
    maximum_points = h.of_ℕ (step_total step);
    criteria = [];
    cap = record { maximum_points = h.of_ℕ 0; reasons = reason ∷ [] };
  }

  -- `_externally_capped`: the reasons are those of the cap, without repetition
  unfoldable pub externally_capped : StepBreakdown F → Text → StepBreakdown F
  unfolding sort_texts contains text_eq
  externally_capped b reason = record b {
    final_score = h.of_ℕ 0;
    cap = record {
      maximum_points = h.of_ℕ 0;
      reasons = sort_texts (with_reason reason b.cap.reasons);
    };
  }

module _ {F : Type 0} ⦃h : Host F⦄ ⦃num : Numbers F⦄ where
  -- One round of the loop, where `earlier` tells whether this step and all before it are present.
  unfoldable pub grade_step :
      ScenarioSpec F → Bool → Text → Option (StepEvidence F) → Result (StepBreakdown F)
  unfolding zero_breakdown externally_capped
  grade_step spec earlier step none =
      ok (zero_breakdown step (codes "missing_or_untrusted_checkpoint"))
  grade_step spec earlier step (some e) = do
    b ← score_step step e spec
    ok (if earlier then b else externally_capped b (codes "missing_predecessor_checkpoint"))

  -- The loop.
  unfoldable pub grade_steps :
      ScenarioSpec F
      → Dict (CheckpointEvidence F)
      → Dict (StepEvidence F)
      → Bool
      → List Text
      → Result (Dict (StepBreakdown F))
  unfolding grade_step find
  grade_steps spec checkpoints resolved earlier [] = ok []
  grade_steps spec checkpoints resolved earlier (step ∷ rest) = do
    let evidence = find step resolved
    let now = earlier && has step checkpoints && has step resolved
    b ← grade_step spec now step evidence
    bs ← grade_steps spec checkpoints resolved now rest
    ok ((step, b) ∷ bs)
