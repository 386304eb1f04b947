-- ===== src/Liftout/Tests.antt =====
-- Runs of the FIB-SEM suite, on fixed-point numbers.
use instrument_benchmark_eva.Prelude.{
  ℕ, ◌*◌, ◌≡◌, refl, arith, true, false, Option, some, List, [], ◌∷◌, ◌++◌, ok, err,
}
use instrument_benchmark_eva.Prelude.Text.{Text, codes}
use instrument_benchmark_eva.Prelude.Decimal.{pos}
use instrument_benchmark_eva.Prelude.Dict.{Dict}
use instrument_benchmark_eva.Host.Fixed.{fixed}
use instrument_benchmark_eva.Liftout.Value.{Value, Entries, no_entries}
use instrument_benchmark_eva.Liftout.Journal.{JournalEvent, EventJournal, zeros}
use instrument_benchmark_eva.Liftout.Rubric.Metrics.{
  ScenarioSpec, StepEvidence, step_1, step_2, step_3, step_4,
}
use instrument_benchmark_eva.Liftout.Grade.Evidence.{
  CheckpointEvidence, TerminalEvidence, RuntimeEvidence,
}
use instrument_benchmark_eva.Liftout.Grade.World.{
  Given, nothing, FibsemWorldReport, grade_world, resolve, world_report,
}
use instrument_benchmark_eva.Liftout.Grade.Pass.{IsPassed, grade_world-pass}
use instrument_benchmark_eva.Liftout.Journal.{validate_records, ends_terminal}
use instrument_benchmark_eva.Liftout.Grade.Scan.{scan_start, scan_event}
use instrument_benchmark_eva.Liftout.Grade.Markers.{
  Reading, journal_markers, image_by_beam, ordered,
}
use instrument_benchmark_eva.Liftout.Grade.Steps.{grade_steps}
use instrument_benchmark_eva.Liftout.Rubric.Score.{StepBreakdown, score_step}
use instrument_benchmark_eva.Liftout.Rubric.Metrics.{steps}
use instrument_benchmark_eva.Liftout.Grade.Evidence.{synthetic_steps, synthetic_reference_identity}
use instrument_benchmark_eva.Liftout.Journal.{check_records, check_record}
use instrument_benchmark_eva.Liftout.Built.{records_of}
use instrument_benchmark_eva.Liftout.Value.{plain, lookup, drop_key}
use instrument_benchmark_eva.Liftout.Journal.{
  to_dict, has_exactly, canonical_digest, canonical_bytes, le_int,
}
use instrument_benchmark_eva.Prelude.Text.{text_eq, contains}
use instrument_benchmark_eva.Liftout.Sample.{
  sample_numbers, sample_codec, sample_spec, metrics_after, checkpoint_of, sample_checkpoints,
  sample_terminal, sample_runtime, event_of, sample_events, sample_journal, sample_reading,
  fixed-IsExact,
}
use instrument_benchmark_eva.Liftout.Rubric.Score.{breakdown, scorers}
use instrument_benchmark_eva.Liftout.Rubric.Caps.{caps, cap_of, applicable}
use instrument_benchmark_eva.Liftout.Rubric.Criteria.{
  score_step_1, score_step_2, score_step_3, score_step_4, shape_criterion, criterion,
  shape_fraction,
}
use instrument_benchmark_eva.Liftout.Rubric.Metrics.{
  threshold_fraction, common_fraction, pose_fraction,
}
use instrument_benchmark_eva.Liftout.Rubric.ScoreBounds.{IsWithin, score_step-IsWithin}
use instrument_benchmark_eva.Liftout.Rubric.Full.{IsFlawless, score_step-full}
use instrument_benchmark_eva.Liftout.Grade.Order.{ordered_iff, Ascending}
use instrument_benchmark_eva.Liftout.Grade.Gaps.{grade_steps-gap, Pointless}
use instrument_benchmark_eva.Liftout.Grade.Retry.{Run, IsBroken, aggregate_worlds-IsBroken}
use instrument_benchmark_eva.Prelude.Somewhere.{Somewhere}
use instrument_benchmark_eva.Liftout.Grade.Attempt.{IsAttempt, scan-attempts}
use instrument_benchmark_eva.Liftout.Grade.SuitePass.{IsSuitePassed, aggregate_worlds-pass}
use instrument_benchmark_eva.Liftout.Grade.Suite.{
  FibsemEvaluationReport, aggregate_worlds, suite_score, suite_gates, dimension_scores,
  all_suite_gates,
}
use instrument_benchmark_eva.Liftout.Grade.Scan.{scan}
use instrument_benchmark_eva.Liftout.Built.{Built, created, appended, IsSound, Built-validates}
use instrument_benchmark_eva.Liftout.Journal.{append, new_journal, head_hash}
use instrument_benchmark_eva.Prelude.{any, All, map, length, none, ◌⊎◌, ◌↔◌}
use instrument_benchmark_eva.Liftout.Grade.Evidence.{synthetic_step_evidence}
use instrument_benchmark_eva.Liftout.Grade.World.{fixed_worlds}
use instrument_benchmark_eva.Liftout.Grade.Suite.{seeded_worlds}
use instrument_benchmark_eva.Prelude.Dict.{find}
use instrument_benchmark_eva.Liftout.Journal.{canonical_digest, canonical_bytes, le_int}
use instrument_benchmark_eva.Liftout.Value.{plain, entry, text}

reading_ok : journal_markers sample_journal ≡ ok sample_reading
unfolding journal_markers scan_event image_by_beam
reading_ok = refl

abbrev sample_resolved : Dict (StepEvidence ℕ)
sample_resolved = elim (synthetic_steps sample_checkpoints sample_spec) [ ok es ↦ es | err e ↦ [] ]

resolved_ok :
    resolve sample_spec sample_checkpoints sample_runtime nothing
    ≡ ok (sample_resolved, [], some (synthetic_reference_identity sample_spec))
unfolding resolve synthetic_steps
resolved_ok = refl

abbrev sample_breakdowns : Dict (StepBreakdown ℕ)
sample_breakdowns = elim (grade_steps sample_spec sample_checkpoints sample_resolved true steps) [
  | ok es ↦ es
  | err e ↦ []
]

breakdowns_ok :
    grade_steps sample_spec sample_checkpoints sample_resolved true steps ≡ ok sample_breakdowns
unfolding grade_steps score_step synthetic_steps
breakdowns_ok = refl

abbrev sample_records : List (Value ℕ)
sample_records = elim (records_of sample_events) [ ok es ↦ es | err e ↦ [] ]

records_ok : records_of sample_events ≡ ok sample_records
unfolding records_of to_dict plain contains text_eq
records_ok = refl

check_ok :
    check_records (codes "run") (codes "nominal") 1 (zeros 64) (pos 0) sample_records
    ≡ ok (zeros 64)
unfolding check_records check_record to_dict plain has_exactly lookup canonical_digest
    canonical_bytes drop_key le_int text_eq contains records_of
check_ok = refl

validate_ok : validate_records (codes "run") (codes "nominal") true sample_records ≡ ok (zeros 64)
unfolding validate_records ends_terminal
validate_ok = rw check_ok (unfold records_of to_dict plain contains lookup in refl)

abbrev sample_identity : Option (Entries ℕ)
sample_identity = some (synthetic_reference_identity sample_spec)

abbrev sample_report : FibsemWorldReport ℕ
sample_report =
    world_report sample_spec sample_checkpoints sample_terminal sample_runtime true sample_reading
      [] sample_identity sample_breakdowns

-- A grade from the values on the way to it.
grade_world-from :
    (spec : ScenarioSpec ℕ) (journal : EventJournal ℕ) (checkpoints : Dict (CheckpointEvidence ℕ))
    (terminal : TerminalEvidence) (runtime : RuntimeEvidence) (given : Given ℕ)
    (rs : List (Value ℕ)) (head : Text) (reading : Reading) (es : Dict (StepEvidence ℕ))
    (artifacts : Dict ℕ) (identity : Option (Entries ℕ)) (bs : Dict (StepBreakdown ℕ))
    → records_of journal.events ≡ ok rs
    → validate_records journal.run_id spec.scenario_id true rs ≡ ok head
    → journal_markers journal ≡ ok reading
    → resolve spec checkpoints runtime given ≡ ok (es, artifacts, identity)
    → grade_steps spec checkpoints es true steps ≡ ok bs
    → grade_world spec journal checkpoints terminal runtime given
      ≡ ok (world_report spec checkpoints terminal runtime true reading artifacts identity bs)
unfolding grade_world
grade_world-from spec journal checkpoints terminal runtime given rs head reading es artifacts
      identity bs a b c d e =
    rw (a, b, c, d, e) refl

graded_ok :
    grade_world sample_spec sample_journal sample_checkpoints sample_terminal sample_runtime nothing
    ≡ ok sample_report
graded_ok =
    grade_world-from sample_spec sample_journal sample_checkpoints sample_terminal sample_runtime
      nothing sample_records (zeros 64) sample_reading sample_resolved [] sample_identity
      sample_breakdowns records_ok validate_ok reading_ok resolved_ok breakdowns_ok

strict_ok : sample_report.strict_pass ≡ true
unfolding world_report score_step synthetic_steps grade_steps breakdown caps cap_of applicable
    scorers score_step_1 shape_criterion criterion shape_fraction threshold_fraction common_fraction
    score_step_2 score_step_3 pose_fraction score_step_4
strict_ok = refl

grade_world-pass_example :
    IsPassed sample_spec sample_journal sample_checkpoints sample_terminal sample_runtime nothing
      sample_report
grade_world-pass_example =
    grade_world-pass sample_spec sample_journal sample_checkpoints sample_terminal sample_runtime
      nothing sample_report fixed-IsExact graded_ok strict_ok

sample_report-score : sample_report.score ≡ some (100 * 600)
unfolding world_report score_step synthetic_steps grade_steps breakdown caps cap_of applicable
    scorers score_step_1 shape_criterion criterion shape_fraction threshold_fraction common_fraction
    score_step_2 score_step_3 pose_fraction score_step_4
sample_report-score = refl

abbrev sample_step_2 : StepEvidence ℕ
sample_step_2 = record {
  step_id = step_2;
  geometry = metrics_after false true false;
  shapes = [];
  co_motion_score = 600;
  trusted = true;
}

abbrev sample_breakdown : StepBreakdown ℕ
sample_breakdown = breakdown step_2 sample_step_2 sample_spec

score_step-IsWithin_example : IsWithin sample_breakdown
score_step-IsWithin_example =
    score_step-IsWithin step_2 sample_step_2 sample_spec sample_breakdown fixed-IsExact
      (unfold score_step in refl)

ordered_iff_example :
    (ordered (some 3 ∷ some 5 ∷ []) ≡ true)
    ↔ ((ns : List ℕ) × ((some 3 ∷ some 5 ∷ []) ≡ map some ns) × Ascending ns)
ordered_iff_example = ordered_iff (some 3 ∷ some 5 ∷ [])

-- The sample journal with a rejection of a private operation at its end.
abbrev probed_events : List (JournalEvent ℕ)
probed_events =
    sample_events
    ++ (event_of 9 (codes "rpc.rejected")
          (entry (some (codes "operation")) (text (codes "_microscope")) no_entries)
        ∷ [])

scan-attempts_example :
    ((scan probed_events scan_start).rejected_forbidden ≡ true) ↔ Somewhere IsAttempt probed_events
scan-attempts_example = scan-attempts probed_events

-- The checkpoint of the second step is missing.
abbrev gap_checkpoints : Dict (CheckpointEvidence ℕ)
gap_checkpoints =
    checkpoint_of step_1 (metrics_after true false false)
    ∷ checkpoint_of step_3 (metrics_after false true true)
    ∷ []

abbrev gap_evidence : Dict (StepEvidence ℕ)
gap_evidence = (step_2, sample_step_2) ∷ []

abbrev gap_breakdowns : Dict (StepBreakdown ℕ)
gap_breakdowns = elim (grade_steps sample_spec gap_checkpoints gap_evidence true steps) [
  | ok bs ↦ bs
  | err e ↦ []
]

gap_ok : grade_steps sample_spec gap_checkpoints gap_evidence true steps ≡ ok gap_breakdowns
unfolding grade_steps score_step
gap_ok = refl

grade_steps-gap_example :
    (cs ds : Dict (StepBreakdown ℕ)) × (gap_breakdowns ≡ cs ++ ds)
    × (length cs ≡ 1)
    × All Pointless ds
grade_steps-gap_example =
    grade_steps-gap sample_spec gap_checkpoints gap_evidence true (step_1 ∷ []) step_2
      (step_3 ∷ step_4 ∷ []) gap_breakdowns (unfold find text_eq in refl) gap_ok

-- A whole score of the last step.
abbrev sample_step_4 : StepEvidence ℕ
sample_step_4 = elim (synthetic_step_evidence step_4 (metrics_after false false true) sample_spec) [
  | ok e ↦ e
  | err e ↦ sample_step_2
]

abbrev breakdown_4 : StepBreakdown ℕ
breakdown_4 = breakdown step_4 sample_step_4 sample_spec

score_step-full_example : (sample_step_4.trusted ≡ true) × IsFlawless step_4 sample_step_4.geometry
score_step-full_example =
    score_step-full step_4 sample_step_4 sample_spec breakdown_4 fixed-IsExact
      (unfold score_step synthetic_step_evidence in refl)
      (unfold breakdown caps cap_of applicable scorers synthetic_step_evidence score_step_4
          shape_criterion criterion pose_fraction in
        refl)

-- A journal of one event.
abbrev first_event : JournalEvent ℕ
first_event = record (event_of 1 (codes "run.terminal") no_entries) { recorded_ns = pos 2 }

abbrev empty_journal : EventJournal ℕ
empty_journal = record { run_id = codes "run"; world_id = codes "nominal"; events = [] }

abbrev short_journal : EventJournal ℕ
short_journal = record empty_journal { events = first_event ∷ [] }

appended_ok :
    append (codes "run.terminal") no_entries empty_journal ≡ ok (first_event, short_journal)
unfolding append canonical_digest canonical_bytes plain head_hash contains
appended_ok = refl

short-Built : Built short_journal
short-Built =
    appended (codes "run.terminal") no_entries
      (created {j = empty_journal} (codes "run") (codes "nominal") (unfold new_journal in refl))
      appended_ok

sample-IsSound : IsSound sample_codec
sample-IsSound = record {
  digest = λ t. refl;
  positive = λ n. unfold le_int in ground arith;
  forward = λ n. unfold le_int in ground arith;
}

Built-validates_example :
    (rs : List (Value ℕ)) × (records_of short_journal.events ≡ ok rs)
    × (validate_records (codes "run") (codes "nominal") false rs ≡ ok (head_hash short_journal))
Built-validates_example = Built-validates short_journal sample-IsSound short-Built

-- A suite of ten worlds that pass.
abbrev sample_dimensions : Dict ℕ
sample_dimensions =
    (step_1, 20 * 600) ∷ (step_2, 25 * 600) ∷ (step_3, 25 * 600) ∷ (step_4, 20 * 600) ∷ []

abbrev world_of : Text → Text → FibsemWorldReport ℕ
world_of category name = record sample_report {
  world_id = name;
  category = category;
  score = some (100 * 600);
  strict_pass = true;
  step_scores = sample_dimensions;
  artifact_score = 10 * 600;
  evidence_confidence = 600;
}

abbrev sample_worlds : List (FibsemWorldReport ℕ)
sample_worlds =
    map (world_of (codes "fixed")) fixed_worlds ++ map (world_of (codes "seeded")) seeded_worlds

abbrev suite_report : List (FibsemWorldReport ℕ) → FibsemEvaluationReport ℕ
suite_report worlds = record {
  score = suite_score worlds;
  strict_pass = all_suite_gates (suite_gates worlds);
  retry_eligible = any (λ w. w.retry_eligible) worlds;
  strict_gates = suite_gates worlds;
  dimension_scores = sample_dimensions ++ ((codes "artifacts", 10 * 600) ∷ []);
  evidence_confidence = 600;
  worlds = worlds;
}

suite_ok : aggregate_worlds sample_worlds ≡ ok (suite_report sample_worlds)
unfolding aggregate_worlds dimension_scores world_report
suite_ok = refl

aggregate_worlds-pass_example : IsSuitePassed sample_worlds
aggregate_worlds-pass_example =
    aggregate_worlds-pass sample_worlds (suite_report sample_worlds) suite_ok
      (unfold all_suite_gates suite_gates suite_score world_report in refl)

-- A run whose infrastructure failed, beside the run that passes.
abbrev broken_runtime : RuntimeEvidence
broken_runtime = record sample_runtime { infrastructure_failure = true }

abbrev broken_breakdowns : Dict (StepBreakdown ℕ)
broken_breakdowns = elim (grade_steps sample_spec sample_checkpoints [] true steps) [
  | ok bs ↦ bs
  | err e ↦ []
]

broken_steps : grade_steps sample_spec sample_checkpoints [] true steps ≡ ok broken_breakdowns
unfolding grade_steps
broken_steps = refl

abbrev broken_report : FibsemWorldReport ℕ
broken_report =
    world_report sample_spec sample_checkpoints sample_terminal broken_runtime true sample_reading
      [] none broken_breakdowns

broken_ok :
    grade_world sample_spec sample_journal sample_checkpoints sample_terminal broken_runtime nothing
    ≡ ok broken_report
broken_ok =
    grade_world-from sample_spec sample_journal sample_checkpoints sample_terminal broken_runtime
      nothing sample_records (zeros 64) sample_reading [] [] none broken_breakdowns records_ok
      validate_ok reading_ok (unfold resolve in refl) broken_steps

abbrev sample_run : Run ℕ
sample_run = record {
  spec = sample_spec;
  journal = sample_journal;
  checkpoints = sample_checkpoints;
  terminal = sample_terminal;
  runtime = sample_runtime;
  given = nothing;
}

abbrev two_runs : List (Run ℕ)
two_runs = sample_run ∷ record sample_run { runtime = broken_runtime } ∷ []

abbrev two_worlds : List (FibsemWorldReport ℕ)
two_worlds = sample_report ∷ broken_report ∷ []

abbrev two_report : FibsemEvaluationReport ℕ
two_report = elim (aggregate_worlds two_worlds) [ ok r ↦ r | err e ↦ suite_report two_worlds ]

two_ok : aggregate_worlds two_worlds ≡ ok two_report
unfolding aggregate_worlds dimension_scores world_report grade_steps synthetic_steps score_step
two_ok = refl

aggregate_worlds-IsBroken_example :
    ((two_report.score ≡ none) ↔ ((two_runs ≡ []) ⊎ Somewhere IsBroken two_runs))
    × ((two_report.retry_eligible ≡ true) ↔ Somewhere IsBroken two_runs)
aggregate_worlds-IsBroken_example =
    aggregate_worlds-IsBroken two_runs two_worlds two_report (graded_ok, (broken_ok, tt)) two_ok
