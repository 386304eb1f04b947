-- ===== src/Liftout/Grade/World.antt =====
-- `grade_world`: the report on one world.
use instrument_benchmark_eva.Prelude.{
  ℕ, ◌+◌, Bool, true, false, not, ◌&&◌, ◌||◌, Option, none, some, List, [], ◌∷◌, map, all, ◌==◌,
  is_nil, if◌then◌else◌, Result, ok, err, value_error,
}
use instrument_benchmark_eva.Prelude.Results.{◌>>=◌}
use instrument_benchmark_eva.Prelude.Text.{Text, codes, contains, text_eq}
use instrument_benchmark_eva.Prelude.Dict.{Dict, find}
use instrument_benchmark_eva.Host.{Host, eq_float}
use instrument_benchmark_eva.Liftout.Value.{Entries}
use instrument_benchmark_eva.Liftout.Journal.{Codec, EventJournal, is_digest, validate_records}
use instrument_benchmark_eva.Liftout.Built.{records_of}
use instrument_benchmark_eva.Liftout.Rubric.Metrics.{
  Numbers, ScenarioSpec, StepEvidence, steps, step_total, decimal,
}
use instrument_benchmark_eva.Liftout.Rubric.Score.{StepBreakdown}
use instrument_benchmark_eva.Liftout.Grade.Markers.{Markers, Reading, journal_markers}
use instrument_benchmark_eva.Liftout.Grade.Evidence.{
  CheckpointEvidence, TerminalEvidence, RuntimeEvidence, is_safe, candidate_completed,
  identities_valid, synthetic_steps, synthetic_reference_identity,
}
use instrument_benchmark_eva.Liftout.Grade.Steps.{grade_steps}

-- The keyword arguments: what a reference bundle gives (`_reference_evidence` and the bundle's
-- identity), or step evidence with the points of its artifacts, or nothing.
pub data Given (F : Type 0) : Type 0 where
  reference : Dict (StepEvidence F) → Dict F → Entries F → Given F
  evidence : Dict (StepEvidence F) → Option (Dict F) → Given F
  nothing : Given F

pub record Gates : Type 0 where
  pub preflight_complete : Bool
  pub journal_integrity : Bool
  pub necessary_partial_order : Bool
  pub all_checkpoint_states : Bool
  pub trusted_artifacts_complete : Bool
  pub reference_bundle_valid : Bool
  pub safe_terminal_state : Bool
  pub no_forbidden_access : Bool
  pub runtime_completed : Bool
  pub runtime_isolation : Bool
  pub no_infrastructure_failure : Bool

-- `all(gates.values())`
unfoldable pub all_gates : Gates → Bool
all_gates g =
    g.preflight_complete && g.journal_integrity && g.necessary_partial_order
    && g.all_checkpoint_states && g.trusted_artifacts_complete && g.reference_bundle_valid
    && g.safe_terminal_state && g.no_forbidden_access && g.runtime_completed && g.runtime_isolation
    && g.no_infrastructure_failure

pub record FibsemWorldReport (F : Type 0) : Type 0 where
  pub world_id : Text
  pub category : Text
  pub score : Option F
  pub strict_pass : Bool
  pub retry_eligible : Bool
  pub step_scores : Dict F
  pub artifact_score : F
  pub step_breakdowns : Dict (StepBreakdown F)
  pub reference_record : Option (Entries F)
  pub strict_gates : Gates
  pub checkpoints : Dict (CheckpointEvidence F)
  pub partial_order : Markers
  pub terminal : TerminalEvidence
  pub runtime : RuntimeEvidence
  pub evidence_confidence : F

-- `FIXED_WORLDS`
abbrev pub fixed_worlds : List Text
fixed_worlds =
    codes "nominal"
    ∷ codes "small"
    ∷ codes "large"
    ∷ codes "needle_offset"
    ∷ codes "target_pose"
    ∷ []

-- `try: validate_records(...)`, where a `JournalError` is caught
abbrev pub integrity : Result Text → Result Bool
integrity (ok head) = ok true
integrity (err (value_error message)) = ok false
integrity (err e) = err e

module _ {F : Type 0} where
  unfoldable pub checkpoint_keys_valid : Dict (CheckpointEvidence F) → Bool
  unfolding contains text_eq
  checkpoint_keys_valid d =
      all (λ (k, e). contains k steps) d && all (λ (k, e). text_eq k e.step_id) d

  abbrev is_complete : Option (CheckpointEvidence F) → Bool
  is_complete none = false
  is_complete (some e) = e.artifact_complete && is_digest e.artifact_digest

  -- `artifact_count`
  unfoldable pub artifact_count : Dict (CheckpointEvidence F) → List Text → ℕ
  unfolding find
  artifact_count d [] = 0
  artifact_count d (step ∷ rest) =
      (if is_complete (find step d) then 1 else 0) + artifact_count d rest

module _ {F : Type 0} ⦃h : Host F⦄ where
  -- `all(step_scores[step] == STEP_POINTS[step] for step in STEPS)`
  unfoldable pub all_full : Dict F → Bool
  unfolding step_total
  all_full scores = all (λ (step, s). eq_float s (h.of_ℕ (step_total step))) scores

  unfoldable pub artifact_points : ⦃num : Numbers F⦄ → Dict F → ℕ → F
  artifact_points ⦃num = num⦄ artifacts count =
      if is_nil artifacts
      then h.mul (h.of_ℕ count) (decimal 25 10)
      else num.round6 (num.sum (map (λ (_, p). p) artifacts))

module _ {F : Type 0} ⦃h : Host F⦄ ⦃num : Numbers F⦄ ⦃c : Codec F⦄ where
  -- The step evidence, the points of the artifacts, and the reference record.
  unfoldable pub resolve :
      ScenarioSpec F
      → Dict (CheckpointEvidence F)
      → RuntimeEvidence
      → Given F
      → Result (Dict (StepEvidence F) × Dict F × Option (Entries F))
  unfolding synthetic_steps synthetic_reference_identity
  resolve spec checkpoints runtime (reference es artifacts identity) =
      ok (es, artifacts, some identity)
  resolve spec checkpoints runtime (evidence es artifacts) = ok (
    es,
    elim artifacts [ none ↦ [] | some d ↦ d ],
    if runtime.infrastructure_failure then none else some (synthetic_reference_identity spec),
  )
  resolve spec checkpoints runtime nothing =
      if runtime.infrastructure_failure then ok ([], [], none) else (do
        es ← synthetic_steps checkpoints spec
        ok (es, [], some (synthetic_reference_identity spec)))

  abbrev is_full_score : Option F → Bool
  is_full_score none = false
  is_full_score (some s) = eq_float s (h.of_ℕ 100)

  -- What is reported of the values that are computed before.
  unfoldable pub world_report :
      ScenarioSpec F
      → Dict (CheckpointEvidence F)
      → TerminalEvidence
      → RuntimeEvidence
      → Bool
      → Reading
      → Dict F
      → Option (Entries F)
      → Dict (StepBreakdown F)
      → FibsemWorldReport F
  unfolding checkpoint_keys_valid artifact_count artifact_points all_full all_gates is_safe
      candidate_completed identities_valid contains text_eq
  world_report spec checkpoints terminal runtime journal_ok reading artifacts identity breakdowns =
      let scores = map (λ (k, b). (k, b.final_score)) breakdowns in
      let count = artifact_count checkpoints steps in
      let artifact_score = artifact_points artifacts count in
      let gates : Gates = record {
        preflight_complete = reading.preflight;
        journal_integrity = journal_ok;
        necessary_partial_order = all (λ (_, b). b) reading.order;
        all_checkpoint_states = all_full scores;
        trusted_artifacts_complete = count == 4 && checkpoint_keys_valid checkpoints;
        reference_bundle_valid = elim identity [ none ↦ false | some d ↦ true ];
        safe_terminal_state = is_safe terminal;
        no_forbidden_access = not (runtime.forbidden_access || reading.forbidden);
        runtime_completed = candidate_completed runtime;
        runtime_isolation = identities_valid runtime && runtime.isolation_verified;
        no_infrastructure_failure = not runtime.infrastructure_failure;
      } in
      let score =
        if runtime.infrastructure_failure
        then none
        else some (h.add (num.sum (map (λ (_, s). s) scores)) artifact_score) in
      record {
        world_id = spec.scenario_id;
        category = if contains spec.scenario_id fixed_worlds then codes "fixed" else codes "seeded";
        score = score;
        strict_pass = is_full_score score && all_gates gates;
        retry_eligible = runtime.infrastructure_failure;
        step_scores = scores;
        artifact_score = artifact_score;
        step_breakdowns = breakdowns;
        reference_record = identity;
        strict_gates = gates;
        checkpoints = checkpoints;
        partial_order = reading.markers;
        terminal = terminal;
        runtime = runtime;
        evidence_confidence = if journal_ok then decimal count 4 else h.of_ℕ 0;
      }

  unfoldable pub grade_world :
      ScenarioSpec F
      → EventJournal F
      → Dict (CheckpointEvidence F)
      → TerminalEvidence
      → RuntimeEvidence
      → Given F
      → Result (FibsemWorldReport F)
  unfolding records_of validate_records journal_markers resolve grade_steps
  grade_world spec journal checkpoints terminal runtime given = do
    records ← records_of journal.events
    journal_ok ← integrity (validate_records journal.run_id spec.scenario_id true records)
    reading ← journal_markers journal
    (resolved, artifacts, identity) ← resolve spec checkpoints runtime given
    breakdowns ← grade_steps spec checkpoints resolved true steps
    ok (
        world_report spec checkpoints terminal runtime journal_ok reading artifacts identity
          breakdowns)
