-- ===== src/Liftout/Grade/Pass.antt =====
-- What a strict pass of a world shows of its journal, its checkpoints and its run.
use instrument_benchmark_eva.Prelude.{
  ℕ, ◌≡◌, refl, sym, ap, subst, ◌∙◌, arith, Bool, true, false, ◌&&◌, ◌||◌, Option, some, List, [],
  map, all, any, All, inl, inr, Result, Result-cases, ok, err, value_error,
}
use instrument_benchmark_eva.Prelude.Text.{Text}
use instrument_benchmark_eva.Prelude.Dict.{Dict}
use instrument_benchmark_eva.Host.{Host}
use instrument_benchmark_eva.Liftout.Value.{Value, Entries}
use instrument_benchmark_eva.Liftout.Journal.{Codec, EventJournal, validate_records}
use instrument_benchmark_eva.Liftout.Built.{records_of}
use instrument_benchmark_eva.Liftout.Rubric.Metrics.{Numbers, ScenarioSpec, StepEvidence, steps}
use instrument_benchmark_eva.Liftout.Rubric.Score.{StepBreakdown}
use instrument_benchmark_eva.Liftout.Rubric.Laws.{IsExact}
use instrument_benchmark_eva.Liftout.Grade.Scan.{scan, scan_start}
use instrument_benchmark_eva.Liftout.Grade.Markers.{
  Reading, journal_markers, image_by_beam, order_by_step,
}
use instrument_benchmark_eva.Liftout.Grade.Evidence.{
  CheckpointEvidence, TerminalEvidence, RuntimeEvidence, is_safe, candidate_completed,
  identities_valid,
}
use instrument_benchmark_eva.Liftout.Grade.Steps.{grade_steps}
use instrument_benchmark_eva.Liftout.Grade.World.{
  Given, all_gates, FibsemWorldReport, integrity, resolve, all_full, world_report, grade_world,
}
use instrument_benchmark_eva.Liftout.Grade.Order.{Ascending, stages, order_by_step-stages}
use instrument_benchmark_eva.Liftout.Grade.Gaps.{IsDone, grade_steps-full}
use instrument_benchmark_eva.Liftout.Grade.Forbidden.{is_forbidden_event, scan-forbidden}

-- What the report of a journal says is what the scan of it found.
journal_markers-forbidden :
    {F : Type 0} (j : EventJournal F) (r : Reading)
    → journal_markers j ≡ ok r
    → (r.forbidden ≡ any is_forbidden_event j.events) × (r.order ≡ order_by_step r.markers)
unfolding journal_markers
journal_markers-forbidden j r done =
    elim (Result-cases (image_by_beam (scan j.events scan_start).operations [])) [
      | inr (x, bad) ↦ ground arith
      | inl (images, good) ↦ (ground (arith, scan-forbidden j.events scan_start), ground arith)
    ]

integrity-true : (r : Result Text) → integrity r ≡ ok true → (t : Text) × (r ≡ ok t)
integrity-true (ok t) e = (t, refl)
integrity-true (err x) e = elim x [ value_error m ↦ ground arith | _ ↦ ground arith ]

module _ {F : Type 0} ⦃h : Host F⦄ ⦃num : Numbers F⦄ ⦃c : Codec F⦄ where
  -- The values that `grade_world` computes on the way to its report.
  pub record Graded (spec : ScenarioSpec F) (journal : EventJournal F)
      (checkpoints : Dict (CheckpointEvidence F)) (terminal : TerminalEvidence)
      (runtime : RuntimeEvidence) (given : Given F) (report : FibsemWorldReport F) : Type 0 where
    pub records : List (Value F)
    pub journal_ok : Bool
    pub reading : Reading
    pub resolved : Dict (StepEvidence F)
    pub artifacts : Dict F
    pub identity : Option (Entries F)
    pub breakdowns : Dict (StepBreakdown F)
    pub exported : records_of journal.events ≡ ok records
    pub checked :
        integrity (validate_records journal.run_id spec.scenario_id true records) ≡ ok journal_ok
    pub read : journal_markers journal ≡ ok reading
    pub resolution : resolve spec checkpoints runtime given ≡ ok (resolved, artifacts, identity)
    pub graded : grade_steps spec checkpoints resolved true steps ≡ ok breakdowns
    pub reported :
        world_report spec checkpoints terminal runtime journal_ok reading artifacts identity
          breakdowns
        ≡ report

  pub grade_world-Graded :
      (spec : ScenarioSpec F) (journal : EventJournal F) (checkpoints : Dict (CheckpointEvidence F))
      (terminal : TerminalEvidence) (runtime : RuntimeEvidence) (given : Given F)
      (report : FibsemWorldReport F)
      → grade_world spec journal checkpoints terminal runtime given ≡ ok report
      → Graded spec journal checkpoints terminal runtime given report
  unfolding grade_world
  grade_world-Graded spec journal checkpoints terminal runtime given report done =
      elim (Result-cases (records_of journal.events)) [
        | inr (x, bad) ↦ ground arith
        | inl (rs, e1) ↦
            elim (Result-cases
              (integrity (validate_records journal.run_id spec.scenario_id true rs))) [
                | inr (x, bad) ↦ ground arith
                | inl (b, e2) ↦ elim (Result-cases (journal_markers journal)) [
                  | inr (x, bad) ↦ ground arith
                  | inl (r, e3) ↦ elim (Result-cases (resolve spec checkpoints runtime given)) [
                    | inr (x, bad) ↦ ground arith
                    | inl (res, e4) ↦
                        elim (Result-cases (grade_steps spec checkpoints res.0 true steps)) [
                          | inr (x, bad) ↦ ground arith
                          | inl (bs, e5) ↦ record {
                            records = rs;
                            journal_ok = b;
                            reading = r;
                            resolved = res.0;
                            artifacts = res.1;
                            identity = res.2;
                            breakdowns = bs;
                            exported = e1;
                            checked = e2;
                            read = e3;
                            resolution = e4;
                            graded = e5;
                            reported = ground arith;
                          }
                        ]
                  ]
                ]
              ]
      ]

  -- What a strict pass shows.
  pub record IsPassed (spec : ScenarioSpec F) (journal : EventJournal F)
      (checkpoints : Dict (CheckpointEvidence F)) (terminal : TerminalEvidence)
      (runtime : RuntimeEvidence) (given : Given F) (report : FibsemWorldReport F) : Type 0 where
    -- the journal is a chain that ends with a terminal event
    pub records : List (Value F)
    pub head : Text
    pub exported : records_of journal.events ≡ ok records
    pub validated : validate_records journal.run_id spec.scenario_id true records ≡ ok head
    -- every step has a checkpoint, with trusted evidence of a sample as it should be
    pub resolved : Dict (StepEvidence F)
    pub artifacts : Dict F
    pub identity : Option (Entries F)
    pub resolution : resolve spec checkpoints runtime given ≡ ok (resolved, artifacts, identity)
    pub done : All (IsDone checkpoints resolved) steps
    -- the stages of the work follow each other
    pub sequence : List ℕ
    pub staged : stages report.partial_order ≡ map some sequence
    pub ascending : Ascending sequence
    -- nothing forbidden was tried, the run was isolated and came to a safe end
    pub allowed : any is_forbidden_event journal.events ≡ false
    pub access : runtime.forbidden_access ≡ false
    pub safe : is_safe terminal ≡ true
    pub completed : candidate_completed runtime ≡ true
    pub isolated : (identities_valid runtime && runtime.isolation_verified) ≡ true
    pub healthy : runtime.infrastructure_failure ≡ false

  -- What each gate of a passed report says.
  record AllGates (terminal : TerminalEvidence) (runtime : RuntimeEvidence) (journal_ok : Bool)
      (reading : Reading) (breakdowns : Dict (StepBreakdown F)) : Type 0 where
    intact : journal_ok ≡ true
    orders : all (λ (_, b). b) reading.order ≡ true
    scores : all_full (map (λ (k, b). (k, b.final_score)) breakdowns) ≡ true
    safe : is_safe terminal ≡ true
    access : (runtime.forbidden_access || reading.forbidden) ≡ false
    completed : candidate_completed runtime ≡ true
    isolated : (identities_valid runtime && runtime.isolation_verified) ≡ true
    healthy : runtime.infrastructure_failure ≡ false

  world_report-AllGates :
      (spec : ScenarioSpec F) (checkpoints : Dict (CheckpointEvidence F))
      (terminal : TerminalEvidence) (runtime : RuntimeEvidence) (journal_ok : Bool)
      (reading : Reading) (artifacts : Dict F) (identity : Option (Entries F))
      (breakdowns : Dict (StepBreakdown F))
      → (world_report spec checkpoints terminal runtime journal_ok reading artifacts identity
          breakdowns).strict_pass
        ≡ true
      → AllGates terminal runtime journal_ok reading breakdowns
  unfolding world_report all_gates
  world_report-AllGates spec checkpoints terminal runtime journal_ok reading artifacts identity
        breakdowns pass =
      record {
        intact = ground arith;
        orders = ground arith;
        scores = ground arith;
        safe = ground arith;
        access = ground arith;
        completed = ground arith;
        isolated = ground arith;
        healthy = ground arith;
      }

  -- A strict pass means that the journal is a chain with a terminal event, every step was done in
  -- order on trusted evidence, and nothing forbidden or unsafe happened.
  pub grade_world-pass :
      (spec : ScenarioSpec F) (journal : EventJournal F) (checkpoints : Dict (CheckpointEvidence F))
      (terminal : TerminalEvidence) (runtime : RuntimeEvidence) (given : Given F)
      (report : FibsemWorldReport F)
      → IsExact h num
      → grade_world spec journal checkpoints terminal runtime given ≡ ok report
      → report.strict_pass ≡ true
      → IsPassed spec journal checkpoints terminal runtime given report
  grade_world-pass spec journal checkpoints terminal runtime given report law ran pass =
      let g = grade_world-Graded spec journal checkpoints terminal runtime given report ran in
      let gates =
        world_report-AllGates spec checkpoints terminal runtime g.journal_ok g.reading g.artifacts
          g.identity g.breakdowns (subst (λ r. r.strict_pass ≡ true) (sym g.reported) pass) in
      let (head, validated) = integrity-true _ (g.checked ∙ ap ok gates.intact) in
      let (told, order) = journal_markers-forbidden journal g.reading g.read in
      let shown : g.reading.markers
          ≡ (world_report spec checkpoints terminal runtime g.journal_ok g.reading g.artifacts
              g.identity g.breakdowns).partial_order =
        unfold world_report in refl in
      let same : g.reading.markers ≡ report.partial_order =
        shown ∙ ap (λ r. r.partial_order) g.reported in
      let (ns, staged, ascending) =
        order_by_step-stages g.reading.markers
          (ap (all (λ (_, b). b)) (sym order) ∙ gates.orders) in
      record {
        records = g.records;
        head = head;
        exported = g.exported;
        validated = validated;
        resolved = g.resolved;
        artifacts = g.artifacts;
        identity = g.identity;
        resolution = g.resolution;
        done =
            grade_steps-full law spec checkpoints g.resolved true steps g.breakdowns g.graded
              gates.scores;
        sequence = ns;
        staged = ap stages (sym same) ∙ staged;
        ascending = ascending;
        allowed = sym told ∙ ground (arith, gates.access);
        access = ground (arith, gates.access);
        safe = gates.safe;
        completed = gates.completed;
        isolated = gates.isolated;
        healthy = gates.healthy;
      }
