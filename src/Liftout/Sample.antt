-- ===== src/Liftout/Sample.antt =====
-- A world of the FIB-SEM suite that passes, on fixed-point numbers: its journal, checkpoints and end.
use instrument_benchmark_eva.Prelude.{
  ℕ, suc, ◌+◌, ◌*◌, ◌≤◌, ◌≡◌, refl, arith, Bool, true, false, none, some, List, [], ◌∷◌, leb, min,
}
use instrument_benchmark_eva.Prelude.Text.{Text, codes}
use instrument_benchmark_eva.Prelude.Decimal.{pos}
use instrument_benchmark_eva.Prelude.Dict.{Dict}
use instrument_benchmark_eva.Host.Fixed.{fixed, mul_fixed}
use instrument_benchmark_eva.Liftout.Value.{text, mapping, Entries, no_entries, entry}
use instrument_benchmark_eva.Liftout.Journal.{Codec, JournalEvent, EventJournal, zeros}
use instrument_benchmark_eva.Liftout.Rubric.Metrics.{
  Numbers, GeometryMetrics, ScenarioSpec, step_1, step_2, step_3, step_4,
}
use instrument_benchmark_eva.Liftout.Rubric.Laws.{IsExact, Between, total_of}
use instrument_benchmark_eva.Liftout.Grade.Evidence.{
  CheckpointEvidence, TerminalEvidence, RuntimeEvidence,
}
use instrument_benchmark_eva.Liftout.Grade.Markers.{Markers, Reading}
use instrument_benchmark_eva.Prelude.{◌/◌}

abbrev pub add_all : List ℕ → ℕ
add_all [] = 0
add_all (x ∷ xs) = x + add_all xs

instance abbrev pub sample_numbers : Numbers ℕ
sample_numbers = record { finite = λ x. true; round6 = λ x. x; sum = add_all }

instance abbrev pub sample_codec : Codec ℕ
sample_codec = record {
  finite = λ x. true;
  dumps = λ v. [];
  sha256 = λ t. zeros 64;
  clock = λ n. pos (suc n);
}

add_all-bound : (xs ns : List ℕ) → Between ⦃h = fixed⦄ xs ns → add_all xs ≤ total_of ns * 600
add_all-bound [] [] b = omega arith
add_all-bound [] (n ∷ ns) b = elim b [ ]
add_all-bound (x ∷ xs) [] b = elim b [ ]
add_all-bound (x ∷ xs) (n ∷ ns) b =
    let one : x ≤ n * 600 = ground (arith, b.1) in omega (arith, one, add_all-bound xs ns b.3)

mul_fixed-le : (x b : ℕ) → leb x 600 ≡ true → leb (mul_fixed x b) b ≡ true
mul_fixed-le x b small = rw small (min_le b (x * b / 600))
  where
    min_le : (p q : ℕ) → leb (min p q) p ≡ true
    min_le p q = ground arith

pub fixed-IsExact : IsExact fixed sample_numbers
fixed-IsExact = record {
  le_trans = λ a b c x y. ground arith;
  le_left = λ a b x. ground arith;
  le_right = λ a b x. ground arith;
  le_total = λ a b x y z. ground arith;
  le_whole = λ m n x y. ground arith;
  mul_low = λ x n a b c. ground arith;
  mul_high = λ x n a b c. mul_fixed-le x (n * 600) c;
  round_le = λ a b x. x;
  round_whole = λ n x. refl;
  round_again = λ a. refl;
  sum_low = λ xs ns b. ground arith;
  sum_high = λ xs ns b s. ground (arith, add_all-bound xs ns b);
}

abbrev pub sample_spec : ScenarioSpec ℕ
sample_spec = record {
  scenario_id = codes "nominal";
  canonical_bytes = codes "{}";
  tolerances = record { position_um = 600; joint_scale_um = 600; orientation_degrees = 3000 };
}

-- The metrics after a step, with what the sample is joined to.
abbrev pub metrics_after : Bool → Bool → Bool → GeometryMetrics ℕ
metrics_after source needle target = record {
  sample_to_source = source;
  sample_to_needle = needle;
  sample_to_target = target;
  needle_joint_section_um = 600;
  target_joint_section_um = 600;
  sample_component_count = 1;
  retained_sample_fraction = 600;
  sample_position_error_um = 0;
  sample_orientation_error_degrees = 0;
  sample_integrity_step_1 = true;
  sample_integrity_final = true;
  changes_within_work_envelopes = true;
  needle_safely_retracted = true;
  collision = false;
  simulator_idle = true;
  canonical_geometry_hash = zeros 64;
}

abbrev pub checkpoint_of : Text → GeometryMetrics ℕ → Text × CheckpointEvidence ℕ
checkpoint_of step m = (
  step,
  record {
    step_id = step;
    geometry = m;
    artifact_complete = true;
    artifact_digest = zeros 64;
    artifact_root = none;
    artifact_evidence = none;
  },
)

abbrev pub sample_checkpoints : Dict (CheckpointEvidence ℕ)
sample_checkpoints =
    checkpoint_of step_1 (metrics_after true false false)
    ∷ checkpoint_of step_2 (metrics_after false true false)
    ∷ checkpoint_of step_3 (metrics_after false true true)
    ∷ checkpoint_of step_4 (metrics_after false false true)
    ∷ []

abbrev pub sample_terminal : TerminalEvidence
sample_terminal = record {
  safe = true;
  simulator_idle = true;
  collision = false;
  cleanup_error = none;
}

abbrev pub sample_runtime : RuntimeEvidence
sample_runtime = record {
  candidate_exit_code = some (pos 0);
  timed_out = false;
  forbidden_access = false;
  infrastructure_failure = false;
  candidate_uid = 10001;
  simulator_uid = 11001;
  isolation_verified = true;
}

abbrev pub event_of : ℕ → Text → Entries ℕ → JournalEvent ℕ
event_of n kind fields = record {
  sequence = n;
  run_id = codes "run";
  world_id = codes "nominal";
  recorded_ns = pos n;
  kind = kind;
  fields = fields;
  previous_hash = zeros 64;
  event_hash = zeros 64;
}

abbrev pub with_text : Text → Text → Entries ℕ → Entries ℕ
with_text k v es = entry (some k) (text v) es

-- A call without details, an image, a pattern that is completed at once, and a checkpoint.
abbrev pub call : Text → ℕ → JournalEvent ℕ
call name n = event_of n (codes "rpc.completed") (with_text (codes "operation") name no_entries)

abbrev pub image : Text → ℕ → JournalEvent ℕ
image beam n = event_of n (codes "rpc.completed") (
    with_text (codes "operation") (codes "acquire_image") (
      entry (some (codes "details")) (mapping (with_text (codes "beam") beam no_entries))
        no_entries))

abbrev pub pattern_run : Text → ℕ → JournalEvent ℕ
pattern_run purpose n = event_of n (codes "rpc.completed") (
    with_text (codes "operation") (codes "run_cut") (
      entry (some (codes "details"))
        (mapping (with_text (codes "pattern_purpose") purpose no_entries))
        (entry (some (codes "result_details"))
          (mapping (
            with_text (codes "operation_id") purpose
              (with_text (codes "status") (codes "completed") no_entries)))
          no_entries)))

abbrev pub checkpoint_event : Text → ℕ → JournalEvent ℕ
checkpoint_event step n =
    event_of n (codes "checkpoint.exported") (with_text (codes "step_id") step no_entries)

abbrev pub number_from : ℕ → List (ℕ → JournalEvent ℕ) → List (JournalEvent ℕ)
number_from n [] = []
number_from n (e ∷ es) = e n ∷ number_from (suc n) es

abbrev pub sample_events : List (JournalEvent ℕ)
sample_events = number_from 1 (
    call (codes "ping")
    ∷ call (codes "capabilities")
    ∷ image (codes "SEM")
    ∷ image (codes "FIB")
    ∷ call (codes "move_stage")
    ∷ call (codes "move_stage")
    ∷ call (codes "insert_manipulator")
    ∷ call (codes "move_manipulator")
    ∷ call (codes "retract_manipulator")
    ∷ pattern_run (codes "preflight_cut")
    ∷ pattern_run (codes "preflight_deposition")
    ∷ pattern_run (codes "trench")
    ∷ checkpoint_event (codes "step_1")
    ∷ pattern_run (codes "needle_joint")
    ∷ pattern_run (codes "source_separation")
    ∷ call (codes "move_manipulator")
    ∷ checkpoint_event (codes "step_2")
    ∷ call (codes "move_stage")
    ∷ call (codes "move_manipulator")
    ∷ pattern_run (codes "target_joint")
    ∷ checkpoint_event (codes "step_3")
    ∷ pattern_run (codes "needle_separation")
    ∷ call (codes "retract_manipulator")
    ∷ checkpoint_event (codes "step_4")
    ∷ (λ n. event_of n (codes "run.terminal") no_entries)
    ∷ [])

abbrev pub sample_journal : EventJournal ℕ
sample_journal = record { run_id = codes "run"; world_id = codes "nominal"; events = sample_events }

abbrev pub sample_markers : Markers
sample_markers = record {
  preflight = some 11;
  destructive_roi = some 12;
  step_1 = some 13;
  needle_joint = some 14;
  source_separation = some 15;
  carry = some 16;
  step_2 = some 17;
  transfer = some 18;
  target_pose = some 19;
  target_joint = some 20;
  step_3 = some 21;
  needle_separation = some 22;
  needle_retraction = some 23;
  step_4 = some 24;
}

abbrev pub sample_reading : Reading
sample_reading = record {
  markers = sample_markers;
  order = (step_1, true) ∷ (step_2, true) ∷ (step_3, true) ∷ (step_4, true) ∷ [];
  preflight = true;
  forbidden = false;
}
