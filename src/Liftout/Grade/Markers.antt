-- ===== src/Liftout/Grade/Markers.antt =====
-- `_journal_markers`: when each stage of the work was reached, and whether in order.
use instrument_benchmark_eva.Prelude.{
  ℕ, Bool, true, false, ◌&&◌, Option, none, some, List, [], ◌∷◌, map, select, all, ltb, min, max,
  if◌then◌else◌, get_elem?, Result, ok, err, type_error,
}
use instrument_benchmark_eva.Prelude.Results.{◌>>=◌}
use instrument_benchmark_eva.Prelude.Text.{Text, codes, contains, text_eq}
use instrument_benchmark_eva.Prelude.Dict.{Dict, find}
use instrument_benchmark_eva.Liftout.Value.{sequence, mapping, text, lookup}
use instrument_benchmark_eva.Liftout.Journal.{EventJournal}
use instrument_benchmark_eva.Liftout.Grade.Scan.{Operation, Scan, scan, scan_start, set_default}

abbrev pub is_some : Option ℕ → Bool
is_some none = false
is_some (some n) = true

-- The numbers of a list that are there.
unfoldable pub present : List (Option ℕ) → List ℕ
present [] = []
present (none ∷ vs) = present vs
present (some n ∷ vs) = n ∷ present vs

-- `all(left < right for left, right in zip(values, values[1:]))`
unfoldable pub increasing : List ℕ → Bool
increasing [] = true
increasing (n ∷ []) = true
increasing (n ∷ m ∷ ns) = ltb n m && increasing (m ∷ ns)

-- `_ordered`, given the markers of its names
unfoldable pub ordered : List (Option ℕ) → Bool
unfolding present increasing
ordered vs = all is_some vs && increasing (present vs)

-- `min(values)`, none for an empty list
unfoldable pub minimum : List ℕ → Option ℕ
minimum [] = none
minimum (n ∷ ns) = elim (minimum ns) [ none ↦ some n | some m ↦ some (min n m) ]

-- `max(values)`, none for an empty list
unfoldable pub maximum : List ℕ → Option ℕ
maximum [] = none
maximum (n ∷ ns) = elim (maximum ns) [ none ↦ some n | some m ↦ some (max n m) ]

-- `_between`
unfoldable pub between : List ℕ → Option ℕ → Option ℕ → Bool → Option ℕ
unfolding minimum maximum
between ns none upper first = none
between ns (some l) none first = none
between ns (some l) (some u) first =
    let selected = select (λ n. ltb l n && ltb n u) ns in
    if first then minimum selected else maximum selected

pub record Markers : Type 0 where
  pub preflight : Option ℕ
  pub destructive_roi : Option ℕ
  pub step_1 : Option ℕ
  pub needle_joint : Option ℕ
  pub source_separation : Option ℕ
  pub carry : Option ℕ
  pub step_2 : Option ℕ
  pub transfer : Option ℕ
  pub target_pose : Option ℕ
  pub target_joint : Option ℕ
  pub step_3 : Option ℕ
  pub needle_separation : Option ℕ
  pub needle_retraction : Option ℕ
  pub step_4 : Option ℕ

module _ {F : Type 0} where
  -- `operation_sequences`
  unfoldable pub operation_sequences : List Text → List (Operation F) → List ℕ
  unfolding contains text_eq
  operation_sequences names os = map (λ o. o.sequence) (select (λ o. contains o.operation names) os)

  -- The first image of each beam; only a text is looked up later, and a beam that cannot be hashed
  -- is a `TypeError`.
  unfoldable pub image_by_beam : List (Operation F) → Dict ℕ → Result (Dict ℕ)
  unfolding text_eq lookup set_default
  image_by_beam [] images = ok images
  image_by_beam (o ∷ os) images =
      if text_eq o.operation (codes "acquire_image")
      then elim (lookup (codes "beam") o.details) [
        | none ↦ image_by_beam os images
        | some v ↦ elim v [
          | text beam ↦ image_by_beam os (set_default beam o.sequence images)
          | sequence vs ↦ err type_error
          | mapping es ↦ err type_error
          | _ ↦ image_by_beam os images
        ]
      ]
      else image_by_beam os images

  -- What must have happened before any destructive work.
  unfoldable pub required_preflight : Scan F → Dict ℕ → List (Option ℕ)
  unfolding operation_sequences find
  required_preflight s images =
      let calls : Text → List ℕ = λ name. operation_sequences (name ∷ []) s.operations in
      get_elem? (calls (codes "ping")) 0
      ∷ get_elem? (calls (codes "capabilities")) 0
      ∷ find (codes "SEM") images
      ∷ find (codes "FIB") images
      ∷ get_elem? (calls (codes "move_stage")) 0
      ∷ get_elem? (calls (codes "move_stage")) 1
      ∷ get_elem? (calls (codes "insert_manipulator")) 0
      ∷ get_elem? (calls (codes "move_manipulator")) 0
      ∷ get_elem? (calls (codes "retract_manipulator")) 0
      ∷ find (codes "preflight_cut") s.pattern_completion
      ∷ find (codes "preflight_deposition") s.pattern_completion
      ∷ []

  unfoldable pub markers_of : Scan F → List (Option ℕ) → Markers
  unfolding present minimum maximum between operation_sequences find
  markers_of s required =
      let movement =
        operation_sequences (codes "move_stage" ∷ codes "move_manipulator" ∷ []) s.operations in
      let source_cut = find (codes "source_separation") s.pattern_completion in
      let joint = find (codes "target_joint") s.pattern_completion in
      let checkpoint_2 = find (codes "step_2") s.checkpoints in
      record {
        preflight = if all is_some required then maximum (present required) else none;
        destructive_roi = minimum (
            present (
              find (codes "protection") s.pattern_completion
              ∷ find (codes "trench") s.pattern_completion
              ∷ find (codes "polish") s.pattern_completion
              ∷ find (codes "u_cut") s.pattern_completion
              ∷ []));
        step_1 = find (codes "step_1") s.checkpoints;
        needle_joint = find (codes "needle_joint") s.pattern_completion;
        source_separation = source_cut;
        carry = between movement source_cut checkpoint_2 true;
        step_2 = checkpoint_2;
        transfer = between movement checkpoint_2 joint true;
        target_pose = between movement checkpoint_2 joint false;
        target_joint = joint;
        step_3 = find (codes "step_3") s.checkpoints;
        needle_separation = find (codes "needle_separation") s.pattern_completion;
        needle_retraction =
            between (operation_sequences (codes "retract_manipulator" ∷ []) s.operations)
              (find (codes "step_3") s.checkpoints) (find (codes "step_4") s.checkpoints) true;
        step_4 = find (codes "step_4") s.checkpoints;
      }

-- `order_by_step`
unfoldable pub order_by_step : Markers → Dict Bool
unfolding ordered
order_by_step m =
    (codes "step_1", ordered (m.preflight ∷ m.destructive_roi ∷ m.step_1 ∷ []))
    ∷ (
      codes "step_2",
      ordered (m.step_1 ∷ m.needle_joint ∷ m.source_separation ∷ m.carry ∷ m.step_2 ∷ []),
    )
    ∷ (
      codes "step_3",
      ordered (m.step_2 ∷ m.transfer ∷ m.target_pose ∷ m.target_joint ∷ m.step_3 ∷ []),
    )
    ∷ (
      codes "step_4",
      ordered (m.step_3 ∷ m.needle_separation ∷ m.needle_retraction ∷ m.step_4 ∷ []),
    )
    ∷ []

-- What `_journal_markers` returns.
pub record Reading : Type 0 where
  pub markers : Markers
  pub order : Dict Bool
  pub preflight : Bool
  pub forbidden : Bool

unfoldable pub journal_markers : {F : Type 0} → EventJournal F → Result Reading
unfolding scan required_preflight markers_of order_by_step
journal_markers j = do
  let s = scan j.events scan_start
  images ← image_by_beam s.operations []
  let required = required_preflight s images
  let markers = markers_of s required
  ok (record {
    markers = markers;
    order = order_by_step markers;
    preflight = all is_some required;
    forbidden = s.rejected_forbidden;
  })
