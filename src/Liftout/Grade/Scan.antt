-- ===== src/Liftout/Grade/Scan.antt =====
-- The loop of `_journal_markers` over the events of a journal.
use instrument_benchmark_eva.Prelude.{
  ℕ, Bool, false, ◌&&◌, ◌||◌, Option, none, some, List, [], ◌∷◌, ◌++◌, if◌then◌else◌, is_nil,
}
use instrument_benchmark_eva.Prelude.Text.{Text, codes, contains, text_eq, starts_with, non_empty}
use instrument_benchmark_eva.Prelude.Dict.{Dict, find, put}
use instrument_benchmark_eva.Liftout.Value.{text, mapping, Entries, no_entries, lookup}
use instrument_benchmark_eva.Liftout.Journal.{JournalEvent, is_text}

-- A completed call: its sequence number, name, details and result details.
pub record Operation (F : Type 0) : Type 0 where
  pub sequence : ℕ
  pub operation : Text
  pub details : Entries F
  pub result : Entries F

-- The local variables of the loop.
pub record Scan (F : Type 0) : Type 0 where
  pub operations : List (Operation F)
  pub checkpoints : Dict ℕ
  pub rejected_forbidden : Bool
  pub pattern_by_id : Dict Text
  pub pattern_completion : Dict ℕ

abbrev pub scan_start : {F : Type 0} → Scan F
scan_start = record {
  operations = [];
  checkpoints = [];
  rejected_forbidden = false;
  pattern_by_id = [];
  pattern_completion = [];
}

-- `d.setdefault(key, value)`
unfoldable pub set_default : {V : Type 0} → Text → V → Dict V → Dict V
unfolding find put
set_default k v d = elim (find k d) [ none ↦ put k v d | some w ↦ d ]

-- `part in t`
unfoldable pub has_part : Text → Text → Bool
unfolding starts_with
has_part part [] = is_nil part
has_part part (c ∷ t) = starts_with (c ∷ t) part || has_part part t

module _ {F : Type 0} where
  -- `fields.get(key)` where it is a text
  unfoldable pub get_text : Text → Entries F → Option Text
  unfolding lookup text_eq
  get_text k es = elim (lookup k es) [
    | none ↦ none
    | some v ↦ elim v [ text t ↦ some t | _ ↦ none ]
  ]

  -- `fields.get(key, {})` where it is a mapping
  unfoldable pub get_mapping : Text → Entries F → Option (Entries F)
  unfolding lookup text_eq
  get_mapping k es = elim (lookup k es) [
    | none ↦ some no_entries
    | some v ↦ elim v [ mapping ws ↦ some ws | _ ↦ none ]
  ]

  -- `result.get("status") == "completed"`
  unfoldable pub is_completed : Entries F → Bool
  unfolding lookup text_eq
  is_completed es = elim (lookup (codes "status") es) [
    | none ↦ false
    | some v ↦ is_text (codes "completed") v
  ]

  -- A rejection that shows an attempt at something forbidden.
  unfoldable pub is_forbidden : Entries F → Bool
  unfolding get_text has_part starts_with
  is_forbidden fields =
      elim (get_text (codes "reason") fields) [
        | none ↦ false
        | some r ↦ has_part (codes "not allowed") r
      ]
      || elim (get_text (codes "operation") fields) [
        | none ↦ false
        | some o ↦ starts_with o (codes "_")
      ]

  -- The purpose of a pattern that was started, and its completion.
  unfoldable pub note_start : Operation F → Scan F → Scan F
  unfolding get_text is_completed set_default put
  note_start o s = elim (get_text (codes "pattern_purpose") o.details) [
    | none ↦ s
    | some purpose ↦ elim (get_text (codes "operation_id") o.result) [
      | none ↦ s
      | some operation_id ↦
          let started : Scan F = record s {
            pattern_by_id = put operation_id purpose s.pattern_by_id;
          } in
          if is_completed o.result
          then record started {
            pattern_completion = set_default purpose o.sequence s.pattern_completion;
          }
          else started
    ]
  ]

  -- The completion of a pattern that was started before.
  unfoldable pub note_status : Operation F → Scan F → Scan F
  unfolding get_text is_completed set_default find
  note_status o s = elim (get_text (codes "operation_id") o.result) [
    | none ↦ s
    | some operation_id ↦ elim (find operation_id s.pattern_by_id) [
      | none ↦ s
      | some purpose ↦
          if non_empty purpose
          then record s { pattern_completion = set_default purpose o.sequence s.pattern_completion }
          else s
    ]
  ]

  -- A completed call.
  unfoldable pub note_operation : Operation F → Scan F → Scan F
  unfolding note_start note_status contains text_eq is_completed
  note_operation o s =
      let noted : Scan F = record s { operations = s.operations ++ (o ∷ []) } in
      if contains o.operation (codes "run_cut" ∷ codes "run_deposition" ∷ [])
      then note_start o noted
      else if text_eq o.operation (codes "pattern_status") && is_completed o.result
      then note_status o noted
      else noted

  -- `rpc.completed`, where its fields have the right types
  unfoldable pub note_completed : JournalEvent F → Scan F → Scan F
  unfolding note_operation get_text get_mapping
  note_completed e s = elim (get_text (codes "operation") e.fields) [
    | none ↦ s
    | some operation ↦ elim (get_mapping (codes "details") e.fields) [
      | none ↦ s
      | some details ↦ elim (get_mapping (codes "result_details") e.fields) [
        | none ↦ s
        | some result ↦
            note_operation
              (record {
                sequence = e.sequence;
                operation = operation;
                details = details;
                result = result;
              })
              s
      ]
    ]
  ]

  unfoldable pub note_checkpoint : JournalEvent F → Scan F → Scan F
  unfolding set_default get_text
  note_checkpoint e s = elim (get_text (codes "step_id") e.fields) [
    | none ↦ s
    | some step ↦ record s { checkpoints = set_default step e.sequence s.checkpoints }
  ]

  -- One round of the loop.
  unfoldable pub scan_event : JournalEvent F → Scan F → Scan F
  unfolding note_checkpoint note_completed is_forbidden text_eq
  scan_event e s =
      let checked =
        if text_eq e.kind (codes "checkpoint.exported") then note_checkpoint e s else s in
      let guarded : Scan F =
        if text_eq e.kind (codes "rpc.rejected")
        then record checked {
          rejected_forbidden = checked.rejected_forbidden || is_forbidden e.fields;
        }
        else checked in
      if text_eq e.kind (codes "rpc.completed") then note_completed e guarded else guarded

  unfoldable pub scan : List (JournalEvent F) → Scan F → Scan F
  scan [] s = s
  scan (e ∷ es) s = scan es (scan_event e s)
