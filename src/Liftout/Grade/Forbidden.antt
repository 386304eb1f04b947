-- ===== src/Liftout/Grade/Forbidden.antt =====
-- Which rejections the scan of a journal reports as forbidden.
use instrument_benchmark_eva.Prelude.{
  ◌≡◌, refl, ◌∙◌, arith, Bool, ◌&&◌, ◌||◌, Bool-cases, List, [], ◌∷◌, ◌++◌, any, if_both, inl, inr,
  if◌then◌else◌,
}
use instrument_benchmark_eva.Prelude.Text.{codes, text_eq}
use instrument_benchmark_eva.Liftout.Journal.{JournalEvent}
use instrument_benchmark_eva.Liftout.Grade.Scan.{
  Operation, Scan, scan, scan_event, note_checkpoint, note_completed, note_operation, note_start,
  note_status, is_forbidden,
}

module _ {F : Type 0} where
  -- A rejection of something that is not allowed.
  abbrev pub is_forbidden_event : JournalEvent F → Bool
  is_forbidden_event e = text_eq e.kind (codes "rpc.rejected") && is_forbidden e.fields

  note_start-forbidden :
      (o : Operation F) (s : Scan F) → (note_start o s).rejected_forbidden ≡ s.rejected_forbidden
  unfolding note_start
  note_start-forbidden o s = ground arith

  note_status-forbidden :
      (o : Operation F) (s : Scan F) → (note_status o s).rejected_forbidden ≡ s.rejected_forbidden
  unfolding note_status
  note_status-forbidden o s = ground arith

  note_operation-forbidden :
      (o : Operation F) (s : Scan F)
      → (note_operation o s).rejected_forbidden ≡ s.rejected_forbidden
  unfolding note_operation
  note_operation-forbidden o s =
      let noted : Scan F = record s { operations = s.operations ++ (o ∷ []) } in
      ground (arith, note_start-forbidden o noted, note_status-forbidden o noted)

  note_completed-forbidden :
      (e : JournalEvent F) (s : Scan F)
      → (note_completed e s).rejected_forbidden ≡ s.rejected_forbidden
  unfolding note_completed
  note_completed-forbidden e s = grind (arith, note_operation-forbidden)

  note_checkpoint-forbidden :
      (e : JournalEvent F) (s : Scan F)
      → (note_checkpoint e s).rejected_forbidden ≡ s.rejected_forbidden
  unfolding note_checkpoint
  note_checkpoint-forbidden e s = ground arith

  scan_event-forbidden :
      (e : JournalEvent F) (s : Scan F)
      → (scan_event e s).rejected_forbidden ≡ (s.rejected_forbidden || is_forbidden_event e)
  unfolding scan_event
  scan_event-forbidden e s =
      let checked =
        if text_eq e.kind (codes "checkpoint.exported") then note_checkpoint e s else s in
      let kept : checked.rejected_forbidden ≡ s.rejected_forbidden =
        if_both (λ (x : Scan F). x.rejected_forbidden ≡ s.rejected_forbidden)
          (text_eq e.kind (codes "checkpoint.exported")) (note_checkpoint e s) s
          (note_checkpoint-forbidden e s) refl in
      let guarded : Scan F =
        if text_eq e.kind (codes "rpc.rejected")
        then record checked {
          rejected_forbidden = checked.rejected_forbidden || is_forbidden e.fields;
        }
        else checked in
      let told : guarded.rejected_forbidden ≡ (s.rejected_forbidden || is_forbidden_event e) =
        elim (Bool-cases (text_eq e.kind (codes "rpc.rejected"))) [
          | inl rejection ↦ rw rejection (ground arith)
          | inr other ↦ rw other (ground arith)
        ] in
      if_both
        (λ (x : Scan F). x.rejected_forbidden ≡ (s.rejected_forbidden || is_forbidden_event e))
        (text_eq e.kind (codes "rpc.completed")) (note_completed e guarded) guarded
        (note_completed-forbidden e guarded ∙ told) told

  -- The scan reports forbidden access exactly where some event is a rejection of it.
  pub scan-forbidden :
      (es : List (JournalEvent F)) (s : Scan F)
      → (scan es s).rejected_forbidden ≡ (s.rejected_forbidden || any is_forbidden_event es)
  unfolding scan
  scan-forbidden [] s = ground arith
  scan-forbidden (e ∷ es) s =
      ground (arith, scan-forbidden es (scan_event e s), scan_event-forbidden e s)
