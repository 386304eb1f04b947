-- ===== src/Constraints/Repeat.antt =====
-- What the check on identification says of a device that is identified once more.
use instrument_benchmark_eva.Prelude.{
  ◌<◌, ◌≤◌, ◌≡◌, true, false, some, List, [], ◌∷◌, ◌++◌, arith, All, Bool-cases, inl, inr,
}
use instrument_benchmark_eva.Prelude.Text.{Text}
use instrument_benchmark_eva.Constraints.Events.{SemanticEvent}
use instrument_benchmark_eva.Constraints.Rules.{is_specific, all_roles_identified}
use instrument_benchmark_eva.Constraints.Identity.{InOrder, identifies, all_roles_identified_iff}

All-at {κ} :
    {A : Type 0} (P : A → Type κ) (pre : List A) (x : A) (post : List A)
    → All P (pre ++ (x ∷ post))
    → P x
All-at P [] x post h = h.0
All-at P (y ∷ pre) x post h = All-at P pre x post h.1

All-drop {κ} : {A : Type 0} (P : A → Type κ) (pre es : List A) → All P (pre ++ es) → All P es
All-drop P [] es h = h
All-drop P (y ∷ pre) es h = All-drop P pre es h.1

InOrder-drop : (pre es : List SemanticEvent) → InOrder (pre ++ es) → InOrder es
InOrder-drop [] es o = o
InOrder-drop (e ∷ pre) es o = InOrder-drop pre es o.1

-- A candidate that identifies a device once more after it used it fails the check, also if it
-- identified every device first.
pub identify_again_fails :
    (pre mid post : List SemanticEvent) (e i : SemanticEvent) (r : Text)
    → InOrder (pre ++ (e ∷ (mid ++ (i ∷ post))))
    → is_specific e ≡ true
    → e.role ≡ some r
    → identifies r i ≡ true
    → (all_roles_identified (pre ++ (e ∷ (mid ++ (i ∷ post))))).passed ≡ false
identify_again_fails pre mid post e i r o specific at again =
    elim (Bool-cases (all_roles_identified (pre ++ (e ∷ (mid ++ (i ∷ post))))).passed) [
      | inl passed ↦
          let c = (all_roles_identified_iff _ o).0 passed in
          let early = All-at _ pre e (mid ++ (i ∷ post)) c.first specific r at in
          let rest = (All-drop _ pre (e ∷ (mid ++ (i ∷ post))) early).1 in
          let before : i.sequence < e.sequence = All-at _ mid i post rest again in
          let late = (InOrder-drop pre (e ∷ (mid ++ (i ∷ post))) o).0 in
          let after : e.sequence ≤ i.sequence =
            All-at (λ d. e.sequence ≤ d.sequence) mid i post late in
          absurd (omega arith)
      | inr failed ↦ failed
    ]
