-- ===== src/Constraints/Tests.antt =====
-- Constraints on small runs, and the theorems at inputs that meet their hypotheses.
use mathlib.Core.List.Perm
use instrument_benchmark_eva.Prelude.{
  any, ◌&&◌, ℕ, ◌≡◌, ◌↔◌, refl, true, false, none, some, List, [], ◌∷◌, ◌++◌, arith,
}
use instrument_benchmark_eva.Prelude.Text.{Text, codes, contains, text_eq}
use instrument_benchmark_eva.Constraints.Events.{SemanticEvent, is_some}
use instrument_benchmark_eva.Constraints.Rules.{
  opens, closes_actively, before_passed, active_close_all, all_roles_identified,
  evaluate_constraints, identified_from, violations, same_set, is_specific, violates, identify, put,
  get,
}
use instrument_benchmark_eva.Constraints.Before.{IsOrdered, before_passed_iff}
use instrument_benchmark_eva.Constraints.Closing.{Touches, active_close_all_iff}
use instrument_benchmark_eva.Constraints.Identity.{IsIdentifiedFirst, all_roles_identified_iff}
use instrument_benchmark_eva.Constraints.Repeat.{identify_again_fails}
use instrument_benchmark_eva.Constraints.Sort.{evaluate_constraints-perm}

abbrev event : ℕ → Text → Text → SemanticEvent
event n kind role = record {
  sequence = n;
  kind = kind;
  role = some role;
  session_digest = some (codes "s");
  cleanup_source = none;
}

abbrev identified : List SemanticEvent
identified =
    event 1 (codes "device.identified") (codes "switch")
    ∷ event 2 (codes "device.identified") (codes "psu")
    ∷ event 3 (codes "device.identified") (codes "awg")
    ∷ event 4 (codes "device.identified") (codes "dmm")
    ∷ event 5 (codes "device.identified") (codes "scope")
    ∷ []

abbrev closed : SemanticEvent
closed = event 6 (codes "switch.routes_closed") (codes "switch")

abbrev again : SemanticEvent
again = event 7 (codes "device.identified") (codes "switch")

-- Each device is identified, then one is used: the check passes.
identified_then_used : (all_roles_identified (identified ++ (closed ∷ []))).passed ≡ true
unfolding all_roles_identified identified_from identify put get violations is_specific violates
    same_set contains
identified_then_used = refl

all_roles_identified_iff_example :
    ((all_roles_identified (identified ++ (closed ∷ []))).passed ≡ true)
    ↔ IsIdentifiedFirst (identified ++ (closed ∷ []))
all_roles_identified_iff_example =
    all_roles_identified_iff (identified ++ (closed ∷ [])) (omega arith)

-- The same run with one more identification fails it.
identify_again_fails_example :
    (all_roles_identified (identified ++ (closed ∷ ([] ++ (again ∷ []))))).passed ≡ false
identify_again_fails_example =
    identify_again_fails identified [] [] closed again (codes "switch") (omega arith)
      (unfold is_specific contains in refl) refl (unfold text_eq in refl)

evaluate_constraints-perm_example :
    evaluate_constraints (closed ∷ again ∷ []) true
    ≡ evaluate_constraints (again ∷ closed ∷ []) true
evaluate_constraints-perm_example =
    evaluate_constraints-perm (closed ∷ again ∷ []) (again ∷ closed ∷ []) true
      (Perm.swap again closed []) (omega arith)

before_passed_iff_example :
    (before_passed
        (closed ∷ again ∷ [])
        (codes "switch.routes_closed" ∷ [])
        (codes "device.identified" ∷ [])
        true
        false
      ≡ true)
    ↔ IsOrdered
        (closed ∷ again ∷ [])
        (codes "switch.routes_closed" ∷ [])
        (codes "device.identified" ∷ [])
        true
        false
before_passed_iff_example =
    before_passed_iff (closed ∷ again ∷ []) (codes "switch.routes_closed" ∷ [])
      (codes "device.identified" ∷ []) true false

abbrev opened_and_closed : List SemanticEvent
opened_and_closed =
    event 8 (codes "resource.opened") (codes "dmm")
    ∷ event 9 (codes "resource.closed") (codes "dmm")
    ∷ []

active_close_all_iff_example : ((active_close_all opened_and_closed).passed ≡ true) ↔ (
    (any (λ e. opens e && is_some e.session_digest) opened_and_closed ≡ true)
    × ((t : Text)
        → Touches opens t opened_and_closed ↔ Touches closes_actively t opened_and_closed))
active_close_all_iff_example = active_close_all_iff opened_and_closed
