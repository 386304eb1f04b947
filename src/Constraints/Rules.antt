-- ===== src/Constraints/Rules.antt =====
-- `evaluate_constraints` and the checks that it runs.
use instrument_benchmark_eva.Prelude.{
  ℕ, Bool, true, false, not, ◌&&◌, ◌||◌, Option, none, some, List, [], ◌∷◌, ◌++◌, map, ltb, leb,
  is_nil, select, if◌then◌else◌, max, min,
}
use instrument_benchmark_eva.Prelude.Text.{Text, codes, text_eq, contains, repr, join}
use instrument_benchmark_eva.World.Data.{subset, sorted}
use instrument_benchmark_eva.Constraints.Events.{SemanticEvent, is}

pub record ConstraintResult : Type 0 where
  pub name : Text
  pub passed : Bool
  pub message : Text
  pub evidence_sequences : List ℕ

unfoldable pub place_event : SemanticEvent → List SemanticEvent → List SemanticEvent
place_event e [] = e ∷ []
place_event e (d ∷ ds) =
    let rest = place_event e ds in if leb e.sequence d.sequence then e ∷ d ∷ ds else d ∷ rest

-- `sorted(events, key=sequence)`, which is stable
unfoldable pub sort_events : List SemanticEvent → List SemanticEvent
sort_events [] = []
sort_events (e ∷ es) = place_event e (sort_events es)

abbrev pub sequences : List SemanticEvent → List ℕ
sequences = map (λ e. e.sequence)

abbrev pub kinds : List SemanticEvent → List Text
kinds = map (λ e. e.kind)

-- `max(…)` and `min(…)` of the sequences, over lists that are not empty.
unfoldable pub max_sequence : List SemanticEvent → ℕ
max_sequence [] = 0
max_sequence (e ∷ []) = e.sequence
max_sequence (e ∷ d ∷ es) = max e.sequence (max_sequence (d ∷ es))

unfoldable pub min_sequence : List SemanticEvent → ℕ
min_sequence [] = 0
min_sequence (e ∷ []) = e.sequence
min_sequence (e ∷ d ∷ es) = min e.sequence (min_sequence (d ∷ es))

-- `before[-1:]` and `after[:1]`
abbrev last_of : List SemanticEvent → List SemanticEvent
last_of [] = []
last_of (e ∷ []) = e ∷ []
last_of (e ∷ d ∷ es) = last_of (d ∷ es)

abbrev first_of_list : List SemanticEvent → List SemanticEvent
first_of_list [] = []
first_of_list (e ∷ es) = e ∷ []

-- Equality of two sets of texts.
unfoldable pub same_set : List Text → List Text → Bool
unfolding subset
same_set a b = subset a b && subset b a

-- How a sorted set of texts is shown.
abbrev show_set : List Text → Text
show_set s = codes "[" ++ (join (codes ", ") (map repr (sorted s)) ++ codes "]")

abbrev pub of_kind : List Text → SemanticEvent → Bool
of_kind ks e = contains e.kind ks

-- `passed` of `_before`
unfoldable pub before_passed : List SemanticEvent → List Text → List Text → Bool → Bool → Bool
before_passed events before_kinds after_kinds all_before all_after =
    let before = select (of_kind before_kinds) events in
    let after = select (of_kind after_kinds) events in
    not (is_nil before)
    && not (is_nil after)
    && (not all_before || same_set (kinds before) before_kinds)
    && (not all_after || same_set (kinds after) after_kinds)
    && ltb (max_sequence before) (min_sequence after)

-- `_before`
unfoldable pub before :
    List SemanticEvent → Text → List Text → List Text → Bool → Bool → ConstraintResult
before events name before_kinds after_kinds all_before all_after = record {
  name = name;
  passed = before_passed events before_kinds after_kinds all_before all_after;
  message = show_set before_kinds ++ (codes " must precede " ++ show_set after_kinds);
  evidence_sequences = sequences (
      last_of (select (of_kind before_kinds) events)
      ++ first_of_list (select (of_kind after_kinds) events));
}

abbrev pub roles : List Text
roles = codes "switch" ∷ codes "psu" ∷ codes "awg" ∷ codes "dmm" ∷ codes "scope" ∷ []

abbrev pub neutral_kinds : List Text
neutral_kinds = codes "resource.opened" ∷ codes "device.identified" ∷ codes "resource.closed" ∷ []

-- A dictionary from roles to sequences, in the order of first insertion.
abbrev pub Dict : Type 0
Dict = List (Text × ℕ)

unfoldable pub put : Text → ℕ → Dict → Dict
put k v [] = (k, v) ∷ []
put k v ((j, w) ∷ d) = if text_eq j k then (k, v) ∷ d else (j, w) ∷ put k v d

unfoldable pub get : Text → Dict → Option ℕ
get k [] = none
get k ((j, v) ∷ d) = if text_eq j k then some v else get k d

-- The entry that an event makes in `identified`: a later one of a role takes the place of an
-- earlier one.
unfoldable pub identify : SemanticEvent → Dict → Dict
identify e d = elim e.role [
  | none ↦ d
  | some r ↦
      if text_eq e.kind (codes "device.identified") && contains r roles
      then put r e.sequence d
      else d
]

unfoldable pub identified_from : Dict → List SemanticEvent → Dict
identified_from d [] = d
identified_from d (e ∷ es) = identified_from (identify e d) es

-- An event of a target role that is neither opening, closing nor identification.
unfoldable pub is_specific : SemanticEvent → Bool
is_specific e = elim e.role [
  | none ↦ false
  | some r ↦ contains r roles && not (contains e.kind neutral_kinds)
]

-- `item.role not in identified or identified[item.role] >= item.sequence`
unfoldable pub violates : Dict → SemanticEvent → Bool
violates d e = elim e.role [
  | none ↦ true
  | some r ↦ elim (get r d) [ none ↦ true | some n ↦ leb e.sequence n ]
]

unfoldable pub violations : Dict → List SemanticEvent → List SemanticEvent
violations d events = select (λ e. is_specific e && violates d e) events

place_number : ℕ → List ℕ → List ℕ
place_number n [] = n ∷ []
place_number n (m ∷ ms) = let rest = place_number n ms in if leb n m then n ∷ m ∷ ms else m ∷ rest

unfoldable pub sort_numbers : List ℕ → List ℕ
unfolding place_number
sort_numbers [] = []
sort_numbers (n ∷ ns) = place_number n (sort_numbers ns)

-- `_all_roles_identified_before_specific_actions`
unfoldable pub all_roles_identified : List SemanticEvent → ConstraintResult
all_roles_identified events =
    let identified = identified_from [] events in
    record {
      name = codes "identify_before_device_commands";
      passed = same_set (map (λ e. e.0) identified) roles && is_nil (violations identified events);
      message = codes "every target must be identified before device-specific actions";
      evidence_sequences =
          sort_numbers (map (λ e. e.1) identified) ++ sequences (violations identified events);
    }

-- The session digests of the events that a test selects; an event with no digest gives none.
unfoldable pub digests : (SemanticEvent → Bool) → List SemanticEvent → List Text
digests p [] = []
digests p (e ∷ es) =
    let rest = digests p es in
    if p e then (elim e.session_digest [ none ↦ rest | some d ↦ d ∷ rest ]) else rest

abbrev pub opens : SemanticEvent → Bool
opens e = text_eq e.kind (codes "resource.opened")

abbrev pub closes : SemanticEvent → Bool
closes e = text_eq e.kind (codes "resource.closed")

abbrev pub closes_actively : SemanticEvent → Bool
closes_actively e = closes e && is e.cleanup_source (codes "candidate")

-- `_active_close_all`
unfoldable pub active_close_all : List SemanticEvent → ConstraintResult
active_close_all events =
    let opened = digests opens events in
    record {
      name = codes "active_close_all";
      passed = not (is_nil opened) && same_set opened (digests closes_actively events);
      message = codes "every opened session must be explicitly closed by the candidate";
      evidence_sequences = sequences (select (λ e. opens e || closes e) events);
    }

safe_final_state : Bool → ConstraintResult
safe_final_state safe = record {
  name = codes "safe_final_state";
  passed = safe;
  message =
      if safe
      then codes "hidden final state is safe"
      else codes "one or more outputs/routes remain unsafe";
  evidence_sequences = [];
}

-- The checks of `evaluate_constraints` on events in order of their sequences.
unfoldable pub check_ordered : List SemanticEvent → Bool → List ConstraintResult
unfolding before all_roles_identified active_close_all safe_final_state
check_ordered ordered safe =
    all_roles_identified ordered
    ∷ before ordered (codes "routes_before_sources") (codes "switch.routes_closed" ∷ [])
        (codes "psu.output_on" ∷ codes "awg.output_on" ∷ []) false false
    ∷ before ordered (codes "psu_configured_before_output") (codes "psu.configured" ∷ [])
        (codes "psu.output_on" ∷ []) false false
    ∷ before ordered (codes "waveform_ready_before_awg_output")
        (codes "awg.waveform_uploaded"
          ∷ codes "awg.waveform_selected"
          ∷ codes "awg.configured"
          ∷ [])
        (codes "awg.output_on" ∷ []) true false
    ∷ before ordered (codes "settled_before_acquisition") (codes "dut.settled" ∷ [])
        (codes "dmm.acquired" ∷ codes "scope.acquired" ∷ []) false true
    ∷ before ordered (codes "awg_off_before_psu_off") (codes "awg.output_off" ∷ [])
        (codes "psu.output_off" ∷ []) false false
    ∷ before ordered (codes "sources_off_before_routes_open")
        (codes "awg.output_off" ∷ codes "psu.output_off" ∷ []) (codes "switch.routes_opened" ∷ [])
        true false
    ∷ active_close_all ordered
    ∷ safe_final_state safe
    ∷ []

unfoldable pub evaluate_constraints : List SemanticEvent → Bool → List ConstraintResult
evaluate_constraints events final_state_safe = check_ordered (sort_events events) final_state_safe
