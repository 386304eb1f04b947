-- ===== src/Constraints/Closing.antt =====
-- `_active_close_all`: every session that was opened is closed by the candidate.
use instrument_benchmark_eva.Prelude.{
  ◌≡◌, ◌↔◌, refl, Bool, true, not, ◌&&◌, List, [], ◌∷◌, arith, any, is_nil, and_iff, Option-cases,
  inl, inr,
}
use instrument_benchmark_eva.Prelude.Text.{Text, contains}
use instrument_benchmark_eva.Prelude.Dict.{text_eq_comm}
use instrument_benchmark_eva.Constraints.Events.{SemanticEvent, is, is_some}
use instrument_benchmark_eva.Constraints.Sets.{same_set_iff}
use instrument_benchmark_eva.Constraints.Rules.{digests, opens, closes_actively, active_close_all}

-- Some event that the test selects belongs to the session.
abbrev pub Touches : (SemanticEvent → Bool) → Text → List SemanticEvent → Type 0
Touches p t es = any (λ e. p e && is e.session_digest t) es ≡ true

contains-digests :
    (p : SemanticEvent → Bool) (t : Text) (es : List SemanticEvent)
    → contains t (digests p es) ≡ any (λ e. p e && is e.session_digest t) es
unfolding contains digests
contains-digests p t [] = refl
contains-digests p t (e ∷ es) = elim (Option-cases e.session_digest) [
  | inl unmarked ↦ ground (arith, contains-digests p t es)
  | inr (d, at) ↦ ground (arith, contains-digests p t es, text_eq_comm t d)
]

is_nil-digests :
    (p : SemanticEvent → Bool) (es : List SemanticEvent)
    → not (is_nil (digests p es)) ≡ any (λ e. p e && is_some e.session_digest) es
unfolding digests
is_nil-digests p [] = refl
is_nil-digests p (e ∷ es) = elim (Option-cases e.session_digest) [
  | inl unmarked ↦ ground (arith, is_nil-digests p es)
  | inr (d, at) ↦ ground (arith, is_nil-digests p es)
]

-- The check passes exactly if some session was opened, and the sessions that were opened are those
-- that the candidate closed; a forced close does not count.
pub active_close_all_iff :
    (events : List SemanticEvent)
    → ((active_close_all events).passed ≡ true) ↔ (
        (any (λ e. opens e && is_some e.session_digest) events ≡ true)
        × ((t : Text) → Touches opens t events ↔ Touches closes_actively t events))
unfolding active_close_all
active_close_all_iff events =
    let (to, from) = same_set_iff (digests opens events) (digests closes_actively events) in
    (
      λ h. (
        ground (arith, is_nil-digests opens events),
        λ t.
            let same = to (ground arith) t in
            (
              λ c. ground (
                arith,
                same.0,
                contains-digests opens t events,
                contains-digests closes_actively t events,
              ),
              λ c. ground (
                arith,
                same.1,
                contains-digests opens t events,
                contains-digests closes_actively t events,
              ),
            ),
      ),
      λ (some_open, same). (and_iff _ _).1 (
        ground (arith, is_nil-digests opens events),
        from (λ t. (
          λ c. ground (
            arith,
            (same t).0,
            contains-digests opens t events,
            contains-digests closes_actively t events,
          ),
          λ c. ground (
            arith,
            (same t).1,
            contains-digests opens t events,
            contains-digests closes_actively t events,
          ),
        )),
      ),
    )
