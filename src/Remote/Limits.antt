-- ===== src/Remote/Limits.antt =====
-- How many requests of a connection get past the limits.
use instrument_benchmark_eva.Prelude.{
  ℕ, ◌+◌, ◌-◌, ◌≤◌, ◌≡◌, refl, ◌∙◌, arith, Bool, true, false, Bool-cases, List, [], ◌∷◌, length,
  inl, inr, if◌then◌else◌,
}
use instrument_benchmark_eva.Prelude.Text.{Text, codes, text_eq}
use instrument_benchmark_eva.Prelude.Dict.{Dict}
use instrument_benchmark_eva.Liftout.Value.{Value}
use instrument_benchmark_eva.Remote.Outcome.{
  Raised, request_error, visa_error, command_rejected, query_rejected, invalid_arguments,
  trusted_failure, Outcome, done, raised,
}
use instrument_benchmark_eva.Remote.Wire.{Wire, Runtime, audit_mapping}
use instrument_benchmark_eva.Remote.Query.{Worker}
use instrument_benchmark_eva.Remote.Broker.{Constants, Library, Limits, Broker, note_on}
use instrument_benchmark_eva.Remote.Invoke.{Answer}
use instrument_benchmark_eva.Remote.Dispatch.{
  count_request, limit_exceeded, note_request, note_result, reject, record_trusted_failure, refuse,
  audit_operation, perform, conclude, answer, dispatch,
}
use instrument_benchmark_eva.Remote.Quiet.{SameCounts}
use instrument_benchmark_eva.Remote.Answers.{perform-Quiet, with_failure-Grows}

-- A request, with the token that it would get and the time that it takes.
pub record Request (F : Type 0) : Type 0 where
  pub operation : Text
  pub args : Dict (Wire F)
  pub drawn : Text
  pub latency : ℕ

-- The refusal of a request beyond a limit.
abbrev pub is_limited : {F : Type 0} → Outcome (Answer F) → Bool
is_limited (raised (request_error kind code message)) = text_eq kind (codes "request_limit")
is_limited o = false

module _ {F : Type 0} ⦃r : Runtime F⦄ where
  -- The bytes of the operation and of the arguments, as they are journaled.
  abbrev pub request_bytes : Request F → ℕ
  request_bytes q = length (r.utf8 q.operation) + r.dumps_length (audit_mapping q.args)

  abbrev pub total_bytes : List (Request F) → ℕ
  total_bytes [] = 0
  total_bytes (q ∷ qs) = request_bytes q + total_bytes qs

module _ {L F : Type 0} ⦃r : Runtime F⦄ ⦃c : Constants⦄ ⦃lib : Library L F⦄ ⦃l : Limits⦄ where
  -- What the broker does with a request, and which of a sequence of requests of the connection,
  -- sent one after the other, are not refused for a limit.
  abbrev pub run : Worker F → Request F → Broker L F → Outcome (Answer F) × Broker L F
  run w q = dispatch w q.drawn q.latency q.operation q.args

  abbrev pub admitted : Worker F → List (Request F) → Broker L F → List (Request F)
  admitted w [] b = []
  admitted w (q ∷ qs) b =
      let rest = admitted w qs (run w q b).1 in if is_limited (run w q b).0 then rest else q ∷ rest

  -- A request that exceeds a limit is refused as such.
  run_limited :
      (w : Worker F) (q : Request F) (b : Broker L F)
      → limit_exceeded (count_request q.operation q.args b) ≡ true
      → is_limited (run w q b).0 ≡ true
  unfolding dispatch note_request note_on answer conclude perform refuse reject count_request
      text_eq
  run_limited w q b over = rw over refl

  refuse-SameCounts :
      (audited : Value F) (latency : ℕ) (e : Raised) (b : Broker L F)
      → SameCounts b (refuse audited latency e b).1
  unfolding refuse reject note_on record_trusted_failure
  refuse-SameCounts audited latency (request_error kind code message) b = (refl, refl, refl)
  refuse-SameCounts audited latency (visa_error code) b = (refl, refl, refl)
  refuse-SameCounts audited latency (command_rejected code) b = (refl, refl, refl)
  refuse-SameCounts audited latency (query_rejected reason code) b = (refl, refl, refl)
  refuse-SameCounts audited latency invalid_arguments b = (refl, refl, refl)
  refuse-SameCounts audited latency (trusted_failure name) b =
      (with_failure-Grows (codes "broker") name b).counts

  conclude-SameCounts :
      (exceeded : Bool) (latency : ℕ) (operation : Text) (x : Outcome (Answer F) × Broker L F)
      → SameCounts x.1 (conclude exceeded latency operation x).1
  unfolding conclude note_result note_on
  conclude-SameCounts exceeded latency operation (done a, b) = (refl, refl, refl)
  conclude-SameCounts exceeded latency operation (raised e, b) =
      refuse-SameCounts (audit_operation operation exceeded) latency e b

  -- A request is counted once, whatever becomes of it.
  run-counts :
      (w : Worker F) (q : Request F) (b : Broker L F)
      → SameCounts (count_request q.operation q.args b) (run w q b).1
  unfolding dispatch note_request note_on answer
  run-counts w q b =
      let counted = count_request q.operation q.args b in
      let exceeded = limit_exceeded counted in
      let asked = (note_request exceeded q.operation q.args counted).1 in
      let g = (perform-Quiet exceeded w q.drawn q.operation q.args).quiet asked in
      let s =
        conclude-SameCounts exceeded q.latency q.operation
          (perform exceeded w q.drawn q.operation q.args asked) in
      (s.0 ∙ g.counts.0, s.1 ∙ g.counts.1, s.2 ∙ g.counts.2)

  -- A request that is not refused for a limit is within all of them.
  run-within :
      (w : Worker F) (q : Request F) (b : Broker L F)
      → is_limited (run w q b).0 ≡ false
      → (b.state.request_count + 1 ≤ l.max_requests_per_connection)
        × (b.request_count + 1 ≤ l.max_total_requests)
        × (b.argument_bytes + request_bytes q ≤ l.max_total_argument_bytes)
  unfolding limit_exceeded count_request
  run-within w q b free = elim (Bool-cases (limit_exceeded (count_request q.operation q.args b))) [
    | inl over ↦ ground (arith, run_limited w q b over)
    | inr within ↦ ground arith
  ]

  -- However many requests a connection sends, the ones that are not refused for a limit are at most
  -- as many as the limits of the connection and of the broker leave, and their bytes at most as
  -- many as the limit on argument bytes leaves.
  pub admitted-within :
      (w : Worker F) (qs : List (Request F)) (b : Broker L F)
      → (length (admitted w qs b) ≤ l.max_requests_per_connection - b.state.request_count)
        × (length (admitted w qs b) ≤ l.max_total_requests - b.request_count)
        × (total_bytes (admitted w qs b) ≤ l.max_total_argument_bytes - b.argument_bytes)
  unfolding count_request
  admitted-within w [] b = (omega arith, omega arith, omega arith)
  admitted-within w (q ∷ qs) b =
      let later = admitted-within w qs (run w q b).1 in
      let counts = run-counts w q b in
      elim (Bool-cases (is_limited (run w q b).0)) [
        | inl limited ↦ rw limited (omega arith, omega arith, omega arith)
        | inr free ↦
            let within = run-within w q b free in rw free (omega arith, omega arith, omega arith)
      ]
