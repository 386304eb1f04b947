-- ===== src/Remote/Dispatch.antt =====
-- `dispatch`, `disconnect` and the limits on requests.
use instrument_benchmark_eva.Prelude.{
  ℕ, ◌+◌, Bool, true, false, not, ◌||◌, Option, none, some, List, [], ◌∷◌, ◌++◌, length, ltb, ◌==◌,
  if◌then◌else◌,
}
use mathlib.Core.List.{reverse}
use instrument_benchmark_eva.Prelude.Text.{Text, codes, contains, text_eq}
use instrument_benchmark_eva.Prelude.Decimal.{ℤ, pos}
use instrument_benchmark_eva.Prelude.Dict.{Dict}
use instrument_benchmark_eva.Liftout.Value.{Value, null, text, integer, mapping, no_entries}
use instrument_benchmark_eva.Remote.Outcome.{
  Raised, request_error, visa_error, command_rejected, query_rejected, invalid_arguments,
  trusted_failure, Outcome, done, raised, Act, pure, modify, raise, raise_if, gets, ◌>>=◌, ◌>>◌,
}
use instrument_benchmark_eva.Remote.Wire.{
  Wire, wire_str, wire_tuple, Runtime, field, audit_token, audit_value, audit_mapping,
  audit_rejected_mapping,
}
use instrument_benchmark_eva.Remote.Query.{Worker}
use instrument_benchmark_eva.Remote.Broker.{
  Constants, Library, Limits, Broker, RemoteSession, note_on, call, exact,
}
use instrument_benchmark_eva.Remote.Invoke.{Answer, texts, invoke}

-- `OPERATIONS`, sorted
abbrev pub operations : List Text
operations =
    codes "close"
    ∷ codes "disable_event"
    ∷ codes "discard_events"
    ∷ codes "get_attribute"
    ∷ codes "list_resources"
    ∷ codes "open"
    ∷ codes "open_default_resource_manager"
    ∷ codes "read"
    ∷ codes "set_attribute"
    ∷ codes "write"
    ∷ []

abbrev status_value : {F : Type 0} → Option ℤ → Value F
status_value none = null
status_value (some n) = integer n

module _ {F : Type 0} ⦃r : Runtime F⦄ where
  -- `_audit_operation`
  unfoldable pub audit_operation : Text → Bool → Value F
  unfolding audit_value
  audit_operation operation redact = audit_value redact (wire_str operation)

module _ {L F : Type 0} ⦃r : Runtime F⦄ where
  -- The counters of a request, and whether a limit is exceeded.
  unfoldable pub count_request : Text → Dict (Wire F) → Broker L F → Broker L F
  unfolding audit_mapping
  count_request operation args b = record b {
    state = record b.state { request_count = b.state.request_count + 1 };
    request_count = b.request_count + 1;
    argument_bytes =
        b.argument_bytes + (length (r.utf8 operation) + r.dumps_length (audit_mapping args));
  }

  unfoldable pub limit_exceeded : ⦃l : Limits⦄ → Broker L F → Bool
  limit_exceeded ⦃l = l⦄ b =
      ltb l.max_requests_per_connection b.state.request_count
      || ltb l.max_total_requests b.request_count
      || ltb l.max_total_argument_bytes b.argument_bytes

  unfoldable pub note_request : Bool → Text → Dict (Wire F) → Act (Broker L F) (Unit {0})
  unfolding audit_operation audit_mapping audit_rejected_mapping note_on
  note_request exceeded operation args = note_on (codes "rpc.request") (
      field (codes "operation") (audit_operation operation exceeded) (
        field (codes "args")
          (if exceeded then audit_rejected_mapping args else mapping (audit_mapping args))
          no_entries))

  unfoldable pub note_result : Text → ℕ → Answer F → Act (Broker L F) (Unit {0})
  unfolding audit_value note_on
  note_result operation latency (result, status) = note_on (codes "rpc.result") (
      field (codes "operation") (text operation) (
        field (codes "result") (audit_value false result) (
          field (codes "status") (status_value status)
            (field (codes "latency_ns") (integer (pos latency)) no_entries))))

  -- `_record_reject`, and the exception that is raised
  unfoldable pub reject : Value F → ℕ → Text → ℤ → Text → Act (Broker L F) (Answer F)
  unfolding note_on
  reject audited latency kind code message =
      note_on (codes "rpc.reject") (
        field (codes "operation") audited (
          field (codes "error_kind") (text kind) (
            field (codes "code") (integer code) (
              field (codes "message") (text message)
                (field (codes "latency_ns") (integer (pos latency)) no_entries)))))
      >> raise (request_error kind code message)

  -- `_record_trusted_failure`: only the first one is recorded
  unfoldable pub with_failure : Text → Text → Broker L F → Broker L F
  with_failure component name b = elim b.fatal_error [
    | some e ↦ b
    | none ↦ record b {
      fatal_error = some name;
      journal =
          b.journal
          ++ (record {
            kind = codes "trusted.failure_detected";
            fields = field (codes "component") (text component) (
                field (codes "exception_type") (text name) (
                  field (codes "message") (text (codes "trusted simulator invariant failure"))
                    no_entries));
          }
              ∷ []);
    }
  ]

  unfoldable pub record_trusted_failure : Text → Text → Act (Broker L F) (Unit {0})
  unfolding with_failure
  record_trusted_failure component name = modify (with_failure component name)

  -- The `except` clauses.
  unfoldable pub refuse : ⦃c : Constants⦄ → Value F → ℕ → Raised → Act (Broker L F) (Answer F)
  unfolding reject record_trusted_failure
  refuse audited latency (request_error kind code message) =
      reject audited latency kind code message
  refuse audited latency (visa_error code) =
      reject audited latency (codes "visa_error") code (codes "VISA operation failed")
  refuse audited latency (command_rejected code) =
      reject audited latency (codes "visa_error") code (codes "VISA operation failed")
  refuse audited latency (query_rejected reason code) =
      reject audited latency (codes "invalid_resource_query") code
        (codes "VISA resource query rejected")
  refuse ⦃c = c⦄ audited latency invalid_arguments =
      reject audited latency (codes "invalid_arguments") c.invalid_object
        (codes "invalid arguments")
  refuse audited latency (trusted_failure name) =
      record_trusted_failure (codes "broker") name >> raise (trusted_failure name)

module _ ⦃c : Constants⦄ where
  abbrev pub unauthorized : Raised
  unauthorized = request_error (codes "unauthorized") c.invalid_object (codes "unauthorized peer")

module _ {L F : Type 0} ⦃r : Runtime F⦄ ⦃c : Constants⦄ ⦃lib : Library L F⦄ ⦃l : Limits⦄ where
  unfoldable pub hello : Dict (Wire F) → Act (Broker L F) (Answer F)
  unfolding exact
  hello args = do
    exact [] args
    uid ← gets (λ (b : Broker L F). b.state.peer_uid)
    raise_if (not (uid == 10001 || uid == 11001)) unauthorized
    pure (wire_tuple (texts operations), none)

  -- An operation of the candidate.
  unfoldable pub operate : Worker F → Text → Text → Dict (Wire F) → Act (Broker L F) (Answer F)
  unfolding invoke contains text_eq
  operate w drawn operation args = do
    uid ← gets (λ (b : Broker L F). b.state.peer_uid)
    raise_if (not (uid == 10001)) unauthorized
    raise_if (not (contains operation operations)) (
        request_error (codes "unknown_operation") c.nonsupported_operation
          (codes "unsupported operation"))
    invoke w drawn operation args

  -- The two kinds of operations.
  unfoldable pub perform_open : Worker F → Text → Text → Dict (Wire F) → Act (Broker L F) (Answer F)
  unfolding hello operate text_eq
  perform_open w drawn operation args =
      if text_eq operation (codes "hello") then hello args else operate w drawn operation args

  -- The body of the `try`, before the result is recorded.
  unfoldable pub perform :
      Bool → Worker F → Text → Text → Dict (Wire F) → Act (Broker L F) (Answer F)
  unfolding perform_open
  perform exceeded w drawn operation args = do
    raise_if exceeded (
        request_error (codes "request_limit") c.nonsupported_operation
          (codes "request limit exceeded"))
    closed ← gets (λ (b : Broker L F). b.state.closed)
    raise_if closed
        (request_error (codes "closed_connection") c.invalid_object (codes "connection is closed"))
    perform_open w drawn operation args

  -- What follows the operation: its result, or its refusal, is recorded.
  unfoldable pub conclude :
      Bool → ℕ → Text → Outcome (Answer F) × Broker L F → Outcome (Answer F) × Broker L F
  unfolding note_result refuse audit_operation
  conclude exceeded latency operation (done result, b) =
      (note_result operation latency result >> pure result) b
  conclude exceeded latency operation (raised e, b) =
      refuse (audit_operation operation exceeded) latency e b

  -- What the broker does once the request is counted and recorded.
  unfoldable pub answer :
      Bool → Worker F → Text → ℕ → Text → Dict (Wire F) → Act (Broker L F) (Answer F)
  unfolding perform conclude
  answer exceeded w drawn latency operation args b =
      conclude exceeded latency operation (perform exceeded w drawn operation args b)

  -- `dispatch`, given the worker of queries, the token that a new session would get, and the time
  -- that the request takes.
  unfoldable pub dispatch : Worker F → Text → ℕ → Text → Dict (Wire F) → Act (Broker L F) (Answer F)
  unfolding count_request limit_exceeded note_request answer
  dispatch w drawn latency operation args b =
      let counted = count_request operation args b in
      let exceeded = limit_exceeded counted in
      (note_request exceeded operation args >> answer exceeded w drawn latency operation args)
        counted

  -- The loop of `disconnect`.
  unfoldable pub close_all : List (Text × RemoteSession) → Act (Broker L F) (Unit {0})
  unfolding note_on audit_token
  close_all [] = pure tt
  close_all ((token, remote) ∷ rest) = do
    status ← call (lib.close remote.real_session)
    note_on (codes "session.forced_cleanup") (
        field (codes "session") (audit_token (some (wire_str token))) (
          field (codes "session_kind") (text remote.session_kind)
            (field (codes "status") (integer status) no_entries)))
    close_all rest

  -- `disconnect`, beside the list of connections
  unfoldable pub disconnect : Act (Broker L F) ℕ
  unfolding close_all note_on
  disconnect b =
      let leaked = length b.state.sessions in
      if b.state.closed
      then (done 0, b)
      else (close_all (reverse b.state.sessions)
            >> modify (λ (b' : Broker L F). record b' {
              state = record b'.state { sessions = []; closed = true };
              leaked_session_count = b'.leaked_session_count + leaked;
            })
            >> note_on (codes "connection.close")
                (field (codes "leaked_sessions") (integer (pos leaked)) no_entries)
            >> pure leaked)
          b
