-- ===== src/Remote/Invoke.antt =====
-- `_invoke`: the operations of the VISA library that a connection can call.
use instrument_benchmark_eva.Prelude.{
  Bool, false, Option, none, some, List, [], ◌∷◌, length, if◌then◌else◌,
}
use instrument_benchmark_eva.Prelude.Text.{Text, codes, text_eq, non_empty}
use instrument_benchmark_eva.Prelude.Decimal.{ℤ, pos}
use instrument_benchmark_eva.Prelude.Dict.{Dict, find, remove}
use instrument_benchmark_eva.Liftout.Value.{text, integer, Entries, no_entries}
use instrument_benchmark_eva.Liftout.Journal.{le_int}
use instrument_benchmark_eva.Remote.Outcome.{
  visa_error, query_rejected, invalid_arguments, trusted_failure, Outcome, done, raised, Act, pure,
  modify, raise, gets, ◌>>=◌, ◌>>◌,
}
use instrument_benchmark_eva.Remote.Wire.{
  Wire, wire_none, wire_str, wire_int, wire_bytes, wire_tuple, Wires, no_wires, wire, Runtime,
  field, audit_token, audit_value,
}
use instrument_benchmark_eva.Remote.Query.{Worker, filter_resources}
use instrument_benchmark_eva.Remote.Broker.{
  Constants, Library, Method, Broker, note_on, call, update_sessions, session, new_token, exact,
}

-- A result with its status.
abbrev pub Answer : Type 0 → Type 0
Answer F = Wire F × Option ℤ

-- The tuple of texts.
abbrev pub texts : {F : Type 0} → List Text → Wires F
texts [] = no_wires
texts (t ∷ ts) = wire (wire_str t) (texts ts)

module _ {L F : Type 0} where
  -- `args[key]`
  abbrev pub get : Text → Dict (Wire F) → Act (Broker L F) (Wire F)
  get k args b = elim (find k args) [ none ↦ (raised invalid_arguments, b) | some w ↦ (done w, b) ]

  -- `_integer` without a minimum
  abbrev pub integer_of : Wire F → Act (Broker L F) ℤ
  integer_of (wire_int n) b = (done n, b)
  integer_of w b = (raised invalid_arguments, b)

  -- `_integer` with a minimum
  abbrev pub at_least : ℤ → Wire F → Act (Broker L F) ℤ
  at_least low (wire_int n) b = (if le_int low n then done n else raised invalid_arguments, b)
  at_least low w b = (raised invalid_arguments, b)

  -- `_string`
  abbrev pub string_of : Wire F → Act (Broker L F) Text
  string_of (wire_str t) b = (if non_empty t then done t else raised invalid_arguments, b)
  string_of w b = (raised invalid_arguments, b)

  abbrev pub bytes_of : Wire F → Act (Broker L F) Text
  bytes_of (wire_bytes bs) b = (done bs, b)
  bytes_of w b = (raised invalid_arguments, b)

  -- A member of an enumeration, or a `ValueError`.
  abbrev pub member : (ℤ → Bool) → ℤ → Act (Broker L F) ℤ
  member is_member n b = (if is_member n then done n else raised invalid_arguments, b)

  -- The kind of a session, `sessions.pop(token)`.
  abbrev pub kind_of : Text → Act (Broker L F) Text
  kind_of token b = elim (find token b.state.sessions) [
    | none ↦ (raised invalid_arguments, b)
    | some remote ↦ (done remote.session_kind, b)
  ]

module _ {F : Type 0} where
  unfoldable pub token_field : ⦃r : Runtime F⦄ → Text → Entries F → Entries F
  token_field token es = field (codes "session") (audit_token (some (wire_str token))) es

  unfoldable pub status_field : ℤ → Entries F
  status_field status = field (codes "status") (integer status) no_entries

module _ {L F : Type 0} ⦃r : Runtime F⦄ ⦃c : Constants⦄ ⦃lib : Library L F⦄ where
  -- The filter's outcome, of which a refusal is recorded.
  unfoldable pub filtered : Outcome (List Text) → Act (Broker L F) (List Text)
  unfolding note_on
  filtered (raised (query_rejected reason code)) =
      note_on (codes "resource_query.reject")
        (field (codes "reason") (text reason) (field (codes "code") (integer code) no_entries))
      >> raise (query_rejected reason code)
  filtered (done ts) = pure ts
  filtered (raised e) = raise e

  -- The resources that match, of which there must be one.
  unfoldable pub answered : List Text → Act (Broker L F) (Answer F)
  unfolding note_on
  answered [] =
      note_on (codes "resource_query.reject") (
        field (codes "reason") (text (codes "no_match"))
          (field (codes "code") (integer c.resource_not_found) no_entries))
      >> raise (visa_error c.resource_not_found)
  answered (t ∷ ts) =
      note_on (codes "resource_query.result")
        (field (codes "matched") (integer (pos (length (t ∷ ts)))) no_entries)
      >> pure (wire_tuple (texts (t ∷ ts)), none)

  unfoldable pub list_resources : Worker F → Dict (Wire F) → Act (Broker L F) (Answer F)
  unfolding filtered answered filter_resources note_on exact find
  list_resources w args = do
    exact (codes "session" ∷ codes "query" ∷ []) args
    given ← get (codes "query") args
    query ← string_of given
    resources ← gets (λ (b : Broker L F). lib.list_resources b.library)
    note_on (codes "resource_query.request") (
        field (codes "query_length") (integer (pos (length query)))
          (field (codes "query_sha256") (text (r.sha256 (r.utf8 query))) no_entries))
    ts ← filtered (filter_resources w resources query)
    answered ts

  unfoldable pub open_default_resource_manager : Text → Dict (Wire F) → Act (Broker L F) (Answer F)
  unfolding new_token exact
  open_default_resource_manager drawn args = do
    exact [] args
    (real, status) ← call lib.open_default_resource_manager
    token ← new_token drawn real (codes "resource_manager") none none
    pure (wire_str token, some status)

  unfoldable pub open_resource : Text → Text → ℤ → Dict (Wire F) → Act (Broker L F) (Answer F)
  unfolding new_token exact find le_int
  open_resource drawn token real args = do
    exact
        (codes "session" ∷ codes "resource_name" ∷ codes "access_mode" ∷ codes "open_timeout" ∷ [])
        args
    name ← get (codes "resource_name") args
    resource_name ← string_of name
    given_mode ← get (codes "access_mode") args
    mode_number ← at_least (pos 0) given_mode
    mode ← member c.is_access_mode mode_number
    given_timeout ← get (codes "open_timeout") args
    timeout ← at_least (pos 0) given_timeout
    (opened, status) ← call (lib.open_resource real resource_name mode timeout)
    new_session ← new_token drawn opened (codes "resource") (some token) (some resource_name)
    pure (wire_str new_session, some status)

  unfoldable pub close_session : Text → ℤ → Dict (Wire F) → Act (Broker L F) (Answer F)
  unfolding exact find remove note_on token_field status_field
  close_session token real args = do
    exact (codes "session" ∷ []) args
    status ← call (lib.close real)
    kind ← kind_of token
    modify (update_sessions (remove token))
    note_on (codes "session.close") (
        token_field token (
          field (codes "session_kind") (text kind)
            (field (codes "source") (text (codes "candidate")) (status_field status))))
    pure (wire_none, some status)

  unfoldable pub read : Text → ℤ → Dict (Wire F) → Act (Broker L F) (Answer F)
  unfolding exact find note_on audit_value token_field status_field le_int
  read token real args = do
    exact (codes "session" ∷ codes "count" ∷ []) args
    given ← get (codes "count") args
    count ← at_least (pos 1) given
    note_on (codes "scpi.read")
        (token_field token (field (codes "count") (integer count) no_entries))
    (payload, status) ← call (lib.read real count)
    note_on (codes "scpi.read_result") (
        token_field token
          (field (codes "payload") (audit_value false (wire_bytes payload)) (status_field status)))
    pure (wire_bytes payload, some status)

  unfoldable pub write : Text → ℤ → Dict (Wire F) → Act (Broker L F) (Answer F)
  unfolding exact find note_on audit_value token_field status_field
  write token real args = do
    exact (codes "session" ∷ codes "data" ∷ []) args
    given ← get (codes "data") args
    payload ← bytes_of given
    note_on (codes "scpi.write") (
        token_field token
          (field (codes "payload") (audit_value false (wire_bytes payload)) no_entries))
    (count, status) ← call (lib.write (r.sha256 token) real payload)
    note_on (codes "scpi.write_result")
        (token_field token (field (codes "count") (integer count) (status_field status)))
    pure (wire_int count, some status)

  -- `_wire_value`
  abbrev pub wire_value : Option (Wire F) → Act (Broker L F) (Wire F)
  wire_value none b = (raised (trusted_failure (codes "RuntimeError")), b)
  wire_value (some w) b = (done w, b)

  unfoldable pub get_attribute : ℤ → Dict (Wire F) → Act (Broker L F) (Answer F)
  unfolding exact find
  get_attribute real args = do
    exact (codes "session" ∷ codes "attribute" ∷ []) args
    given ← get (codes "attribute") args
    number ← integer_of given
    attribute ← member c.is_attribute number
    (result, status) ← call (lib.get_attribute real attribute)
    w ← wire_value result
    pure (w, some status)

  unfoldable pub set_attribute : ℤ → Dict (Wire F) → Act (Broker L F) (Answer F)
  unfolding exact find
  set_attribute real args = do
    exact (codes "session" ∷ codes "attribute" ∷ codes "attribute_state" ∷ []) args
    given ← get (codes "attribute") args
    number ← integer_of given
    attribute ← member c.is_attribute number
    wanted ← get (codes "attribute_state") args
    status ← call (lib.set_attribute real attribute wanted)
    pure (wire_none, some status)

  -- `disable_event` and `discard_events`, by the library's method
  unfoldable pub on_event :
      (ℤ → ℤ → Method L F (Unit {0})) → Dict (Wire F) → Act (Broker L F) (Answer F)
  unfolding exact find
  on_event method args = do
    exact (codes "session" ∷ codes "event_type" ∷ codes "mechanism" ∷ []) args
    given_type ← get (codes "event_type") args
    type_number ← integer_of given_type
    event_type ← member c.is_event_type type_number
    given_mechanism ← get (codes "mechanism") args
    mechanism_number ← integer_of given_mechanism
    mechanism ← member c.is_event_mechanism mechanism_number
    call (method event_type mechanism)
    pure (wire_none, none)

  -- An operation on a session.
  unfoldable pub on_session :
      Worker F → Text → Text → Dict (Wire F) → Text × ℤ → Act (Broker L F) (Answer F)
  unfolding text_eq
  on_session w drawn operation args (token, real) =
      if text_eq operation (codes "list_resources")
      then list_resources w args
      else if text_eq operation (codes "open")
      then open_resource drawn token real args
      else if text_eq operation (codes "close")
      then close_session token real args
      else if text_eq operation (codes "read")
      then read token real args
      else if text_eq operation (codes "write")
      then write token real args
      else if text_eq operation (codes "get_attribute")
      then get_attribute real args
      else if text_eq operation (codes "set_attribute")
      then set_attribute real args
      else if text_eq operation (codes "disable_event")
      then on_event (lib.disable_event real) args
      else on_event (lib.discard_events real) args

  -- `_invoke`, given the worker of queries and the token that a new session would get
  unfoldable pub invoke : Worker F → Text → Text → Dict (Wire F) → Act (Broker L F) (Answer F)
  unfolding text_eq
  invoke w drawn operation args =
      if text_eq operation (codes "open_default_resource_manager")
      then open_default_resource_manager drawn args
      else (session args >>= on_session w drawn operation args)
