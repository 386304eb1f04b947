-- ===== src/Remote/Operations.antt =====
-- No operation of the broker starts or ends a request in the journal.
use instrument_benchmark_eva.Prelude.{
  refl, arith, Bool, true, false, Option, none, some, List, [], ◌∷◌, if◌then◌else◌,
}
use instrument_benchmark_eva.Prelude.Text.{Text, codes, starts_with, text_eq}
use instrument_benchmark_eva.Prelude.Decimal.{ℤ}
use instrument_benchmark_eva.Prelude.Dict.{Dict, find}
use instrument_benchmark_eva.Liftout.Value.{Entries}
use instrument_benchmark_eva.Remote.Outcome.{
  request_error, visa_error, command_rejected, query_rejected, invalid_arguments, trusted_failure,
  Outcome, done, raised, Act, ◌>>=◌,
}
use instrument_benchmark_eva.Remote.Wire.{
  Wire, wire_none, wire_bool, wire_int, wire_float, wire_str, wire_bytes, wire_tuple, Runtime,
}
use instrument_benchmark_eva.Remote.Query.{Worker}
use instrument_benchmark_eva.Remote.Broker.{
  Constants, Library, Method, Broker, RemoteSession, note_on, refuse_session, session_of, session,
  new_token,
}
use instrument_benchmark_eva.Remote.Invoke.{
  kind_of, wire_value, filtered, answered, list_resources, open_default_resource_manager,
  open_resource, close_session, read, write, get_attribute, set_attribute, on_event, on_session,
  invoke,
}
use instrument_benchmark_eva.Remote.Quiet.{
  Quiet, Grows, same-Grows, still-Quiet, bind-Quiet, gets-Quiet, pure-Quiet, raise-Quiet,
  raise_if-Quiet, call-Quiet, sessions-Quiet, note_on-Quiet, get-Quiet, integer_of-Quiet,
  at_least-Quiet, string_of-Quiet, bytes_of-Quiet, member-Quiet, exact-Quiet,
}

-- The events of the operations.
module _ {L F : Type 0} where
  session_open-Quiet : (es : Entries F) → Quiet {L = L} (note_on (codes "session.open") es)
  session_open-Quiet es = note_on-Quiet (codes "session.open") es (unfold starts_with in refl)

  session_invalid_access-Quiet :
      (es : Entries F) → Quiet {L = L} (note_on (codes "session.invalid_access") es)
  session_invalid_access-Quiet es =
      note_on-Quiet (codes "session.invalid_access") es (unfold starts_with in refl)

  session_close-Quiet : (es : Entries F) → Quiet {L = L} (note_on (codes "session.close") es)
  session_close-Quiet es = note_on-Quiet (codes "session.close") es (unfold starts_with in refl)

  resource_query_request-Quiet :
      (es : Entries F) → Quiet {L = L} (note_on (codes "resource_query.request") es)
  resource_query_request-Quiet es =
      note_on-Quiet (codes "resource_query.request") es (unfold starts_with in refl)

  resource_query_reject-Quiet :
      (es : Entries F) → Quiet {L = L} (note_on (codes "resource_query.reject") es)
  resource_query_reject-Quiet es =
      note_on-Quiet (codes "resource_query.reject") es (unfold starts_with in refl)

  resource_query_result-Quiet :
      (es : Entries F) → Quiet {L = L} (note_on (codes "resource_query.result") es)
  resource_query_result-Quiet es =
      note_on-Quiet (codes "resource_query.result") es (unfold starts_with in refl)

  scpi_read-Quiet : (es : Entries F) → Quiet {L = L} (note_on (codes "scpi.read") es)
  scpi_read-Quiet es = note_on-Quiet (codes "scpi.read") es (unfold starts_with in refl)

  scpi_read_result-Quiet : (es : Entries F) → Quiet {L = L} (note_on (codes "scpi.read_result") es)
  scpi_read_result-Quiet es =
      note_on-Quiet (codes "scpi.read_result") es (unfold starts_with in refl)

  scpi_write-Quiet : (es : Entries F) → Quiet {L = L} (note_on (codes "scpi.write") es)
  scpi_write-Quiet es = note_on-Quiet (codes "scpi.write") es (unfold starts_with in refl)

  scpi_write_result-Quiet :
      (es : Entries F) → Quiet {L = L} (note_on (codes "scpi.write_result") es)
  scpi_write_result-Quiet es =
      note_on-Quiet (codes "scpi.write_result") es (unfold starts_with in refl)

  pub if-Quiet :
      {A : Type 0} (b : Bool) (m n : Act (Broker L F) A)
      → Quiet m
      → Quiet n
      → Quiet (if b then m else n)
  if-Quiet true m n p q = p
  if-Quiet false m n p q = q

  ruleset rules = (
    bind-Quiet, gets-Quiet, pure-Quiet, raise-Quiet, raise_if-Quiet, call-Quiet, sessions-Quiet,
    get-Quiet, integer_of-Quiet, at_least-Quiet, string_of-Quiet, bytes_of-Quiet, member-Quiet,
    exact-Quiet, session_open-Quiet, session_invalid_access-Quiet, session_close-Quiet,
    resource_query_request-Quiet, resource_query_reject-Quiet, resource_query_result-Quiet,
    scpi_read-Quiet, scpi_read_result-Quiet, scpi_write-Quiet, scpi_write_result-Quiet,
  )

module _ {L F : Type 0} ⦃r : Runtime F⦄ where
  new_token-Quiet :
      (drawn : Text) (real : ℤ) (kind : Text) (parent name : Option Text)
      → Quiet {L = L} {F = F} (new_token drawn real kind parent name)
  unfolding new_token
  new_token-Quiet drawn real kind parent name = search rules depth 12

module _ {L F : Type 0} ⦃r : Runtime F⦄ ⦃c : Constants⦄ where
  refuse_session-Quiet : (given : Option (Wire F)) → Quiet {L = L} {F = F} (refuse_session given)
  unfolding refuse_session
  refuse_session-Quiet given = search rules depth 12

  session_of-Quiet : (given : Option (Wire F)) → Quiet {L = L} {F = F} (session_of given)
  unfolding session_of
  session_of-Quiet none = refuse_session-Quiet none
  session_of-Quiet (some wire_none) = refuse_session-Quiet (some wire_none)
  session_of-Quiet (some (wire_bool x)) = refuse_session-Quiet (some (wire_bool x))
  session_of-Quiet (some (wire_int x)) = refuse_session-Quiet (some (wire_int x))
  session_of-Quiet (some (wire_float x)) = refuse_session-Quiet (some (wire_float x))
  session_of-Quiet (some (wire_bytes x)) = refuse_session-Quiet (some (wire_bytes x))
  session_of-Quiet (some (wire_tuple x)) = refuse_session-Quiet (some (wire_tuple x))
  session_of-Quiet (some (wire_str token)) = record {
    quiet = λ b. known b (find token b.state.sessions);
  }
    where
      result : Broker L F → Option RemoteSession → Outcome (Text × ℤ) × Broker L F
      result b o = elim o [
        | none ↦ refuse_session (some (wire_str token)) b
        | some remote ↦ (done (token, remote.real_session), b)
      ]

      known : (b : Broker L F) (o : Option RemoteSession) → Grows b (result b o).1
      known b none = (refuse_session-Quiet (some (wire_str token))).quiet b
      known b (some remote) = same-Grows b b refl (refl, refl, refl)

module _ {L F : Type 0} ⦃r : Runtime F⦄ ⦃c : Constants⦄ ⦃lib : Library L F⦄ where
  get_attribute-Quiet :
      (real : ℤ) (args : Dict (Wire F)) → Quiet {L = L} {F = F} (get_attribute real args)
  unfolding get_attribute
  get_attribute-Quiet real args =
      let last : (o : Option (Wire F)) → Quiet {L = L} {F = F} (wire_value o) =
        λ o. still-Quiet _ (λ b. ground arith) in
      search (rules, last) depth 20

  set_attribute-Quiet :
      (real : ℤ) (args : Dict (Wire F)) → Quiet {L = L} {F = F} (set_attribute real args)
  unfolding set_attribute
  set_attribute-Quiet real args = search rules depth 20

  on_event-Quiet :
      (method : ℤ → ℤ → Method L F (Unit {0})) (args : Dict (Wire F))
      → Quiet {L = L} {F = F} (on_event method args)
  unfolding on_event
  on_event-Quiet method args = search rules depth 24

  open_default_resource_manager-Quiet :
      (drawn : Text) (args : Dict (Wire F))
      → Quiet {L = L} {F = F} (open_default_resource_manager drawn args)
  unfolding open_default_resource_manager
  open_default_resource_manager-Quiet drawn args = search (rules, new_token-Quiet) depth 20

  open_resource-Quiet :
      (drawn token : Text) (real : ℤ) (args : Dict (Wire F))
      → Quiet {L = L} {F = F} (open_resource drawn token real args)
  unfolding open_resource
  open_resource-Quiet drawn token real args = search (rules, new_token-Quiet) depth 30

  read-Quiet :
      (token : Text) (real : ℤ) (args : Dict (Wire F))
      → Quiet {L = L} {F = F} (read token real args)
  unfolding read
  read-Quiet token real args = search rules depth 24

  write-Quiet :
      (token : Text) (real : ℤ) (args : Dict (Wire F))
      → Quiet {L = L} {F = F} (write token real args)
  unfolding write
  write-Quiet token real args = search rules depth 24

  kind_of-Quiet : (token : Text) → Quiet {L = L} {F = F} (kind_of token)
  kind_of-Quiet token = still-Quiet _ (λ b. ground arith)

  close_session-Quiet :
      (token : Text) (real : ℤ) (args : Dict (Wire F))
      → Quiet {L = L} {F = F} (close_session token real args)
  unfolding close_session
  close_session-Quiet token real args = search (rules, kind_of-Quiet) depth 24

  answered-Quiet : (ts : List Text) → Quiet {L = L} {F = F} (answered ts)
  unfolding answered
  answered-Quiet [] = search rules depth 12
  answered-Quiet (t ∷ ts) = search rules depth 12

  filtered-Quiet : (o : Outcome (List Text)) → Quiet {L = L} {F = F} (filtered o)
  unfolding filtered
  filtered-Quiet (done ts) = pure-Quiet ts
  filtered-Quiet (raised (query_rejected reason code)) = search rules depth 12
  filtered-Quiet (raised (request_error kind code message)) =
      raise-Quiet (request_error kind code message)
  filtered-Quiet (raised (visa_error code)) = raise-Quiet (visa_error code)
  filtered-Quiet (raised (command_rejected code)) = raise-Quiet (command_rejected code)
  filtered-Quiet (raised invalid_arguments) = raise-Quiet invalid_arguments
  filtered-Quiet (raised (trusted_failure name)) = raise-Quiet (trusted_failure name)

  list_resources-Quiet :
      (w : Worker F) (args : Dict (Wire F)) → Quiet {L = L} {F = F} (list_resources w args)
  unfolding list_resources
  list_resources-Quiet w args = search (rules, filtered-Quiet, answered-Quiet) depth 30

  on_session-Quiet :
      (w : Worker F) (drawn operation : Text) (args : Dict (Wire F)) (token : Text) (real : ℤ)
      → Quiet {L = L} {F = F} (on_session w drawn operation args (token, real))
  unfolding on_session
  on_session-Quiet w drawn operation args token real =
      search
        (
          if-Quiet, list_resources-Quiet, open_resource-Quiet, close_session-Quiet, read-Quiet,
          write-Quiet, get_attribute-Quiet, set_attribute-Quiet, on_event-Quiet,
        )
        depth 14

  -- Whatever is invoked appends internal events only.
  pub invoke-Quiet :
      (w : Worker F) (drawn operation : Text) (args : Dict (Wire F))
      → Quiet {L = L} {F = F} (invoke w drawn operation args)
  unfolding invoke session
  invoke-Quiet w drawn operation args =
      if-Quiet (text_eq operation (codes "open_default_resource_manager"))
        (open_default_resource_manager drawn args)
        (session args >>= on_session w drawn operation args)
        (open_default_resource_manager-Quiet drawn args)
        (bind-Quiet (session args) (on_session w drawn operation args)
          (session_of-Quiet (find (codes "session") args))
          (λ (token, real). on_session-Quiet w drawn operation args token real))
