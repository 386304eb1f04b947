-- ===== src/Gateway/Steps.antt =====
-- Every operation of the gateway on a session moves the gateway by five kinds of edits, so what
-- each edit respects, the operation respects.
use instrument_benchmark_eva.Prelude.{
  Result-cases, inl, inr, modify, attempt, ◌>>=◌, ℕ, ◌≡◌, Option, none, some, arith, Exec, Result,
  ok, Exception, command_error, value_error, state_error, operation_error, type_error, key_error,
  index_error, overflow_error, runtime_error,
}
use instrument_benchmark_eva.Prelude.Text.{Text, codes}
use instrument_benchmark_eva.Prelude.Dict.{remove}
use instrument_benchmark_eva.Host.{Host}
use instrument_benchmark_eva.World.Data.{WorldSnapshot}
use instrument_benchmark_eva.Evidence.Journal.{Runtime, Entry, append}
use instrument_benchmark_eva.Gateway.Session.{
  owned_session, required_str, world_snapshot, Session, set_session, Gateway, JsonObject,
  journal_append, record_session, on_rack,
}
use instrument_benchmark_eva.Instruments.Rack.{Rack}
use instrument_benchmark_eva.Gateway.Moves.{
  Moves, gets-Moves, attempt-Moves, if-Moves, on_rack-Moves, bind-Moves,
}
use instrument_benchmark_eva.Gateway.Server.{
  sync_clock, catch_up, list_resources, open_resource, set_timeout, set_read_termination,
  set_write_termination, read_pending, read_response, keep_text, close_session, refused_write,
  taken_write, keep_response, write_payload, session_operation, on_session, dispatch,
}

-- A relation that the edits of an operation on one session respect.
pub record Edits {F : Type 0} ⦃rt : Runtime F⦄ (R : Gateway F → Gateway F → Type 0) (sid : Text)
    : Type 0 where
  pub stay : (g : Gateway F) → R g g
  pub chain : (u v w : Gateway F) → R u v → R v w → R u w
  pub rack_edit : (g : Gateway F) (r : Rack F) → R g (record g { rack = r })
  pub clock_edit : (g : Gateway F) (n : ℕ) → R g (record g { last_clock_sync_ns = n })
  pub journal_edit : (g : Gateway F) (e : Entry F) → R g (record g { journal = append e g.journal })
  pub session_edit : (g : Gateway F) (s : Session) → R g (set_session sid s g)
  pub session_end : (g : Gateway F) → R g (record g { sessions = remove sid g.sessions })

module _ {F : Type 0} ⦃rt : Runtime F⦄ (R : Gateway F → Gateway F → Type 0) (sid : Text)
    (laws : Edits R sid) where
  gets-R : {A : Type 0} (f : Gateway F → Result A) → Moves R (λ g. (f g, g))
  gets-R f = gets-Moves R laws.stay f

  clock-R : (n : ℕ) → Moves R (modify (λ g. record g { last_clock_sync_ns = n }))
  clock-R n = record { moves = λ g. laws.clock_edit g n }

  append-R : (e : Entry F) → Moves R (journal_append e)
  append-R e = record { moves = λ g. laws.journal_edit g e }

  session-R : (s : Session) → Moves R (modify (set_session sid s))
  session-R s = record { moves = λ g. laws.session_edit g s }

  end-R : Moves R (modify (λ g. record g { sessions = remove sid g.sessions }))
  end-R = record { moves = laws.session_end }

  bind-R :
      {A B : Type 0} (m : Exec (Gateway F) A) (f : A → Exec (Gateway F) B)
      → Moves R m
      → ((a : A) → Moves R (f a))
      → Moves R (m >>= f)
  bind-R m f p q = bind-Moves R laws.stay laws.chain m f p q

  on_rack-R : {A : Type 0} (m : Exec (Rack F) A) → Moves R (on_rack m)
  on_rack-R m = on_rack-Moves R laws.rack_edit m

  attempt-R :
      {A B : Type 0} (m : Exec (Gateway F) A) (f : A → Exec (Gateway F) B)
      (handler : Exception → Exec (Gateway F) B)
      → Moves R m
      → ((a : A) → Moves R (f a))
      → ((e : Exception) → Moves R (handler e))
      → Moves R (attempt m f handler)
  attempt-R m f handler p q q' = attempt-Moves R laws.chain m f handler p q q'

  ruleset rules =
      (gets-R, clock-R, append-R, session-R, end-R, bind-R, on_rack-R, attempt-R, if-Moves)

  catch_up-R : (last elapsed_ms : ℕ) → Moves R (catch_up last elapsed_ms)
  unfolding catch_up
  catch_up-R last elapsed_ms = search rules depth 14

  pub sync_clock-R : (now : ℕ) → Moves R (sync_clock now)
  unfolding sync_clock
  sync_clock-R now = search (rules, catch_up-R) depth 14

  record_session-R :
      (resource : Text) (before : WorldSnapshot F) (e : Entry F)
      → Moves R (record_session sid resource before e)
  unfolding record_session
  record_session-R resource before e = search rules depth 14

  pub list_resources-R : Moves R list_resources
  unfolding list_resources
  list_resources-R = search rules depth 14

  pub open_resource-R :
      (owner : Text) (arguments : JsonObject) → Moves R (open_resource sid owner arguments)
  unfolding open_resource
  open_resource-R owner arguments = search rules depth 20

  module _ (session : Session) (before : WorldSnapshot F) where
    set_timeout-R : (arguments : JsonObject) → Moves R (set_timeout sid session before arguments)
    unfolding set_timeout
    set_timeout-R arguments = search (rules, record_session-R) depth 14

    set_read_termination-R :
        (arguments : JsonObject) → Moves R (set_read_termination sid session before arguments)
    unfolding set_read_termination
    set_read_termination-R arguments = search (rules, record_session-R) depth 14

    set_write_termination-R :
        (arguments : JsonObject) → Moves R (set_write_termination sid session before arguments)
    unfolding set_write_termination
    set_write_termination-R arguments = search (rules, record_session-R) depth 14

    read_pending-R : Moves R (read_pending sid session before)
    unfolding read_pending
    read_pending-R = go session.pending
      where
        go : (p : Option Text) → Moves R (read_response sid session before p)
        go none = search rules
        go (some t) = search (rules, record_session-R) depth 14

    close_session-R : Moves R (close_session sid session before)
    unfolding close_session
    close_session-R = search (rules, record_session-R) depth 14

    refused_write-R :
        (sent : Text) (e : Exception) → Moves R (refused_write sid session before sent e)
    unfolding refused_write
    refused_write-R sent (command_error t) = search (rules, record_session-R) depth 14
    refused_write-R sent key_error = search (rules, record_session-R) depth 14
    refused_write-R sent (value_error t) = search rules
    refused_write-R sent (state_error t) = search rules
    refused_write-R sent (operation_error t u) = search rules
    refused_write-R sent type_error = search rules
    refused_write-R sent index_error = search rules
    refused_write-R sent overflow_error = search rules
    refused_write-R sent runtime_error = search rules

    keep_response-R : (response : Option Text) → Moves R (keep_response sid session before response)
    unfolding keep_response
    keep_response-R none = search rules
    keep_response-R (some t) = go session.pending
      where
        go : (p : Option Text) → Moves R (keep_text sid session before t p)
        go none = search rules
        go (some u) = search rules

    taken_write-R :
        (sent : Text) (response : Option Text)
        → Moves R (taken_write sid session before sent response)
    unfolding taken_write
    taken_write-R sent response = search (rules, record_session-R, keep_response-R) depth 14

    write_payload-R :
        ⦃h : Host F⦄
        → (arguments : JsonObject) → Moves R (write_payload sid session before arguments)
    unfolding write_payload
    write_payload-R arguments = search (rules, attempt-R, taken_write-R, refused_write-R) depth 14

    pub session_operation-R :
        ⦃h : Host F⦄
        → (operation : Text) (arguments : JsonObject)
        → Moves R (session_operation sid session before operation arguments)
    unfolding session_operation
    session_operation-R operation arguments =
        search
          (
            rules, set_timeout-R, set_read_termination-R, set_write_termination-R, write_payload-R,
            read_pending-R, close_session-R,
          )
          depth 20

  request-R :
      ⦃h : Host F⦄
      → (now : ℕ) (owner operation : Text) (arguments : JsonObject)
      → Moves R (on_session owner operation arguments)
      → Moves R (dispatch now sid owner operation arguments)
  unfolding dispatch
  request-R now owner operation arguments owned =
      search (rules, sync_clock-R, list_resources-R, open_resource-R) depth 20

  -- A request moves the gateway along the relation, if its operation does on a session of its
  -- client.
  pub dispatch-R :
      ⦃h : Host F⦄
      → (now : ℕ) (owner operation : Text) (arguments : JsonObject)
      → ((id : Text) (session : Session) (g : Gateway F)
          → owned_session owner id g.sessions ≡ ok session
          → R g (session_operation id session (world_snapshot g) operation arguments g).1)
      → (g : Gateway F) → R g (dispatch now sid owner operation arguments g).1
  dispatch-R now owner operation arguments moved g =
      (request-R now owner operation arguments owned_request).moves g
    where
      on_owned : (g : Gateway F) → R g (on_session owner operation arguments g).1
      on_owned g = elim (Result-cases (required_str arguments (codes "session"))) [
        | inr (e, bad) ↦ unfold on_session in ground (arith, laws.stay g)
        | inl (id, named) ↦ elim (Result-cases (owned_session owner id g.sessions)) [
          | inr (e, bad) ↦ unfold on_session in ground (arith, laws.stay g)
          | inl (session, owned) ↦ unfold on_session in ground (arith, moved id session g owned)
        ]
      ]

      owned_request : Moves R (on_session owner operation arguments)
      owned_request = record { moves = on_owned }
