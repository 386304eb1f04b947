-- ===== src/Gateway/Server.antt =====
-- `GatewayServer._dispatch`, `_force_close_owner` and `_sync_clock`.
use instrument_benchmark_eva.Prelude.{
  ℕ, ◌+◌, ◌-◌, ◌*◌, ◌/◌, not, Option, none, some, List, [], ◌∷◌, ◌++◌, length, ltb, if◌then◌else◌,
  select, Exec, Exception, ok, err, operation_error, command_error, key_error, pure, raise, attempt,
  raise_if, lift, gets, modify, when, ◌>>=◌, ◌>>◌,
}
use instrument_benchmark_eva.Prelude.Text.{Text, codes, text_eq, contains, join, repr}
use instrument_benchmark_eva.Prelude.Dict.{Dict, remove}
use instrument_benchmark_eva.Prelude.Decimal.{pos}
use instrument_benchmark_eva.Host.{Host}
use instrument_benchmark_eva.World.Data.{WorldSnapshot, note_session_reopen}
use instrument_benchmark_eva.World.Apply.{advance_ms}
use instrument_benchmark_eva.Instruments.Rack.{role_for, write}
use instrument_benchmark_eva.Evidence.Journal.{Runtime, Entry, plain_entry}
use instrument_benchmark_eva.Gateway.Session.{
  Session, new_session, Gateway, JsonObject, required_str, termination, timeout, str_timeout,
  decode_payload, terminated, owned_session, show_termination, on_rack, world_snapshot, set_session,
  journal_append, record_session,
}

-- The result of a request.
pub data Reply : Type 0 where
  version : ℕ → Reply
  resources : List Text → Reply
  opened : Text → Reply
  accepted : Reply
  bytes_written : ℕ → Reply
  payload : Text → Reply

module _ {F : Type 0} where
  -- The world and the gateway move on by whole milliseconds.
  unfoldable pub catch_up : ℕ → ℕ → Exec (Gateway F) (Unit {0})
  unfolding advance_ms
  catch_up last elapsed_ms = do
    on_rack (λ r. let (x, w) = advance_ms (pos elapsed_ms) r.world in (x, record r { world = w }))
    modify (λ g. record g { last_clock_sync_ns = last + elapsed_ms * 1000000 })

  -- `_sync_clock`, at a reading of the monotonic clock
  unfoldable pub sync_clock : ℕ → Exec (Gateway F) (Unit {0})
  sync_clock now = do
    last ← gets (λ g. g.last_clock_sync_ns)
    when (ltb 0 ((now - last) / 1000000)) (catch_up last ((now - last) / 1000000))

module _ {F : Type 0} ⦃rt : Runtime F⦄ where
  unfoldable pub list_resources : Exec (Gateway F) Reply
  list_resources = do
    state ← gets world_snapshot
    names ← gets (λ g. g.rack.resources)
    journal_append (record (plain_entry (codes "list_resources") state state) {
      response = some (join (10 ∷ []) names);
    })
    pure (resources names)

  -- `open_resource`, with the token that `secrets` gives
  unfoldable pub open_resource : Text → Text → JsonObject → Exec (Gateway F) Reply
  open_resource token owner arguments = do
    resource ← lift (required_str arguments (codes "resource"))
    known ← gets (λ g. contains resource g.rack.resources)
    raise_if (not known)
        (operation_error (codes "resource_not_found") (codes "unknown resource " ++ repr resource))
    modify (set_session token (new_session owner resource))
    role ← on_rack (role_for resource)
    on_rack (modify (λ r. record r { world = note_session_reopen role r.world }))
    state ← gets world_snapshot
    journal_append (record (plain_entry (codes "open_resource") state state) {
      session = some token;
      resource = some resource;
      role = some role;
      request = some resource;
    })
    pure (opened token)

  module _ (session_id : Text) (session : Session) (before : WorldSnapshot F) where
    -- An entry of an operation on the session, before the world state after it is known.
    abbrev entry : Text → Entry F
    entry operation = plain_entry operation before before

    abbrev record_entry : Entry F → Exec (Gateway F) (Unit {0})
    record_entry = record_session session_id session.resource before

    unfoldable pub set_timeout : JsonObject → Exec (Gateway F) Reply
    set_timeout arguments = do
      ms ← lift (timeout arguments)
      modify (set_session session_id (record session { timeout_ms = ms }))
      record_entry (record (entry (codes "set_timeout")) { request = some (str_timeout ms) })
      pure accepted

    unfoldable pub set_read_termination : JsonObject → Exec (Gateway F) Reply
    set_read_termination arguments = do
      t ← lift (termination arguments)
      modify (set_session session_id (record session { read_termination = t }))
      record_entry
          (record (entry (codes "set_read_termination")) { request = some (show_termination t) })
      pure accepted

    unfoldable pub set_write_termination : JsonObject → Exec (Gateway F) Reply
    set_write_termination arguments = do
      t ← lift (termination arguments)
      modify (set_session session_id (record session { write_termination = t }))
      record_entry
          (record (entry (codes "set_write_termination")) { request = some (show_termination t) })
      pure accepted

    abbrev pub read_response : Option Text → Exec (Gateway F) Reply
    read_response none =
        raise
          (operation_error (codes "no_pending_response") (codes "session has no pending response"))
    read_response (some response) = do
      modify (set_session session_id (record session { pending = none }))
      record_entry (record (entry (codes "read")) { response = some response })
      pure (payload response)

    unfoldable pub read_pending : Exec (Gateway F) Reply
    read_pending = read_response session.pending

    unfoldable pub close_session : Exec (Gateway F) Reply
    close_session = do
      record_entry (record (entry (codes "close")) { cleanup_source = some (codes "candidate") })
      modify (λ g. record g { sessions = remove session_id g.sessions })
      pure accepted

    -- The end of a write that the instrument refused: command and key errors are recorded.
    unfoldable pub refused_write : Text → Exception → Exec (Gateway F) Reply
    refused_write sent (command_error t) = do
      record_entry (record (entry (codes "write")) {
        request = some sent;
        outcome = codes "error";
        error_code = some (codes "instrument_error");
      })
      raise (command_error t)
    refused_write sent key_error = do
      record_entry (record (entry (codes "write")) {
        request = some sent;
        outcome = codes "error";
        error_code = some (codes "instrument_error");
      })
      raise key_error
    refused_write sent e = raise e

    -- A response waits in the session, unless another one does.
    abbrev pub keep_text : Text → Option Text → Exec (Gateway F) (Unit {0})
    keep_text t none = modify (set_session session_id (record session { pending = some t }))
    keep_text t (some p) = raise (
        operation_error (codes "pending_response")
          (codes "read the pending response before another query"))

    unfoldable pub keep_response : Option Text → Exec (Gateway F) (Unit {0})
    keep_response none = pure tt
    keep_response (some t) = keep_text t session.pending

    -- The end of a write that the instrument took, with its response.
    unfoldable pub taken_write : Text → Option Text → Exec (Gateway F) Reply
    taken_write sent response = do
      keep_response response
      record_entry (record (entry (codes "write")) { request = some sent; response = response })
      pure (bytes_written (length sent))

    unfoldable pub write_payload : ⦃h : Host F⦄ → JsonObject → Exec (Gateway F) Reply
    write_payload arguments = do
      given ← lift (decode_payload rt.unbase64 arguments)
      attempt (on_rack (write session.resource (terminated session given)))
          (taken_write (terminated session given)) (refused_write (terminated session given))

    unfoldable pub session_operation : ⦃h : Host F⦄ → Text → JsonObject → Exec (Gateway F) Reply
    session_operation operation arguments g =
        if text_eq operation (codes "set_timeout")
        then set_timeout arguments g
        else if text_eq operation (codes "set_read_termination")
        then set_read_termination arguments g
        else if text_eq operation (codes "set_write_termination")
        then set_write_termination arguments g
        else if text_eq operation (codes "write")
        then write_payload arguments g
        else if text_eq operation (codes "read")
        then read_pending g
        else if text_eq operation (codes "close")
        then close_session g
        else raise
            (operation_error (codes "unsupported_operation")
              (codes "unsupported operation " ++ repr operation))
            g

  -- The part of `_dispatch` that needs a session of the client.
  unfoldable pub on_session : ⦃h : Host F⦄ → Text → Text → JsonObject → Exec (Gateway F) Reply
  on_session owner operation arguments = do
    session_id ← lift (required_str arguments (codes "session"))
    session ← (λ g. (owned_session owner session_id g.sessions, g))
    before ← gets world_snapshot
    session_operation session_id session before operation arguments

  -- `_dispatch`, at a reading of the clock and with the token that a new session would get
  unfoldable pub dispatch :
      ⦃h : Host F⦄ → ℕ → Text → Text → Text → JsonObject → Exec (Gateway F) Reply
  dispatch now token owner operation arguments = do
    sync_clock now
    λ g.
        if text_eq operation (codes "protocol_version")
        then (ok (version 1), g)
        else if text_eq operation (codes "list_resources")
        then list_resources g
        else if text_eq operation (codes "open_resource")
        then open_resource token owner arguments g
        else on_session owner operation arguments g

  -- The entry of a forced close.
  abbrev pub forced_entry : WorldSnapshot F → Entry F
  forced_entry state = record (plain_entry (codes "close") state state) {
    cleanup_source = some (codes "forced");
  }

  abbrev pub without : Text → Gateway F → Gateway F
  without session_id g = record g { sessions = remove session_id g.sessions }

  -- The loop of `_force_close_owner` over the leaked sessions.
  unfoldable pub force_close : Dict Session → Exec (Gateway F) (Unit {0})
  force_close [] g = (ok tt, g)
  force_close ((session_id, session) ∷ leaked) g =
      let state = world_snapshot g in
      let (result, g') = record_session session_id session.resource state (forced_entry state) g in
      let rest = force_close leaked (without session_id g') in
      elim result [ ok u ↦ rest | err e ↦ (err e, g') ]

  -- `_force_close_owner`
  unfoldable pub force_close_owner : Text → Exec (Gateway F) (Unit {0})
  force_close_owner owner g = force_close (select (λ e. text_eq e.1.owner owner) g.sessions) g
