-- ===== src/Remote/Broker.antt =====
-- The state of `RemoteVisaBroker` beside one connection, and what it appends to the journal.
use instrument_benchmark_eva.Prelude.{
  ℕ, Bool, true, false, not, ◌&&◌, Option, none, some, List, [], ◌∷◌, ◌++◌, all, map,
}
use instrument_benchmark_eva.Prelude.Text.{Text, codes, contains}
use instrument_benchmark_eva.Prelude.Decimal.{ℤ}
use instrument_benchmark_eva.Prelude.Dict.{Dict, find, put}
use instrument_benchmark_eva.Liftout.Value.{text, Entries, no_entries}
use instrument_benchmark_eva.Remote.Outcome.{
  request_error, done, Outcome, Act, pure, modify, raise, raise_if, ◌>>◌,
}
use instrument_benchmark_eva.Remote.Wire.{Wire, wire_str, Runtime, field, audit_token}

-- `pyvisa.constants`: the codes that the broker names, and which numbers are members of the
-- enumerations.
pub record Constants : Type 0 where
  pub invalid_object : ℤ
  pub nonsupported_operation : ℤ
  pub resource_not_found : ℤ
  pub is_access_mode : ℤ → Bool
  pub is_attribute : ℤ → Bool
  pub is_event_type : ℤ → Bool
  pub is_event_mechanism : ℤ → Bool

-- An event of the journal: its kind and its fields. The number, the time and the hashes that
-- journal.py adds are a function of its place.
pub record Event (F : Type 0) : Type 0 where
  pub kind : Text
  pub fields : Entries F

-- The hooks of `BenchContext`, which the library runs during a call. Each appends an event of its
-- own to the broker's journal.
pub data Hook : Type 0 where
  hook_before hook_native hook_dynamic hook_after hook_error : Hook

abbrev pub hook_kind : Hook → Text
hook_kind hook_before = codes "hook.before"
hook_kind hook_native = codes "hook.native"
hook_kind hook_dynamic = codes "hook.dynamic"
hook_kind hook_after = codes "hook.after"
hook_kind hook_error = codes "hook.error"

pub record HookEvent (F : Type 0) : Type 0 where
  pub hook : Hook
  pub fields : Entries F

-- The event that a hook appends.
unfoldable pub hook_event : {F : Type 0} → HookEvent F → Event F
hook_event e = record { kind = hook_kind e.hook; fields = e.fields }

-- A method of the library: what it returns or raises, the state it leaves, and what the hooks
-- recorded meanwhile.
abbrev pub Method : Type 0 → Type 0 → Type 0 → Type 0
Method L F A = L → Outcome A × (L × List (HookEvent F))

-- The VISA library and the bench behind it, with their own state `L`.
pub record Library (L F : Type 0) : Type 0 where
  pub open_default_resource_manager : Method L F (ℤ × ℤ)
  pub list_resources : L → List Text
  pub open_resource : ℤ → Text → ℤ → ℤ → Method L F (ℤ × ℤ)
  pub close : ℤ → Method L F ℤ
  pub read : ℤ → ℤ → Method L F (Text × ℤ)
  -- `write` inside `session_context(digest)`
  pub write : Text → ℤ → Text → Method L F (ℤ × ℤ)
  -- the value is none where it is of no wire type
  pub get_attribute : ℤ → ℤ → Method L F (Option (Wire F) × ℤ)
  pub set_attribute : ℤ → ℤ → Wire F → Method L F ℤ
  pub disable_event : ℤ → ℤ → ℤ → Method L F (Unit {0})
  pub discard_events : ℤ → ℤ → ℤ → Method L F (Unit {0})

pub record RemoteSession : Type 0 where
  pub real_session : ℤ
  pub session_kind : Text

-- `ConnectionState`, without the socket
pub record ConnectionState : Type 0 where
  pub connection_id : Text
  pub peer_uid : ℕ
  pub sessions : Dict RemoteSession
  pub request_count : ℕ
  pub closed : Bool

-- The limits that `__init__` takes.
pub record Limits : Type 0 where
  pub max_requests_per_connection : ℕ
  pub max_total_requests : ℕ
  pub max_total_argument_bytes : ℕ

-- The broker with the connection that a request comes from.
pub record Broker (L F : Type 0) : Type 0 where
  pub library : L
  pub journal : List (Event F)
  pub state : ConnectionState
  pub request_count : ℕ
  pub argument_bytes : ℕ
  pub leaked_session_count : ℕ
  pub fatal_error : Option Text

module _ {F : Type 0} where
  abbrev pub parent_field : ⦃r : Runtime F⦄ → Option Text → Entries F → Entries F
  parent_field none es = es
  parent_field (some t) es = field (codes "parent_session") (audit_token (some (wire_str t))) es

  abbrev pub name_field : Option Text → Entries F
  name_field none = no_entries
  name_field (some t) = field (codes "resource_name") (text t) no_entries

module _ {L F : Type 0} where
  -- `self.journal.append(kind, ...)`
  abbrev pub note : Text → Entries F → Act (Broker L F) (Unit {0})
  note kind fields =
      modify
        (λ b. record b { journal = b.journal ++ (record { kind = kind; fields = fields } ∷ []) })

  -- An event of the connection.
  unfoldable pub note_on : Text → Entries F → Act (Broker L F) (Unit {0})
  note_on kind fields b =
      note kind (field (codes "connection_id") (text b.state.connection_id) fields) b

  -- A call of the library.
  unfoldable pub call : {A : Type 0} → Method L F A → Act (Broker L F) A
  unfolding hook_event
  call m b =
      let (o, (l, hooks)) = m b.library in
      (o, record b { library = l; journal = b.journal ++ map hook_event hooks })

  abbrev pub update_sessions : (Dict RemoteSession → Dict RemoteSession) → Broker L F → Broker L F
  update_sessions f b = record b { state = record b.state { sessions = f b.state.sessions } }

  -- A token that names no session of the connection.
  unfoldable pub refuse_session :
      ⦃r : Runtime F⦄ → ⦃c : Constants⦄ → Option (Wire F) → Act (Broker L F) (Text × ℤ)
  unfolding audit_token note_on
  refuse_session ⦃c = c⦄ given =
      note_on (codes "session.invalid_access")
        (field (codes "session") (audit_token given) no_entries)
      >> raise (request_error (codes "invalid_session") c.invalid_object (codes "invalid session"))

  unfoldable pub session_of :
      ⦃r : Runtime F⦄ → ⦃c : Constants⦄ → Option (Wire F) → Act (Broker L F) (Text × ℤ)
  unfolding find refuse_session
  session_of (some (wire_str token)) b = elim (find token b.state.sessions) [
    | none ↦ refuse_session (some (wire_str token)) b
    | some remote ↦ (done (token, remote.real_session), b)
  ]
  session_of given b = refuse_session given b

  -- `_session`
  unfoldable pub session :
      ⦃r : Runtime F⦄ → ⦃c : Constants⦄ → Dict (Wire F) → Act (Broker L F) (Text × ℤ)
  unfolding find session_of
  session args = session_of (find (codes "session") args)

  -- `_token`, given the token that `secrets.token_urlsafe` draws
  unfoldable pub new_token :
      ⦃r : Runtime F⦄ → Text → ℤ → Text → Option Text → Option Text → Act (Broker L F) Text
  unfolding put audit_token note_on
  new_token token real kind parent resource_name = do
    modify (update_sessions (put token (record { real_session = real; session_kind = kind })))
    note_on (codes "session.open") (
        field (codes "session") (audit_token (some (wire_str token))) (
          field (codes "session_kind") (text kind)
            (parent_field parent (name_field resource_name))))
    pure token

  -- `_exact`
  unfoldable pub exact : ⦃c : Constants⦄ → List Text → Dict (Wire F) → Act (Broker L F) (Unit {0})
  unfolding contains find
  exact ⦃c = c⦄ keys args =
      raise_if
        (not (
          all (λ (k, _). contains k keys) args
          && all (λ k. elim (find k args) [ none ↦ false | some w ↦ true ]) keys))
        (request_error (codes "invalid_arguments") c.invalid_object (codes "invalid arguments"))
