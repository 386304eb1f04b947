-- ===== src/Gateway/Session.antt =====
-- `_Session`, the state of `GatewayServer`, and the checks of request arguments.
use mathlib.Core.List.{reverse}
use instrument_benchmark_eva.Prelude.{
  ℕ, Bool, true, ◌||◌, Option, none, some, [], ◌∷◌, ◌++◌, length, ltb, if◌then◌else◌, Exec, Result,
  ok, err, operation_error, type_error, gets, modify, ◌>>=◌,
}
use instrument_benchmark_eva.Prelude.Text.{Text, codes, text_eq, contains, starts_with}
use instrument_benchmark_eva.Prelude.Dict.{Dict, find, put}
use instrument_benchmark_eva.Prelude.Decimal.{ℤ, pos, str_ℤ}
use instrument_benchmark_eva.World.Data.{WorldSnapshot, snapshot}
use instrument_benchmark_eva.Instruments.Rack.{Rack, role_for}
use instrument_benchmark_eva.Evidence.Journal.{Runtime, Journal, Entry, append}

-- A timeout in milliseconds: the code's check lets True through, which is an integer there.
pub data Timeout : Type 0 where
  milliseconds : ℤ → Timeout
  true_timeout : Timeout

pub record Session : Type 0 where
  pub owner : Text
  pub resource : Text
  pub timeout_ms : Timeout
  pub read_termination : Option Text
  pub write_termination : Option Text
  pub pending : Option Text

-- A session with the defaults of the class.
abbrev pub new_session : Text → Text → Session
new_session owner resource = record {
  owner = owner;
  resource = resource;
  timeout_ms = milliseconds (pos 5000);
  read_termination = none;
  write_termination = none;
  pending = none;
}

pub record Gateway (F : Type 0) : Type 0 where
  pub rack : Rack F
  pub journal : Journal F
  pub sessions : Dict Session
  pub last_clock_sync_ns : ℕ

-- A value of the arguments of a request.
pub data Json : Type 0 where
  json_null : Json
  json_text : Text → Json
  json_int : ℤ → Json
  json_bool : Bool → Json
  json_float : Json
  -- a list or an object, which no dictionary can be asked for
  json_container : Json

abbrev pub JsonObject : Type 0
JsonObject = Dict Json

abbrev pub invalid_argument : Text
invalid_argument = codes "invalid_argument"

-- `_required_str`
unfoldable pub required_str : JsonObject → Text → Result Text
required_str arguments key = elim (find key arguments) [
  | some (json_text (c ∷ t)) ↦ ok (c ∷ t)
  | _ ↦ err (operation_error invalid_argument (key ++ codes " is required"))
]

-- `_termination`
unfoldable pub termination : JsonObject → Result (Option Text)
termination arguments =
    let refused = err (
      operation_error invalid_argument
        (codes "termination must be LF, CR, CRLF, newline, carriage return, or both")) in
    elim (find (codes "termination") arguments) [
      | none ↦ ok none
      | some json_null ↦ ok none
      | some (json_text t) ↦
          if contains t (codes "LF" ∷ (10 ∷ []) ∷ [])
          then ok (some (10 ∷ []))
          else if contains t (codes "CR" ∷ (13 ∷ []) ∷ [])
          then ok (some (13 ∷ []))
          else if contains t (codes "CRLF" ∷ (13 ∷ 10 ∷ []) ∷ [])
          then ok (some (13 ∷ 10 ∷ []))
          else refused
      | some json_container ↦ err type_error
      | _ ↦ refused
    ]

-- `str(timeout_ms)`
unfoldable pub str_timeout : Timeout → Text
unfolding str_ℤ
str_timeout (milliseconds n) = str_ℤ n
str_timeout true_timeout = codes "True"

-- The timeout of `set_timeout`.
unfoldable pub timeout : JsonObject → Result Timeout
timeout arguments =
    let refused =
      err (operation_error invalid_argument (codes "timeout_ms must be between 1 and 120000")) in
    elim (find (codes "timeout_ms") arguments) [
      | some (json_int (pos n)) ↦
          if ltb n 1 || ltb 120000 n then refused else ok (milliseconds (pos n))
      | some (json_bool true) ↦ ok true_timeout
      | _ ↦ refused
    ]

-- `_decode_payload`, given the strict base64 decoder
unfoldable pub decode_payload : (Text → Option Text) → JsonObject → Result Text
decode_payload unbase64 arguments = elim (find (codes "payload_b64") arguments) [
  | some (json_text t) ↦ elim (unbase64 t) [
    | none ↦ err (operation_error invalid_argument (codes "payload_b64 is invalid"))
    | some payload ↦
        if ltb 262144 (length payload)
        then err
            (operation_error (codes "payload_too_large") (codes "payload exceeds 262144 bytes"))
        else ok payload
  ]
  | _ ↦ err (operation_error invalid_argument (codes "payload_b64 is required"))
]

-- `payload.endswith(ending)`
abbrev pub ends_with : Text → Text → Bool
ends_with payload ending = starts_with (reverse payload) (reverse ending)

-- The payload that a session sends: with its write termination, which is added once.
unfoldable pub terminated : Session → Text → Text
terminated session payload = elim session.write_termination [
  | none ↦ payload
  | some ending ↦ if ends_with payload ending then payload else payload ++ ending
]

-- `_owned_session`
unfoldable pub owned_session : Text → Text → Dict Session → Result Session
owned_session owner session_id sessions =
    let refused =
      err (operation_error (codes "invalid_session") (codes "invalid or foreign session")) in
    elim (find session_id sessions) [
      | none ↦ refused
      | some session ↦ if text_eq session.owner owner then ok session else refused
    ]

-- `str(value).encode()` of a termination
unfoldable pub show_termination : Option Text → Text
show_termination none = codes "None"
show_termination (some t) = t

module _ {F : Type 0} where
  -- A step of the rack.
  abbrev pub on_rack : {A : Type 0} → Exec (Rack F) A → Exec (Gateway F) A
  on_rack m g = let (r, rack) = m g.rack in (r, record g { rack = rack })

  abbrev pub world_snapshot : Gateway F → WorldSnapshot F
  world_snapshot g = snapshot g.rack.world

  abbrev pub set_session : Text → Session → Gateway F → Gateway F
  set_session session_id session g = record g { sessions = put session_id session g.sessions }

module _ {F : Type 0} ⦃rt : Runtime F⦄ where
  -- `self.journal.append(…)`
  abbrev pub journal_append : Entry F → Exec (Gateway F) (Unit {0})
  journal_append e = modify (λ g. record g { journal = append e g.journal })

  -- `_record_session`: an entry that says what the operation did, completed with the session.
  unfoldable pub record_session :
      Text → Text → WorldSnapshot F → Entry F → Exec (Gateway F) (Unit {0})
  record_session session_id resource before entry = do
    after ← gets world_snapshot
    role ← on_rack (role_for resource)
    journal_append (record entry {
      state_before = before;
      state_after = after;
      session = some session_id;
      resource = some resource;
      role = some role;
    })
