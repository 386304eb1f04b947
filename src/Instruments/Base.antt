-- ===== src/Instruments/Base.antt =====
-- `InstrumentModel`: the commands that every instrument answers, and its error queue.
use instrument_benchmark_eva.Prelude.{
  Option, none, some, List, [], ◌∷◌, ◌++◌, all, leb, if◌then◌else◌, Exec, Result, ok, err,
  command_error, value_error, state_error, raise,
}
use instrument_benchmark_eva.Prelude.Text.{Text, codes, text_eq, strip, upper}
use instrument_benchmark_eva.Prelude.Decimal.{ℤ, negsuc, str_ℤ}
use instrument_benchmark_eva.Host.{Host}
use instrument_benchmark_eva.World.Data.{World, SemanticAction}
use instrument_benchmark_eva.World.Apply.{apply}

-- The attributes of one model, and the world that all models share.
pub record Seat (M F : Type 0) : Type 0 where
  pub model : M
  pub world : World F

-- A model with the error queue of its base class.
pub record Device (M F : Type 0) : Type 0 where
  pub errors : List (ℤ × Text)
  pub seat : Seat M F

abbrev pub ErrorQueue : Type 0
ErrorQueue = List (ℤ × Text)

-- What a subclass defines.
pub record Instrument (M F : Type 0) : Type 0 where
  pub identity : Text
  pub handle : Text → Exec (Seat M F) (Option Text)
  pub reset : Exec (Seat M F) (Unit {0})

-- `text + "\n"`, as ASCII bytes
abbrev pub line : Text → Text
line t = t ++ (10 ∷ [])

module _ {M F : Type 0} where
  -- `self.attribute = …`
  abbrev pub assign : (M → M) → Exec (Seat M F) (Unit {0})
  assign f s = (ok tt, record s { model = f s.model })

  abbrev pub observe : {A : Type 0} → Exec (World F) A → Exec (Seat M F) A
  observe m s = let (r, w) = m s.world in (r, record s { world = w })

  -- `InstrumentModel.handle`
  abbrev pub undefined_header : Text → Exec (Seat M F) (Option Text)
  undefined_header text = raise (command_error (codes "undefined header: " ++ text))

  -- `self.world.apply(…)`
  unfoldable pub act : ⦃h : Host F⦄ → SemanticAction F → Exec (Seat M F) (Unit {0})
  act action = observe (apply action)

-- A reply to SYST:ERR?
unfoldable pub error_reply : ℤ × Text → Text
unfolding str_ℤ
error_reply (number, message) = line (str_ℤ number ++ (b',' ∷ 34 ∷ (message ++ (34 ∷ []))))

abbrev pub execution_error : ℤ
execution_error = negsuc 112

abbrev pub invalid_character : ℤ
invalid_character = negsuc 100

module _ {M F : Type 0} where
  -- The `except` clause of `exchange`: three classes are queued and raised as `CommandError`.
  unfoldable pub queue_error :
      ErrorQueue → Result (Option Text) × Seat M F → Result (Option Text) × Device M F
  queue_error errors (ok reply, seat) = (ok reply, record { errors = errors; seat = seat })
  queue_error errors (err (command_error t), seat) = (
    err (command_error t),
    record { errors = errors ++ ((execution_error, t) ∷ []); seat = seat },
  )
  queue_error errors (err (value_error t), seat) = (
    err (command_error t),
    record { errors = errors ++ ((execution_error, t) ∷ []); seat = seat },
  )
  queue_error errors (err (state_error t), seat) = (
    err (command_error t),
    record { errors = errors ++ ((execution_error, t) ∷ []); seat = seat },
  )
  queue_error errors (err e, seat) = (err e, record { errors = errors; seat = seat })

  -- SYST:ERR? takes the oldest error off the queue.
  unfoldable pub next_error : Exec (Device M F) (Option Text)
  next_error d = elim d.errors [
    | [] ↦ (ok (some (line (codes "0,\"No error\""))), d)
    | e ∷ rest ↦ (ok (some (error_reply e)), record d { errors = rest })
  ]

module _ {M F : Type 0} (i : Instrument M F) where
  -- *RST: what `reset` raises is not queued.
  unfoldable pub run_reset : Exec (Device M F) (Option Text)
  run_reset d =
      let (r, seat) = i.reset d.seat in
      (elim r [ ok _ ↦ ok none | err e ↦ err e ], record d { seat = seat })

  unfoldable pub exchange_text : Text → Exec (Device M F) (Option Text)
  exchange_text text d =
      let command = upper text in
      if text_eq command (codes "*IDN?")
      then (ok (some (line i.identity)), d)
      else if text_eq command (codes "*CLS")
      then (ok none, record d { errors = [] })
      else if text_eq command (codes "*RST")
      then run_reset d
      else if text_eq command (codes "SYST:ERR?")
      then next_error d
      else queue_error d.errors (i.handle text d.seat)

  -- `InstrumentModel.exchange`
  unfoldable pub exchange : Text → Exec (Device M F) (Option Text)
  exchange command d = if all (λ c. leb c 127) command then exchange_text (strip command) d else (
    err (command_error (codes "command must be ASCII")),
    record d { errors = d.errors ++ ((invalid_character, codes "Invalid character") ∷ []) },
  )
