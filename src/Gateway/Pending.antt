-- ===== src/Gateway/Pending.antt =====
-- A session holds one response at a time.
use instrument_benchmark_eva.Prelude.{
  ◌≡◌, ◌↔◌, Option, none, some, Result, ok, err, command_error, key_error,
}
use instrument_benchmark_eva.Prelude.Text.{Text}
use instrument_benchmark_eva.Host.{Host}
use instrument_benchmark_eva.World.Data.{WorldSnapshot}
use instrument_benchmark_eva.Instruments.Rack.{Rack}
use instrument_benchmark_eva.Evidence.Journal.{Runtime, Journal, Entry, append}
use instrument_benchmark_eva.Gateway.Session.{Session, Gateway}
use instrument_benchmark_eva.Gateway.Server.{Reply, taken_write, refused_write}

-- What the instrument did goes unrecorded: it answered while a response is held, or it raised an
-- exception that the server does not catch.
abbrev pub IsUnrecorded : Option Text → Result (Option Text) → Type 0
IsUnrecorded held (ok none) = ⊥
IsUnrecorded none (ok (some response)) = ⊥
IsUnrecorded (some t) (ok (some response)) = Unit
IsUnrecorded held (err (command_error t)) = ⊥
IsUnrecorded held (err key_error) = ⊥
IsUnrecorded held (err e) = Unit

module _ {F : Type 0} ⦃rt : Runtime F⦄ where
  -- The gateway after a record of the session.
  Recorded : Result Reply × Gateway F → Rack F → Journal F → Type 0
  Recorded x rack j = (x.1.rack ≡ rack) × ((e : Entry F) × (x.1.journal ≡ append e j))

  module _ (sid : Text) (session : Session) (before : WorldSnapshot F) (sent : Text) where
    -- What follows the write on the rack.
    abbrev conclude : Result (Option Text) × Rack F → Gateway F → Result Reply × Gateway F
    conclude x g = elim x.0 [
      | ok response ↦ taken_write sid session before sent response (record g { rack = x.1 })
      | err e ↦ refused_write sid session before sent e (record g { rack = x.1 })
    ]

    -- The rack is the one that the write left, and the journal is the same exactly where `U` holds.
    abbrev Concluded : Type 0 → Rack F → Journal F → Result Reply × Gateway F → Type 0
    Concluded U rack j x = (x.1.rack ≡ rack) × ((x.1.journal ≡ j) ↔ U)
