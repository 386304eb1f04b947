-- ===== src/Gateway/Tests.antt =====
-- The gateway's theorems at requests of two clients.
use instrument_benchmark_eva.Prelude.{false, ◌↔◌, ℕ, ◌≡◌, refl, ok, some, [], ◌∷◌}
use instrument_benchmark_eva.Prelude.Text.{Text, codes, text_eq, upper, strip}
use instrument_benchmark_eva.Prelude.Dict.{find}
use instrument_benchmark_eva.Prelude.Decimal.{pos}
use instrument_benchmark_eva.Host.Sample.{whole}
use instrument_benchmark_eva.Instruments.Base.{exchange, exchange_text, next_error}
use instrument_benchmark_eva.Instruments.Rack.{
  write, role_for, is_transient, exchange_target, exchange_part,
}
use instrument_benchmark_eva.Instruments.Tests.{rack}
use instrument_benchmark_eva.Gateway.Pending.{IsUnrecorded}
use instrument_benchmark_eva.Evidence.Journal.{Runtime}
use instrument_benchmark_eva.Gateway.Session.{Session, Gateway, JsonObject, json_text, new_session}
use instrument_benchmark_eva.Gateway.Server.{dispatch, force_close_owner}
use instrument_benchmark_eva.Gateway.Cleanup.{force_close_owner-leaves}
use instrument_benchmark_eva.Gateway.Records.{
  Grows, dispatch-Grows, IsNumbered, dispatch-IsNumbered,
}
use instrument_benchmark_eva.Gateway.Ownership.{dispatch_keeps_foreign}

instance abbrev plain_runtime : Runtime ℕ
plain_runtime = record { digest = λ t. t; state_digest = λ s. []; stamp = λ n. n; unbase64 = some }

abbrev alice_session : Session
alice_session = new_session (codes "alice") (codes "D")

abbrev gateway : Gateway ℕ
gateway = record {
  rack = rack;
  journal = record { run_id = codes "run"; world_id = codes "nominal"; events = [] };
  sessions = (codes "s1", alice_session) ∷ (codes "s2", new_session (codes "bob") (codes "P")) ∷ [];
  last_clock_sync_ns = 0;
}

abbrev write_on : Text → Text → JsonObject
write_on session payload =
    (codes "session", json_text session) ∷ (codes "payload_b64", json_text payload) ∷ []

dispatch-Grows_example :
    Grows gateway.journal
      (dispatch 5000000
        (codes "s3")
        (codes "bob")
        (codes "write")
        (write_on (codes "s2") (codes "*IDN?"))
        gateway).1.journal
dispatch-Grows_example =
    dispatch-Grows 5000000 (codes "s3") (codes "bob") (codes "write")
      (write_on (codes "s2") (codes "*IDN?")) gateway

dispatch-IsNumbered_example :
    IsNumbered
      (dispatch 5000000
        (codes "s3")
        (codes "bob")
        (codes "write")
        (write_on (codes "s2") (codes "*IDN?"))
        gateway).1.journal
dispatch-IsNumbered_example =
    dispatch-IsNumbered 5000000 (codes "s3") (codes "bob") (codes "write")
      (write_on (codes "s2") (codes "*IDN?")) gateway refl

dispatch_keeps_foreign_example :
    find
      (codes "s1")
      (dispatch 5000000
        (codes "s3")
        (codes "bob")
        (codes "close")
        (write_on (codes "s1") [])
        gateway).1.sessions
    ≡ some alice_session
dispatch_keeps_foreign_example =
    dispatch_keeps_foreign 5000000 (codes "s3") (codes "bob") (codes "close")
      (write_on (codes "s1") []) gateway (codes "s1") alice_session (unfold find text_eq in refl)
      (unfold text_eq in refl) (unfold text_eq in refl)

-- A session with a response that has not been read.
abbrev waiting : Session
waiting = record (new_session (codes "bob") (codes "P")) { pending = some (codes "1") }

-- A supply with an error to report: the query takes it off the queue.
abbrev erring : Gateway ℕ
erring = record gateway {
  rack = record rack { psu_part = record rack.psu_part { errors = (pos 1, codes "a") ∷ [] } };
}

-- It is one of the writes that the journal lacks.
erring-lost :
    ((write (codes "P") (codes "SYST:ERR?") erring.rack).1.psu_part.errors ≡ [])
    × IsUnrecorded (some (codes "1")) (write (codes "P") (codes "SYST:ERR?") erring.rack).0
unfolding write role_for is_transient find exchange_target exchange_part exchange exchange_text
    next_error text_eq upper strip
erring-lost = (refl, tt)

force_close_owner-leaves_example :
    ((force_close_owner (codes "bob") gateway).0 ≡ ok tt)
    × ((j : Text) (s : Session)
        → (find j (force_close_owner (codes "bob") gateway).1.sessions ≡ some s)
          ↔ ((find j gateway.sessions ≡ some s) × (text_eq s.owner (codes "bob") ≡ false)))
force_close_owner-leaves_example =
    force_close_owner-leaves (codes "bob") gateway
      ((codes "dmm", unfold find text_eq in refl), ((codes "psu", unfold find text_eq in refl), tt))
      (unfold text_eq in refl, (refl, tt))
