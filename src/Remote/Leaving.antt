-- ===== src/Remote/Leaving.antt =====
-- What the end of a connection leaves.
use instrument_benchmark_eva.Prelude.{ℕ, ◌+◌, ◌≡◌, true, List, [], ◌∷◌, length, if◌then◌else◌}
use instrument_benchmark_eva.Prelude.Text.{Text, codes, text_eq}
use instrument_benchmark_eva.Prelude.Decimal.{ℤ, pos}
use instrument_benchmark_eva.Liftout.Value.{integer, no_entries}
use instrument_benchmark_eva.Remote.Outcome.{Outcome, done, pure, modify, ◌>>◌}
use instrument_benchmark_eva.Remote.Wire.{Runtime, field}
use instrument_benchmark_eva.Remote.Broker.{Constants, Library, Limits, Event, Broker, note_on}
use instrument_benchmark_eva.Remote.Dispatch.{disconnect}

-- How many sessions were cleaned up by force.
pub cleanups : {F : Type 0} → List (Event F) → ℕ
cleanups [] = 0
cleanups (e ∷ es) =
    let rest = cleanups es in
    if text_eq e.kind (codes "session.forced_cleanup") then rest + 1 else rest

-- The library closes whatever session it is asked to close.
unfoldable pub Closes : {L F : Type 0} → Library L F → Type 0
Closes {L = L} lib = (real : ℤ) (s : L) → (status : ℤ) × ((lib.close real s).0 ≡ done status)

module _ {L F : Type 0} ⦃r : Runtime F⦄ ⦃c : Constants⦄ ⦃lib : Library L F⦄ ⦃l : Limits⦄ where
  -- What closing some sessions leaves.
  record IsClosed (n : ℕ) (b : Broker L F) (x : Outcome (Unit {0}) × Broker L F) : Type 0 where
    returned : x.0 ≡ done tt
    state : x.1.state ≡ b.state
    leaked : x.1.leaked_session_count ≡ b.leaked_session_count
    counted : cleanups x.1.journal ≡ cleanups b.journal + n

  -- What `disconnect` does once the sessions are closed.
  abbrev finish : ℕ → Outcome (Unit {0}) × Broker L F → Outcome ℕ × Broker L F
  finish leaked x =
      ((λ b. x)
          >> modify (λ (b' : Broker L F). record b' {
            state = record b'.state { sessions = []; closed = true };
            leaked_session_count = b'.leaked_session_count + leaked;
          })
          >> note_on (codes "connection.close")
              (field (codes "leaked_sessions") (integer (pos leaked)) no_entries)
          >> pure leaked)
        x.1

  -- What the end of a connection leaves.
  pub record IsLeft (b : Broker L F) (x : Outcome ℕ × Broker L F) : Type 0 where
    returned : x.0 ≡ done (length b.state.sessions)
    sessions : x.1.state.sessions ≡ []
    closed : x.1.state.closed ≡ true
    leaked : x.1.leaked_session_count ≡ b.leaked_session_count + length b.state.sessions
    recorded : cleanups x.1.journal ≡ cleanups b.journal + length b.state.sessions
    again : disconnect x.1 ≡ (done 0, x.1)
