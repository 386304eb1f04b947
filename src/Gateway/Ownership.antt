-- ===== src/Gateway/Ownership.antt =====
-- What a request cannot do: touch the session of another client.
use instrument_benchmark_eva.Prelude.{ℕ, inl, inr, Bool-cases, ◌≡◌, false, some, arith, ok}
use instrument_benchmark_eva.Prelude.Text.{Text, text_eq, text_eq→eq}
use instrument_benchmark_eva.Prelude.Dict.{find, find-put, find-remove}
use instrument_benchmark_eva.Host.{Host}
use instrument_benchmark_eva.Evidence.Journal.{Runtime}
use instrument_benchmark_eva.Gateway.Session.{Session, Gateway, JsonObject, owned_session}
use instrument_benchmark_eva.Gateway.Steps.{Edits, session_operation-R, dispatch-R}
use instrument_benchmark_eva.Gateway.Server.{dispatch}

module _ {F : Type 0} ⦃rt : Runtime F⦄ where
  -- If the session is there before, it is there after, unchanged.
  abbrev pub KeepsSession : Text → Session → Gateway F → Gateway F → Type 0
  KeepsSession j s g g' = find j g.sessions ≡ some s → find j g'.sessions ≡ some s

  KeepsSession-Edits :
      (sid j : Text) (s : Session) → text_eq sid j ≡ false → Edits (KeepsSession j s) sid
  KeepsSession-Edits sid j s other = record {
    stay = λ g p. p;
    chain = λ u v w p q r. q (p r);
    rack_edit = λ g r p. p;
    clock_edit = λ g n p. p;
    journal_edit = λ g e p. p;
    session_edit = λ g t p. ground (arith, find-put sid j t g.sessions);
    session_end = λ g p. ground (arith, find-remove sid j g.sessions);
  }

  -- A session that the lookup grants to a client is its own, so it is not one of another client.
  owned_session-other :
      (owner sid j : Text) (session other : Session) (g : Gateway F)
      → owned_session owner sid g.sessions ≡ ok session
      → find j g.sessions ≡ some other
      → text_eq other.owner owner ≡ false
      → text_eq sid j ≡ false
  unfolding owned_session
  owned_session-other owner sid j session other g granted kept foreign =
      elim (Bool-cases (text_eq sid j)) [ inr e ↦ e | inl e ↦ ground (arith, text_eq→eq sid j e) ]

  -- A request, refused or not, leaves every session of another client as it was, as long as the
  -- token drawn for a new session is not the name of that session.
  pub dispatch_keeps_foreign :
      ⦃h : Host F⦄
      → (now : ℕ) (token owner operation : Text) (arguments : JsonObject) (g : Gateway F) (j : Text)
        (other : Session)
      → find j g.sessions ≡ some other
      → text_eq other.owner owner ≡ false
      → text_eq token j ≡ false
      → find j (dispatch now token owner operation arguments g).1.sessions ≡ some other
  dispatch_keeps_foreign now token owner operation arguments g j other kept foreign fresh =
      dispatch-R (KeepsSession j other) token (KeepsSession-Edits token j other fresh) now owner
        operation arguments
        (λ sid session g granted still.
          (session_operation-R (KeepsSession j other) sid
              (KeepsSession-Edits sid j other
                (owned_session-other owner sid j session other g granted still foreign))
              session _ operation arguments).moves
            g still)
        g kept
