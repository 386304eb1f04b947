-- ===== src/Remote/Outcome.antt =====
-- What a call of the broker returns or raises, and methods that change a state.
use instrument_benchmark_eva.Prelude.{Bool, ◌≡◌, refl, ◌⊎◌, inl, inr, if◌then◌else◌}
use instrument_benchmark_eva.Prelude.Text.{Text}
use instrument_benchmark_eva.Prelude.Decimal.{ℤ}

-- The exceptions that `dispatch` tells apart.
pub data Raised : Type 0 where
  -- `CandidateRequestError`, with its kind, code and message
  request_error : Text → ℤ → Text → Raised
  -- `errors.VisaIOError` and `CommandRejected`, with the code
  visa_error : ℤ → Raised
  command_rejected : ℤ → Raised
  -- `ResourceQueryRejected`, with the reason and the code
  query_rejected : Text → ℤ → Raised
  -- `TypeError`, `ValueError` and `KeyError`
  invalid_arguments : Raised
  -- any other exception, by the name of its class
  trusted_failure : Text → Raised

pub data Outcome (A : Type 0) : Type 0 where
  done : A → Outcome A
  raised : Raised → Outcome A

pub Outcome-cases :
    {A : Type 0} (o : Outcome A) → ((a : A) × (o ≡ done a)) ⊎ ((e : Raised) × (o ≡ raised e))
Outcome-cases (done a) = inl (a, refl)
Outcome-cases (raised e) = inr (e, refl)

-- A method of a state.
abbrev pub Act : Type 0 → Type 0 → Type 0
Act S A = S → Outcome A × S

module _ {S A : Type 0} where
  abbrev pub pure : A → Act S A
  pure a s = (done a, s)

  abbrev pub raise : Raised → Act S A
  raise e s = (raised e, s)

  abbrev pub lift : Outcome A → Act S A
  lift o s = (o, s)

  abbrev pub gets : (S → A) → Act S A
  gets f s = (done (f s), s)

module _ {S : Type 0} where
  abbrev pub modify : (S → S) → Act S (Unit {0})
  modify f s = (done tt, f s)

  abbrev pub raise_if : Bool → Raised → Act S (Unit {0})
  raise_if c e s = (if c then raised e else done tt, s)

module _ {S A B : Type 0} where
  infixl 5 ◌>>=◌ ◌>>◌
  abbrev pub ◌>>=◌ : Act S A → (A → Act S B) → Act S B
  ◌>>=◌ m f s = let (o, s') = m s in elim o [ done a ↦ f a s' | raised e ↦ (raised e, s') ]

  abbrev pub ◌>>◌ : Act S A → Act S B → Act S B
  m >> k = m >>= λ _. k
