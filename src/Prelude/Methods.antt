-- ===== src/Prelude/Methods.antt =====
-- Methods that mutate an object and may raise. What was written before a raise stays written, so
-- the state comes back beside the exception too.
use Prim.Native.Nat.{ℕ}
use mathlib.Core.Path.{◌≡◌, refl}
use mathlib.Core.Logic.{◌⊎◌, inl, inr}
use mathlib.Core.Bool.{Bool}
use mathlib.Core.List.{List}
use mathlib.Core.Option.{Option, none, some}
use instrument_benchmark_eva.Prelude.Tests.{if◌then◌else◌}

-- An exception by its class, with the text that `str(exc)` shows where the program reads it.
pub data Exception : Type 0 where
  command_error value_error state_error : List ℕ → Exception
  -- an operation that the gateway refuses, with its code and its message
  operation_error : List ℕ → List ℕ → Exception
  type_error key_error index_error overflow_error runtime_error : Exception

pub data Result {ℓ} (A : Type ℓ) : Type ℓ where
  ok : A → Result A
  err : Exception → Result A

abbrev pub Exec {ℓ κ} : Type ℓ → Type κ → Type (ℓ ⊔ κ)
Exec S A = S → Result A × S

module _ {ℓ κ} {S : Type ℓ} {A : Type κ} where
  abbrev pub pure : A → Exec S A
  pure a s = (ok a, s)

  abbrev pub raise : Exception → Exec S A
  raise e s = (err e, s)

  abbrev pub lift : Result A → Exec S A
  lift r s = (r, s)

  abbrev pub gets : (S → A) → Exec S A
  gets f s = (ok (f s), s)

  abbrev pub or_raise : Option A → Exception → Exec S A
  or_raise none e s = (err e, s)
  or_raise (some a) e s = (ok a, s)

module _ {ℓ} {S : Type ℓ} where
  abbrev pub modify : (S → S) → Exec S (Unit {0})
  modify f s = (ok tt, f s)

  -- `if c: m`
  abbrev pub when : Bool → Exec S (Unit {0}) → Exec S (Unit {0})
  when c m s = if c then m s else (ok tt, s)

  abbrev pub raise_if : Bool → Exception → Exec S (Unit {0})
  raise_if c e s = (if c then err e else ok tt, s)

module _ {ℓ κ μ} {S : Type ℓ} {A : Type κ} {B : Type μ} where
  infixl 5 ◌>>=◌ ◌>>◌
  abbrev pub ◌>>=◌ : Exec S A → (A → Exec S B) → Exec S B
  ◌>>=◌ m f s = let (r, s') = m s in elim r [ ok a ↦ f a s' | err e ↦ (err e, s') ]

  -- `try: a = m` with what follows a result and what follows an exception
  abbrev pub attempt : Exec S A → (A → Exec S B) → (Exception → Exec S B) → Exec S B
  attempt m f handler s = let (r, s') = m s in elim r [ ok a ↦ f a s' | err e ↦ handler e s' ]

  abbrev pub ◌>>◌ : Exec S A → Exec S B → Exec S B
  m >> k = m >>= λ _. k

pub Result-cases {ℓ} :
    {A : Type ℓ} (r : Result A) → ((a : A) × (r ≡ ok a)) ⊎ ((e : Exception) × (r ≡ err e))
Result-cases (ok a) = inl (a, refl)
Result-cases (err e) = inr (e, refl)
