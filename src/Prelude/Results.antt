-- ===== src/Prelude/Results.antt =====
-- Functions that may raise and touch no state.
use mathlib.Core.Bool.{Bool, true, false}
use mathlib.Core.Option.{Option, none, some}
use instrument_benchmark_eva.Prelude.Methods.{Exception, Result, ok, err}

infixl 5 ◌>>=◌ ◌>>◌
abbrev pub ◌>>=◌ {ℓ κ} : {A : Type ℓ} {B : Type κ} → Result A → (A → Result B) → Result B
ok a >>= f = f a
err e >>= f = err e

abbrev pub ◌>>◌ {ℓ κ} : {A : Type ℓ} {B : Type κ} → Result A → Result B → Result B
m >> k = m >>= λ _. k

-- `if not b: raise e`
abbrev pub guard : Bool → Exception → Result (Unit {0})
guard true e = ok tt
guard false e = err e

-- `d[key]`, a `KeyError` where there is none
abbrev pub or_err {ℓ} : {A : Type ℓ} → Option A → Exception → Result A
or_err none e = err e
or_err (some a) e = ok a
