-- ===== src/Instruments/Steps.antt =====
-- What a method of an instrument does to the world that it shares: a sequence of actions.
use mathlib.Core.Path.{sym, subst}
use instrument_benchmark_eva.Prelude.{
  ◌≡◌, Bool, true, false, Option, none, some, Exec, Exception, Result, ok, err, ◌>>=◌, or_raise,
  if◌then◌else◌,
}
use instrument_benchmark_eva.Host.{Host}
use instrument_benchmark_eva.World.Data.{World, SemanticAction}
use instrument_benchmark_eva.World.Apply.{apply}
use instrument_benchmark_eva.Instruments.Base.{Seat, act, assign, observe}

-- The worlds that actions of a kind lead to from a world.
pub data Steps {F : Type 0} ⦃h : Host F⦄ (P : SemanticAction F → Type 0)
    : World F → World F → Type 0 where
  done : {w : World F} → Steps P w w
  step : {w w' : World F} (a : SemanticAction F) → P a → Steps P (apply a w).1 w' → Steps P w w'

module _ {F : Type 0} ⦃h : Host F⦄ where
  -- What every action of a kind preserves, a sequence of them preserves.
  pub Steps-preserve :
      {P : SemanticAction F → Type 0} (R : World F → Type 0)
      → ((a : SemanticAction F) (w : World F) → P a → R w → R (apply a w).1)
      → {w w' : World F} → Steps P w w'
      → R w
      → R w'
  Steps-preserve R kept done r = r
  Steps-preserve R kept (step a p q) r = Steps-preserve R kept q (kept a _ p r)

  pub Steps-weaken :
      {P Q : SemanticAction F → Type 0}
      → ((a : SemanticAction F) → P a → Q a)
      → {w w' : World F} → Steps P w w'
      → Steps Q w w'
  Steps-weaken f done = done
  Steps-weaken f (step a p q) = step a (f a p) (Steps-weaken f q)

module _ {F : Type 0} ⦃h : Host F⦄ (P : SemanticAction F → Type 0) where
  pub Steps-trans : {u v w : World F} → Steps P u v → Steps P v w → Steps P u w
  Steps-trans done q = q
  Steps-trans (step a p q) r = step a p (Steps-trans q r)

  -- Whatever the state, what a method does to the world is a sequence of such actions.
  pub record Acts {M A : Type 0} (m : Exec (Seat M F) A) : Type 0 where
    pub acts : (s : Seat M F) → Steps P s.world (m s).1.world

  module _ {M : Type 0} where
    pub act-Acts : (a : SemanticAction F) → P a → Acts {M = M} (act a)
    unfolding act
    act-Acts a p = record { acts = λ s. step a p done }

    pub assign-Acts : (f : M → M) → Acts (assign f)
    assign-Acts f = record { acts = λ s. done }

    pub gets-Acts : {A : Type 0} (f : Seat M F → Result A) → Acts {M = M} (λ s. (f s, s))
    gets-Acts f = record { acts = λ s. done }

    pub or_raise-Acts : {A : Type 0} (o : Option A) (e : Exception) → Acts {M = M} (or_raise o e)
    or_raise-Acts none e = record { acts = λ s. done }
    or_raise-Acts (some a) e = record { acts = λ s. done }

    -- A method that only reads the world takes no action.
    pub observe-Acts :
        {A : Type 0} (m : Exec (World F) A)
        → ((w : World F) → (m w).1 ≡ w)
        → Acts {M = M} (observe m)
    observe-Acts m same = record { acts = λ s. subst (Steps P s.world) (sym (same s.world)) done }

    pub if-Acts :
        {A : Type 0} (b : Bool) (m n : Exec (Seat M F) A)
        → Acts m
        → Acts n
        → Acts (λ s. if b then m s else n s)
    if-Acts true m n p q = p
    if-Acts false m n p q = q

    pub bind-Acts :
        {A B : Type 0} (m : Exec (Seat M F) A) (f : A → Exec (Seat M F) B)
        → Acts m
        → ((a : A) → Acts (f a))
        → Acts (m >>= f)
    bind-Acts {A = A} {B = B} m f p q = record { acts = λ s. go s (m s) (p.acts s) }
      where
        continue : Result A × Seat M F → Result B × Seat M F
        continue x = elim x.0 [ ok a ↦ f a x.1 | err e ↦ (err e, x.1) ]

        go :
            (s : Seat M F) (x : Result A × Seat M F)
            → Steps P s.world x.1.world
            → Steps P s.world (continue x).1.world
        go s (ok a, s') p = Steps-trans p ((q a).acts s')
        go s (err e, s') p = p

pub ruleset act_rules = (act-Acts, assign-Acts, gets-Acts, or_raise-Acts, if-Acts, bind-Acts)
