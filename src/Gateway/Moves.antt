-- ===== src/Gateway/Moves.antt =====
-- How a request moves the gateway: rules for relations between the state before and after.
use instrument_benchmark_eva.Prelude.{
  Bool, true, false, Exec, Result, ok, err, Exception, raise, attempt, ◌>>=◌, if◌then◌else◌,
}
use instrument_benchmark_eva.Instruments.Rack.{Rack}
use instrument_benchmark_eva.Gateway.Session.{Gateway, on_rack}

module _ {F : Type 0} (R : Gateway F → Gateway F → Type 0) where
  -- Whatever the state, a method moves it along the relation.
  pub record Moves {A : Type 0} (m : Exec (Gateway F) A) : Type 0 where
    pub moves : (g : Gateway F) → R g (m g).1

  module _ {A : Type 0} where
    pub gets-Moves : ((g : Gateway F) → R g g) → (f : Gateway F → Result A) → Moves (λ g. (f g, g))
    gets-Moves R_refl f = record { moves = R_refl }

    pub if-Moves :
        (b : Bool) (m n : Exec (Gateway F) A)
        → Moves m
        → Moves n
        → Moves (λ g. if b then m g else n g)
    if-Moves true m n p q = p
    if-Moves false m n p q = q

    pub on_rack-Moves :
        ((g : Gateway F) (r : Rack F) → R g (record g { rack = r }))
        → (m : Exec (Rack F) A) → Moves (on_rack m)
    on_rack-Moves kept m = record { moves = λ g. kept g (m g.rack).1 }

    pub attempt-Moves :
        {B : Type 0}
        → ((u v w : Gateway F) → R u v → R v w → R u w)
        → (m : Exec (Gateway F) A) (f : A → Exec (Gateway F) B)
          (handler : Exception → Exec (Gateway F) B)
        → Moves m
        → ((a : A) → Moves (f a))
        → ((e : Exception) → Moves (handler e))
        → Moves (attempt m f handler)
    attempt-Moves {B = B} R_trans m f handler p q q' = record {
      moves = λ g. go g (m g) (p.moves g);
    }
      where
        continue : Result A × Gateway F → Result B × Gateway F
        continue x = elim x.0 [ ok a ↦ f a x.1 | err e ↦ handler e x.1 ]

        go : (g : Gateway F) (x : Result A × Gateway F) → R g x.1 → R g (continue x).1
        go g (ok a, g') p = R_trans g g' _ p ((q a).moves g')
        go g (err e, g') p = R_trans g g' _ p ((q' e).moves g')

    pub bind-Moves :
        {B : Type 0}
        → ((g : Gateway F) → R g g)
        → ((u v w : Gateway F) → R u v → R v w → R u w)
        → (m : Exec (Gateway F) A) (f : A → Exec (Gateway F) B) → Moves m
        → ((a : A) → Moves (f a))
        → Moves (m >>= f)
    bind-Moves R_refl R_trans m f p q =
        attempt-Moves R_trans m f raise p q (λ e. record { moves = R_refl })
