-- ===== src/Instruments/Interlock.antt =====
-- What a write on the rack can do to the world: only what sequences of semantic actions can.
use instrument_benchmark_eva.Prelude.{◌≡◌, refl, true, ◌||◌, ◌∙◌, arith, inl, inr, Result-cases}
use instrument_benchmark_eva.Prelude.Text.{Text, codes}
use instrument_benchmark_eva.Host.{Host}
use instrument_benchmark_eva.World.Data.{World, SemanticAction}
use instrument_benchmark_eva.World.Apply.{apply}
use instrument_benchmark_eva.World.Interlock.{
  ClosesNothing, apply-ClosesNothing, others-ClosesNothing, apply-keeps,
}
use instrument_benchmark_eva.World.Invariant.{IsValid, apply-IsValid}
use instrument_benchmark_eva.Instruments.Base.{Seat, act}
use instrument_benchmark_eva.Instruments.Parse.{parse_routes}
use instrument_benchmark_eva.Instruments.Steps.{Steps, done, step, Steps-preserve, Steps-weaken}
use instrument_benchmark_eva.Instruments.Harmless.{
  IsHarmless, psu_handle-Acts, psu_reset-Acts, awg_handle-Acts, awg_reset-Acts, dmm_handle-Acts,
  dmm_reset-Acts, scope_handle-Acts,
}
use instrument_benchmark_eva.Instruments.Effects.{Respects, RackRespects, write-Respects}
use instrument_benchmark_eva.Instruments.Switch.{
  SwitchModel, switch, switch_handle, switch_reset, act_on_routes, switch_routes, switch_open_all,
}
use instrument_benchmark_eva.Instruments.Rack.{Rack, write}

module _ {F : Type 0} ⦃h : Host F⦄ (R : World F → World F → Type 0) (R_refl : (w : World F) → R w w)
    (R_apply : (a : SemanticAction F) (w : World F) → R w (apply a w).1) where
  act_on_routes-R :
      (kind text : Text) (s : Seat SwitchModel F) → R s.world (act_on_routes kind text s).1.world
  unfolding act_on_routes act
  act_on_routes-R kind text s = elim (Result-cases (parse_routes text)) [
    | inl (routes, e) ↦ ground (arith, R_apply (switch_routes kind routes) s.world)
    | inr (x, e) ↦ ground (arith, R_refl s.world)
  ]

  -- A command of the switch takes one action at most.
  switch-Respects : Respects R switch
  unfolding switch_handle switch_reset act
  switch-Respects = record {
    handled = λ text s. ground (
      arith,
      R_refl s.world,
      R_apply switch_open_all s.world,
      act_on_routes-R (codes "switch.close") text s,
      act_on_routes-R (codes "switch.open") text s,
    );
    cleared = λ s. R_apply switch_open_all s.world;
  }

  -- The other instruments close no route.
  rack-Respects : ((w w' : World F) → Steps IsHarmless w w' → R w w') → RackRespects R
  rack-Respects harmless = record {
    psu_ok = record {
      handled = λ t s. harmless _ _ ((psu_handle-Acts t).acts s);
      cleared = λ s. harmless _ _ (psu_reset-Acts.acts s);
    };
    switch_ok = switch-Respects;
    awg_ok = record {
      handled = λ t s. harmless _ _ ((awg_handle-Acts t).acts s);
      cleared = λ s. harmless _ _ (awg_reset-Acts.acts s);
    };
    dmm_ok = record {
      handled = λ t s. harmless _ _ ((dmm_handle-Acts t).acts s);
      cleared = λ s. harmless _ _ (dmm_reset-Acts.acts s);
    };
    scope_ok = record {
      handled = λ t s. harmless _ _ ((scope_handle-Acts t).acts s);
      cleared = λ s. R_refl s.world;
    };
  }

module _ {F : Type 0} ⦃h : Host F⦄ where
  -- Any action at all.
  abbrev pub AnyAction : SemanticAction F → Type 0
  AnyAction a = Unit {0}

  -- Whatever is written to whatever resource, and whether it raises or not, the world after is one
  -- that a sequence of semantic actions leads to.
  pub write-Steps :
      (resource payload : Text) (r : Rack F)
      → Steps AnyAction r.world (write resource payload r).1.world
  write-Steps resource payload r =
      write-Respects (Steps AnyAction) (λ w. done)
        (rack-Respects (Steps AnyAction) (λ w. done) (λ a w. step a tt done)
          (λ _ _ p. Steps-weaken (λ a q. tt) p))
        resource payload r

  -- While a source drives the bench, no write to any resource closes a route.
  pub write-ClosesNothing :
      (resource payload : Text) (r : Rack F)
      → (r.world.psu_output || r.world.awg_output) ≡ true
      → ClosesNothing r.world (write resource payload r).1.world
  write-ClosesNothing resource payload r driven =
      write-Respects R (λ w d t c. c)
        (rack-Respects R (λ w d t c. c) apply-ClosesNothing' (λ w _ p d. harmless w p)) resource
        payload r driven
    where
      R : World F → World F → Type 0
      R w w' = (w.psu_output || w.awg_output) ≡ true → ClosesNothing w w'

      apply-ClosesNothing' : (a : SemanticAction F) (w : World F) → R w (apply a w).1
      apply-ClosesNothing' a w d = apply-ClosesNothing a w d

      harmless : (w : World F) {w' : World F} → Steps IsHarmless w w' → ClosesNothing w w'
      harmless w p =
          Steps-preserve (ClosesNothing w)
            (λ a v q kept t c.
              kept t (others-ClosesNothing a v (λ e. ground (arith, q.harmless)) t c))
            p (λ t c. c)

  -- A write keeps a valid world valid.
  pub write-IsValid :
      (resource payload : Text) (r : Rack F)
      → IsValid h r.world
      → IsValid h (write resource payload r).1.world
  write-IsValid resource payload r =
      Steps-preserve (IsValid h) (λ a w q v. apply-IsValid a w v) (write-Steps resource payload r)

  -- No write moves the clock of the world.
  pub write-keeps_clock :
      (resource payload : Text) (r : Rack F)
      → ((write resource payload r).1.world.clock_ms ≡ r.world.clock_ms)
  write-keeps_clock resource payload r =
      Steps-preserve (λ w. w.clock_ms ≡ r.world.clock_ms) (λ a w q e. (apply-keeps a w).0 ∙ e)
        (write-Steps resource payload r) refl
