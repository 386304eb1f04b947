-- ===== src/Instruments/Effects.antt =====
-- From the handlers of the instruments to a write on the rack: what each handler does to the
-- world, the rack does.
use instrument_benchmark_eva.Prelude.{
  Option-cases, inl, inr, subst, sym, ◌≡◌, refl, Option, arith, Result, ok, err, command_error,
  value_error, state_error, type_error, operation_error, key_error, index_error, overflow_error,
  runtime_error,
}
use instrument_benchmark_eva.Prelude.Text.{Text, strip}
use instrument_benchmark_eva.Host.{Host}
use instrument_benchmark_eva.Prelude.Dict.{find}
use instrument_benchmark_eva.Instruments.Psu.{psu}
use instrument_benchmark_eva.Instruments.Switch.{switch}
use instrument_benchmark_eva.Instruments.Awg.{awg}
use instrument_benchmark_eva.Instruments.Dmm.{dmm}
use instrument_benchmark_eva.Instruments.Scope.{scope}
use instrument_benchmark_eva.Instruments.Rack.{
  Rack, Target, psu_target, switch_target, awg_target, scope_target, dmm_target, distractor_target,
  exchange_target, exchange_part, write, role_for, distractor, identity_of,
}
use instrument_benchmark_eva.World.Data.{World}
use instrument_benchmark_eva.Instruments.Base.{
  ErrorQueue, Seat, Device, Instrument, exchange, exchange_text, run_reset, next_error, queue_error,
}

-- Queueing an error touches neither the model nor the world.
pub queue_error-seat :
    {M F : Type 0} (q : ErrorQueue) (x : Result (Option Text) × Seat M F)
    → (queue_error q x).1.seat ≡ x.1
unfolding queue_error
queue_error-seat q (ok reply, s) = refl
queue_error-seat q (err (command_error t), s) = refl
queue_error-seat q (err (value_error t), s) = refl
queue_error-seat q (err (state_error t), s) = refl
queue_error-seat q (err (operation_error u v), s) = refl
queue_error-seat q (err type_error, s) = refl
queue_error-seat q (err key_error, s) = refl
queue_error-seat q (err index_error, s) = refl
queue_error-seat q (err overflow_error, s) = refl
queue_error-seat q (err runtime_error, s) = refl

pub next_error-seat : {M F : Type 0} (d : Device M F) → (next_error d).1.seat ≡ d.seat
unfolding next_error
next_error-seat d = ground arith

-- The handler and the reset of an instrument relate the world before to the world after.
pub record Respects {F : Type 0} (R : World F → World F → Type 0) {M : Type 0} (i : Instrument M F)
    : Type 0 where
  pub handled : (text : Text) (s : Seat M F) → R s.world (i.handle text s).1.world
  pub cleared : (s : Seat M F) → R s.world (i.reset s).1.world

module _ {F : Type 0} (R : World F → World F → Type 0) (R_refl : (w : World F) → R w w) where
  pub exchange-Respects :
      {M : Type 0} (i : Instrument M F)
      → Respects R i
      → (command : Text) (d : Device M F) → R d.seat.world (exchange i command d).1.seat.world
  unfolding exchange exchange_text run_reset
  exchange-Respects {M = M} i p command d =
      ground (arith, R_refl d.seat.world, p.cleared d.seat, asked, handled (strip command))
    where
      Q : Result (Option Text) × Device M F → Type 0
      Q x = R d.seat.world x.1.seat.world

      asked : Q (next_error d)
      asked = subst (λ s. R d.seat.world s.world) (sym (next_error-seat d)) (R_refl _)

      handled : (t : Text) → Q (queue_error d.errors (i.handle t d.seat))
      handled t =
          subst (λ s. R d.seat.world s.world) (sym (queue_error-seat d.errors (i.handle t d.seat)))
            (p.handled t d.seat)

-- Every instrument of the rack respects the relation.
pub record RackRespects {F : Type 0} ⦃h : Host F⦄ (R : World F → World F → Type 0) : Type 0 where
  pub psu_ok : Respects R psu
  pub switch_ok : Respects R switch
  pub awg_ok : Respects R awg
  pub dmm_ok : Respects R dmm
  pub scope_ok : Respects R scope

module _ {F : Type 0} ⦃h : Host F⦄ (R : World F → World F → Type 0)
    (R_refl : (w : World F) → R w w) where
  exchange_target-Respects :
      RackRespects R
      → (t : Target) (payload : Text) (r : Rack F) → R r.world (exchange_target t payload r).1.world
  unfolding exchange_target exchange_part
  exchange_target-Respects p psu_target payload r =
      exchange-Respects R R_refl psu p.psu_ok payload _
  exchange_target-Respects p switch_target payload r =
      exchange-Respects R R_refl switch p.switch_ok payload _
  exchange_target-Respects p awg_target payload r =
      exchange-Respects R R_refl awg p.awg_ok payload _
  exchange_target-Respects p dmm_target payload r =
      exchange-Respects R R_refl dmm p.dmm_ok payload _
  exchange_target-Respects p scope_target payload r =
      exchange-Respects R R_refl scope p.scope_ok payload _
  exchange_target-Respects p (distractor_target resource) payload r =
      exchange-Respects R R_refl (distractor (identity_of resource r))
        (record { handled = λ t s. R_refl s.world; cleared = λ s. R_refl s.world }) payload _

  pub write-Respects :
      RackRespects R
      → (resource payload : Text) (r : Rack F) → R r.world (write resource payload r).1.world
  unfolding write role_for
  write-Respects p resource payload r = elim (Option-cases (find resource r.models)) [
    | inl e ↦ ground (arith, R_refl r.world)
    | inr (t, e) ↦ ground (arith, R_refl r.world, exchange_target-Respects p t payload r)
  ]
