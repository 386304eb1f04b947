-- ===== src/Instruments/Loaded.antt =====
-- The waveforms of the generator, whatever is written to the rack.
use instrument_benchmark_eva.Prelude.{
  ◌≡◌, refl, sym, arith, subst, Option, inl, inr, Option-cases, Bool-cases, Result,
}
use instrument_benchmark_eva.Prelude.Text.{Text, strip, text_eq}
use instrument_benchmark_eva.Prelude.Dict.{find}
use instrument_benchmark_eva.Host.{Host}
use instrument_benchmark_eva.World.Apply.{apply, set_awg_output, boolean, get_or}
use instrument_benchmark_eva.Instruments.Base.{
  Seat, Device, exchange, exchange_text, run_reset, next_error, queue_error, act,
}
use instrument_benchmark_eva.Instruments.Awg.{AwgModel, awg, awg_initial, awg_reset, awg_handle}
use instrument_benchmark_eva.Instruments.Rack.{
  Rack, Target, psu_target, switch_target, awg_target, scope_target, dmm_target, distractor_target,
  exchange_target, exchange_part, write, role_for,
}
use instrument_benchmark_eva.Instruments.Effects.{queue_error-seat, next_error-seat}
use instrument_benchmark_eva.Instruments.Generator.{IsLoaded, awg_handle-IsLoaded}

module _ {F : Type 0} ⦃h : Host F⦄ where
  initial-IsLoaded : IsLoaded (awg_initial {F = F})
  unfolding find
  initial-IsLoaded = record { long = λ name xs e. ground arith; stored = λ name e. ground arith }

  -- A reset forgets the waveforms and the selection together.
  awg_reset-initial : (s : Seat (AwgModel F) F) → (awg_reset s).1.model ≡ awg_initial
  unfolding awg_reset act apply set_awg_output boolean get_or text_eq
  awg_reset-initial s = elim (Bool-cases s.world.awg_output) [
    | inl on ↦ rw on refl
    | inr off ↦ rw off refl
  ]

  awg_reset-IsLoaded : (s : Seat (AwgModel F) F) → IsLoaded (awg_reset s).1.model
  awg_reset-IsLoaded s = subst IsLoaded (sym (awg_reset-initial s)) initial-IsLoaded

  exchange-IsLoaded :
      (command : Text) (d : Device (AwgModel F) F)
      → IsLoaded d.seat.model
      → IsLoaded (exchange awg command d).1.seat.model
  unfolding exchange exchange_text run_reset
  exchange-IsLoaded command d p =
      ground (arith, p, awg_reset-IsLoaded d.seat, asked, handled (strip command))
    where
      Q : Result (Option Text) × Device (AwgModel F) F → Type 0
      Q x = IsLoaded x.1.seat.model

      asked : Q (next_error d)
      asked = subst (λ s. IsLoaded s.model) (sym (next_error-seat d)) p

      handled : (t : Text) → Q (queue_error d.errors (awg_handle t d.seat))
      handled t =
          subst (λ s. IsLoaded s.model) (sym (queue_error-seat d.errors (awg_handle t d.seat)))
            (awg_handle-IsLoaded t d.seat p)

  exchange_target-IsLoaded :
      (t : Target) (payload : Text) (r : Rack F)
      → IsLoaded r.awg_part.model
      → IsLoaded (exchange_target t payload r).1.awg_part.model
  unfolding exchange_target exchange_part
  exchange_target-IsLoaded psu_target payload r p = p
  exchange_target-IsLoaded switch_target payload r p = p
  exchange_target-IsLoaded awg_target payload r p = exchange-IsLoaded payload _ p
  exchange_target-IsLoaded scope_target payload r p = p
  exchange_target-IsLoaded dmm_target payload r p = p
  exchange_target-IsLoaded (distractor_target resource) payload r p = p

  -- Whatever is written to whichever resource of the rack, *RST and refused commands included, each
  -- stored waveform keeps two points or more and the selected one stays stored.
  pub write-IsLoaded :
      (resource payload : Text) (r : Rack F)
      → IsLoaded r.awg_part.model
      → IsLoaded (write resource payload r).1.awg_part.model
  unfolding write role_for
  write-IsLoaded resource payload r p = elim (Option-cases (find resource r.models)) [
    | inl e ↦ ground (arith, p)
    | inr (t, e) ↦ ground (arith, p, exchange_target-IsLoaded t payload r p)
  ]
