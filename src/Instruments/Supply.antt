-- ===== src/Instruments/Supply.antt =====
-- What setting the supply voltage does, in range and out of range.
use instrument_benchmark_eva.Prelude.{if◌then◌else◌, ◌≡◌, ◌&&◌, arith, none, ok, err, value_error}
use instrument_benchmark_eva.Prelude.Text.{Text, codes, text_eq}
use instrument_benchmark_eva.Host.{Host, parse_float}
use instrument_benchmark_eva.World.Apply.{apply, configure_psu, item, float}
use instrument_benchmark_eva.Instruments.Base.{Seat, act}
use instrument_benchmark_eva.Instruments.Parse.{argument}
use instrument_benchmark_eva.Instruments.Psu.{PsuModel, set_voltage}

module _ {F : Type 0} ⦃h : Host F⦄ where
  -- VOLT with a number sets the bench to it if it lies between 0 and 6, and is refused otherwise
  -- with the bench as it was; the model's own voltage, which VOLT? reports, takes it either way.
  pub set_voltage-splits :
      (command arg : Text) (v : F) (s : Seat (PsuModel F) F)
      → argument command ≡ ok arg
      → parse_float arg ≡ ok v
      → set_voltage command s ≡ (
          if h.le (h.of_ℕ 0) v && h.le v (h.of_ℕ 6)
          then (
            ok none,
            record {
              model = record s.model { voltage = v };
              world = record s.world { psu_voltage_v = v };
            },
          )
          else (
            err (value_error (codes "PSU voltage must be between 0 and 6 V")),
            record { model = record s.model { voltage = v }; world = s.world },
          ))
  unfolding set_voltage act apply configure_psu item float text_eq
  set_voltage-splits command arg v s given read = ground arith
