-- ===== src/Instruments/Tests.antt =====
-- Runs of the instruments, and their theorems at inputs that meet the hypotheses.
use instrument_benchmark_eva.Prelude.{
  value_error, ℕ, ◌≡◌, refl, arith, true, false, some, none, [], ◌∷◌, ok, err, command_error,
}
use instrument_benchmark_eva.Prelude.Text.{
  codes, text_eq, text_eq_refl, strip, upper, contains, starts_with, split_arg,
}
use instrument_benchmark_eva.Prelude.Decimal.{pos, int}
use instrument_benchmark_eva.Prelude.Dict.{find}
use instrument_benchmark_eva.Host.Sample.{whole}
use instrument_benchmark_eva.Host.{parse_float}
use instrument_benchmark_eva.World.Apply.{apply, configure_psu, item, float}
use instrument_benchmark_eva.World.Interlock.{ClosesNothing}
use instrument_benchmark_eva.World.Invariant.{IsValid}
use instrument_benchmark_eva.World.Tests.{prepared, prepared-IsValid}
use instrument_benchmark_eva.Instruments.Base.{
  Seat, Device, exchange, exchange_text, queue_error, execution_error, error_reply, act,
}
use instrument_benchmark_eva.Instruments.Parse.{argument}
use instrument_benchmark_eva.Instruments.Psu.{PsuModel, psu, psu_initial, psu_handle, set_voltage}
use instrument_benchmark_eva.Instruments.Awg.{AwgModel, awg_initial, set_awg_power}
use instrument_benchmark_eva.Instruments.Dmm.{dmm_initial}
use instrument_benchmark_eva.Instruments.Scope.{scope_initial}
use instrument_benchmark_eva.Instruments.Rack.{
  Rack, psu_target, switch_target, awg_target, dmm_target, new_part, write, exchange_target,
  force_safe,
}
use instrument_benchmark_eva.Instruments.Steps.{Steps}
use instrument_benchmark_eva.Instruments.Interlock.{
  AnyAction, write-Steps, write-ClosesNothing, write-IsValid, write-keeps_clock,
}
use instrument_benchmark_eva.Instruments.Safety.{IsMadeSafe, force_safe-safe}
use instrument_benchmark_eva.Instruments.Errors.{exchange_queues, ask_errors, ask_errors-reports}
use instrument_benchmark_eva.Instruments.Supply.{set_voltage-splits}
use instrument_benchmark_eva.Instruments.Transient.{IsFaulty, retries, retries-succeed}
use instrument_benchmark_eva.Instruments.Generator.{IsLoaded, set_awg_power-drives}
use instrument_benchmark_eva.Instruments.Loaded.{write-IsLoaded}

abbrev pub rack : Rack ℕ
rack = record {
  world = prepared;
  resources = codes "P" ∷ codes "S" ∷ codes "D" ∷ [];
  models = (codes "P", psu_target) ∷ (codes "S", switch_target) ∷ (codes "D", dmm_target) ∷ [];
  roles = (codes "P", codes "psu") ∷ (codes "S", codes "switch") ∷ (codes "D", codes "dmm") ∷ [];
  psu_part = new_part psu_initial;
  switch_part = new_part tt;
  awg_part = new_part awg_initial;
  scope_part = new_part scope_initial;
  dmm_part = new_part dmm_initial;
  distractor_errors = [];
  transient_errors_remaining = 1;
}

abbrev supply : Device (PsuModel ℕ) ℕ
supply = record { errors = []; seat = record { model = psu_initial; world = prepared } }

force_safe-safe_example : IsMadeSafe (force_safe rack)
force_safe-safe_example = force_safe-safe rack

write-Steps_example :
    Steps AnyAction prepared (write (codes "S") (codes "ROUT:OPEN (@1101)") rack).1.world
write-Steps_example = write-Steps (codes "S") (codes "ROUT:OPEN (@1101)") rack

write-ClosesNothing_example :
    ClosesNothing prepared (write (codes "S") (codes "ROUT:CLOS (@1103)") rack).1.world
write-ClosesNothing_example = write-ClosesNothing (codes "S") (codes "ROUT:CLOS (@1103)") rack refl

write-IsValid_example : IsValid whole (write (codes "P") (codes "VOLT 9") rack).1.world
write-IsValid_example = write-IsValid (codes "P") (codes "VOLT 9") rack prepared-IsValid

write-keeps_clock_example : (write (codes "P") (codes "OUTP 0") rack).1.world.clock_ms ≡ 40
write-keeps_clock_example = write-keeps_clock (codes "P") (codes "OUTP 0") rack

exchange_queues_example :
    (exchange psu (codes "VOLT 9") supply).1.errors
    ≡ ((execution_error, codes "PSU voltage must be between 0 and 6 V") ∷ [])
exchange_queues_example =
    exchange_queues psu (codes "VOLT 9") supply (codes "PSU voltage must be between 0 and 6 V") refl
      (unfold text_eq upper strip in refl) refused
  where
    refused :
        (exchange psu (codes "VOLT 9") supply).0
        ≡ err (command_error (codes "PSU voltage must be between 0 and 6 V"))
    refused =
        unfold exchange exchange_text queue_error psu_handle set_voltage text_eq upper strip
          starts_with contains argument split_arg act apply configure_psu item float int
          parse_float in
        refl

ask_errors-reports_example :
    ask_errors psu 2
      (record { errors = (pos 1, codes "a") ∷ (pos 2, codes "b") ∷ []; seat = supply.seat })
    ≡ (
      ok (some (error_reply (pos 1, codes "a"))) ∷ ok (some (error_reply (pos 2, codes "b"))) ∷ [],
      supply,
    )
ask_errors-reports_example =
    ask_errors-reports psu ((pos 1, codes "a") ∷ (pos 2, codes "b") ∷ []) supply.seat

read-IsFaulty : IsFaulty (codes "D") (codes "READ?") dmm_target rack
unfolding find text_eq upper strip
read-IsFaulty = record {
  known = refl;
  role = codes "dmm";
  named = refl;
  faulty_role = refl;
  command = codes "read?";
  faulty = refl;
  same = refl;
}

-- One fault is left: the second try reaches the voltmeter.
retries-succeed_example : retries 2 (codes "D") (codes "READ?") rack ≡ (
  err (command_error (codes "transient communication error"))
      ∷ (exchange_target dmm_target
          (codes "READ?")
          (record rack { transient_errors_remaining = 0 })).0
      ∷ [],
  (exchange_target dmm_target (codes "READ?") (record rack { transient_errors_remaining = 0 })).1,
)
retries-succeed_example = retries-succeed (codes "D") (codes "READ?") dmm_target rack read-IsFaulty

-- A generator with one waveform of three points, selected.
abbrev loaded : AwgModel ℕ
loaded = record {
  waveforms = (codes "RAMP", 0 ∷ 1 ∷ 2 ∷ []) ∷ [];
  selected = some (codes "RAMP");
  amplitude_vpp = 1;
  offset_v = 0;
  output = false;
}

abbrev generator : Seat (AwgModel ℕ) ℕ
generator = record { model = loaded; world = prepared }

loaded-IsLoaded : IsLoaded loaded
unfolding find
loaded-IsLoaded = record {
  long = λ name xs found. ground arith;
  stored = λ name chosen missing. ground (arith, text_eq_refl (codes "RAMP"));
}

abbrev loaded_rack : Rack ℕ
loaded_rack = record rack {
  models = (codes "A", awg_target) ∷ [];
  roles = (codes "A", codes "awg") ∷ [];
  awg_part = new_part loaded;
}

write-IsLoaded_example : IsLoaded (write (codes "A") (codes "*RST") loaded_rack).1.awg_part.model
write-IsLoaded_example = write-IsLoaded (codes "A") (codes "*RST") loaded_rack loaded-IsLoaded

set_awg_power-drives_example : set_awg_power (codes "OUTP ON") generator ≡ (
  ok none,
  record {
    model = record loaded { output = true };
    world = record prepared { awg_output = true; stimulus_started_ms = some 40 };
  },
)
set_awg_power-drives_example =
    set_awg_power-drives generator b'R' (codes "AMP") (0 ∷ 1 ∷ 2 ∷ []) refl
      (unfold find text_eq in refl) refl refl

set_voltage-splits_example : set_voltage (codes "VOLT 9") supply.seat ≡ (
  err (value_error (codes "PSU voltage must be between 0 and 6 V")),
  record { model = record psu_initial { voltage = 9 }; world = prepared },
)
set_voltage-splits_example =
    set_voltage-splits (codes "VOLT 9") (codes "9") 9 supply.seat
      (unfold argument split_arg in refl) (unfold parse_float int strip in refl)
