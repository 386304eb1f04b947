-- ===== src/World/Tests.antt =====
-- Runs of the simulated bench, and its theorems at inputs that meet their hypotheses.
use instrument_benchmark_eva.Prelude.{
  List, ℕ, ◌≤◌, ◌≡◌, ◌↔◌, refl, true, false, none, some, [], ◌∷◌, err, ok, state_error,
}
use instrument_benchmark_eva.Prelude.Text.{text_eq, contains, codes}
use instrument_benchmark_eva.Prelude.Decimal.{pos}
use instrument_benchmark_eva.Host.Sample.{whole}
use instrument_benchmark_eva.World.Data.{
  subset, World, WorldSpec, SemanticAction, number, texts, initial,
}
use instrument_benchmark_eva.World.Apply.{apply, advance_ms, close_routes}
use instrument_benchmark_eva.World.Ready.{dmm_samples, scope_samples, require_ready}
use instrument_benchmark_eva.World.Interlock.{
  IsAtomic, ClosesNothing, apply-IsAtomic, apply-ClosesNothing,
}
use instrument_benchmark_eva.World.Invariant.{IsValid, initial-IsValid, apply-IsValid}
use instrument_benchmark_eva.World.Observe.{
  IsReady, Sized, samples_iff_IsReady, drive_on, settles_after,
}

abbrev pub nominal : WorldSpec ℕ
nominal = record {
  world_id = codes "nominal";
  seed = 1;
  gain = 2;
  offset_v = 0;
  dmm_noise_v = 0;
  scope_noise_v = 0;
  settle_ms = 250;
  supply_voltage_v = 5;
  required_routes = codes "1101" ∷ codes "1102" ∷ [];
  gain_min = 2;
  gain_max = 2;
  cross_error_max_v = 0;
  dmm_format = codes "decimal";
  binary_length_digits = 2;
  initial_psu_output = false;
  initial_awg_output = false;
  initial_closed_routes = [];
  resource_map = (codes "psu", codes "P") ∷ (codes "dmm", codes "D") ∷ [];
  distractors = (codes "X", codes "Other") ∷ [];
  transient_error_role = some (codes "dmm");
  transient_error_command = some (codes "read?");
  transient_error_count = 1;
}

-- A bench that is routed and powered, with a waveform that is not driven yet.
abbrev pub prepared : World ℕ
prepared = record {
  spec = nominal;
  clock_ms = 40;
  closed_routes = codes "1102" ∷ codes "1101" ∷ [];
  psu_voltage_v = 5;
  psu_output = true;
  awg_waveform_name = some (codes "RAMP");
  awg_points = 0 ∷ 1 ∷ 2 ∷ [];
  awg_amplitude_vpp = 1;
  awg_output = false;
  stimulus_started_ms = none;
  session_reopens = [];
}

abbrev close_more : SemanticAction ℕ
close_more = record {
  kind = codes "switch.close";
  arguments = (codes "routes", texts (codes "1103" ∷ [])) ∷ [];
}

abbrev overvoltage : SemanticAction ℕ
overvoltage = record {
  kind = codes "psu.configure";
  arguments = (codes "voltage_v", number 7) ∷ [];
}

close_while_powered :
    apply close_more prepared
    ≡ (err (state_error (codes "source outputs must be disabled before closing routes")), prepared)
unfolding apply close_routes text_eq
close_while_powered = refl

apply-IsAtomic_example : IsAtomic (apply overvoltage) prepared
apply-IsAtomic_example = apply-IsAtomic overvoltage prepared

apply-ClosesNothing_example : ClosesNothing prepared (apply close_more prepared).1
apply-ClosesNothing_example = apply-ClosesNothing close_more prepared refl

nominal-IsValid : IsValid whole (initial nominal)
nominal-IsValid = initial-IsValid nominal refl refl

apply-IsValid_example : IsValid whole (apply overvoltage (initial nominal)).1
apply-IsValid_example = apply-IsValid overvoltage (initial nominal) nominal-IsValid

settles_after_example :
    ((require_ready (advance_ms (pos 250) (apply drive_on prepared).1).1).0 ≡ ok tt) ↔ (250 ≤ 250)
settles_after_example =
    settles_after prepared 250 (unfold subset contains text_eq in refl) refl refl

samples_iff_IsReady_example :
    ((dmm_samples prepared).1 ≡ prepared)
    × ((scope_samples prepared).1 ≡ prepared)
    × (IsReady prepared ↔ ((xs : List ℕ) × ((dmm_samples prepared).0 ≡ ok xs)))
    × (IsReady prepared ↔ ((xs : List ℕ) × ((scope_samples prepared).0 ≡ ok xs)))
    × Sized 3 (dmm_samples prepared).0
    × Sized 3 (scope_samples prepared).0
samples_iff_IsReady_example = samples_iff_IsReady prepared

abbrev pub prepared-IsValid : IsValid whole prepared
prepared-IsValid = record { voltage_low = refl; voltage_high = refl; started = tt; waveform = tt }
