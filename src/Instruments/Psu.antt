-- ===== src/Instruments/Psu.antt =====
-- `PSUModel`.
use instrument_benchmark_eva.Prelude.{
  Bool, false, Option, none, some, [], ◌∷◌, ◌==◌, not, if◌then◌else◌, Exec, ok, command_error, pure,
  raise_if, when, lift, gets, ◌>>=◌, ◌>>◌,
}
use instrument_benchmark_eva.Prelude.Text.{Text, codes, text_eq, contains, starts_with, upper}
use instrument_benchmark_eva.Prelude.Decimal.{ℤ, pos}
use instrument_benchmark_eva.Host.{Host, parse_float}
use instrument_benchmark_eva.World.Data.{SemanticAction, flag, number}
use instrument_benchmark_eva.Instruments.Base.{
  Seat, Instrument, assign, act, undefined_header, line,
}
use instrument_benchmark_eva.Instruments.Parse.{argument, parse_int, parse_bool}

pub record PsuModel (F : Type 0) : Type 0 where
  pub channel : ℤ
  pub voltage : F
  pub output : Bool

-- `n != 1`
abbrev pub is_one : ℤ → Bool
is_one (pos n) = n == 1
is_one _ = false

abbrev pub psu_output : {F : Type 0} → Bool → SemanticAction F
psu_output enabled = record {
  kind = codes "psu.output";
  arguments = (codes "enabled", flag enabled) ∷ [];
}

abbrev pub psu_configure : {F : Type 0} → F → SemanticAction F
psu_configure voltage = record {
  kind = codes "psu.configure";
  arguments = (codes "voltage_v", number voltage) ∷ [];
}

-- `b"1\n" if flag else b"0\n"`
abbrev pub bit_line : Bool → Text
bit_line b = line (if b then codes "1" else codes "0")

module _ {F : Type 0} ⦃h : Host F⦄ where
  -- `PSUModel.__init__`
  abbrev pub psu_initial : PsuModel F
  psu_initial = record { channel = pos 1; voltage = h.of_ℕ 0; output = false }

  unfoldable pub psu_reset : Exec (Seat (PsuModel F) F) (Unit {0})
  psu_reset = do
    on ← gets (λ s. s.world.psu_output)
    when on (act (psu_output false))
    assign (λ m. record { channel = pos 1; voltage = h.of_ℕ 0; output = false })
    act (psu_configure (h.of_ℕ 0))

  unfoldable pub select_channel : Text → Exec (Seat (PsuModel F) F) (Option Text)
  select_channel text = do
    arg ← lift (argument text)
    channel ← lift (parse_int arg)
    raise_if (not (is_one channel)) (command_error (codes "only DUT supply channel 1 is available"))
    assign (λ m. record m { channel = channel })
    pure none

  unfoldable pub set_voltage : Text → Exec (Seat (PsuModel F) F) (Option Text)
  set_voltage text = do
    arg ← lift (argument text)
    voltage ← lift (parse_float arg)
    assign (λ m. record m { voltage = voltage })
    act (psu_configure voltage)
    pure none

  unfoldable pub set_output : Text → Exec (Seat (PsuModel F) F) (Option Text)
  set_output text = do
    arg ← lift (argument text)
    enabled ← lift (parse_bool arg)
    act (psu_output enabled)
    assign (λ m. record m { output = enabled })
    pure none

  unfoldable pub psu_handle : Text → Exec (Seat (PsuModel F) F) (Option Text)
  psu_handle text s =
      let command = upper text in
      if starts_with command (codes "INST:NSEL ")
      then select_channel text s
      else if starts_with command (codes "VOLT ")
      then set_voltage text s
      else if contains command (codes "VOLT?" ∷ codes "MEAS:VOLT?" ∷ [])
      then (ok (some (line (h.fixed6 s.model.voltage))), s)
      else if starts_with command (codes "OUTP ")
      then set_output text s
      else if text_eq command (codes "OUTP?")
      then (ok (some (bit_line s.model.output)), s)
      else undefined_header text s

  abbrev pub psu : Instrument (PsuModel F) F
  psu = record {
    identity = codes "IAB,Virtual-E36312A,PSU001,1.0";
    handle = psu_handle;
    reset = psu_reset;
  }
