-- ===== src/Instruments/Dmm.antt =====
-- `DMMModel`.
use instrument_benchmark_eva.Prelude.{
  Bool, true, false, not, Option, none, some, [], ◌∷◌, map, ◌==◌, if◌then◌else◌, Exec,
  command_error, pure, raise_if, lift, gets, ◌>>=◌, ◌>>◌,
}
use instrument_benchmark_eva.Prelude.Text.{Text, codes, text_eq, contains, starts_with, upper, join}
use instrument_benchmark_eva.Prelude.Decimal.{ℤ, pos, negsuc}
use instrument_benchmark_eva.Host.{Host, parse_float}
use instrument_benchmark_eva.World.Ready.{dmm_samples}
use instrument_benchmark_eva.Instruments.Base.{
  Seat, Instrument, assign, observe, undefined_header, line,
}
use instrument_benchmark_eva.Instruments.Parse.{argument, parse_int, resize}

pub record DmmModel (F : Type 0) : Type 0 where
  pub configured : Bool
  pub range_v : F
  pub sample_count : ℤ
  pub initiated : Bool

-- `n < 1`
abbrev pub below_one : ℤ → Bool
below_one (pos n) = n == 0
below_one (negsuc n) = true

module _ {F : Type 0} ⦃h : Host F⦄ where
  -- `DMMModel.__init__`, and what `reset` restores
  abbrev pub dmm_initial : DmmModel F
  dmm_initial = record {
    configured = false;
    range_v = h.of_ℕ 10;
    sample_count = pos 1;
    initiated = false;
  }

  unfoldable pub dmm_reset : Exec (Seat (DmmModel F) F) (Unit {0})
  dmm_reset = assign (λ m. dmm_initial)

  unfoldable pub configure_voltage : Exec (Seat (DmmModel F) F) (Option Text)
  configure_voltage = do assign (λ m. record m { configured = true }); pure none

  unfoldable pub set_range : Text → Exec (Seat (DmmModel F) F) (Option Text)
  set_range text = do
    arg ← lift (argument text)
    range ← lift (parse_float arg)
    assign (λ m. record m { range_v = range })
    pure none

  unfoldable pub set_sample_count : Text → Exec (Seat (DmmModel F) F) (Option Text)
  set_sample_count text = do
    arg ← lift (argument text)
    count ← lift (parse_int arg)
    assign (λ m. record m { sample_count = count })
    raise_if (below_one count) (command_error (codes "sample count must be positive"))
    pure none

  unfoldable pub initiate : Exec (Seat (DmmModel F) F) (Option Text)
  initiate = do
    configured ← gets (λ s. s.model.configured)
    raise_if (not configured) (command_error (codes "DMM function is not configured"))
    assign (λ m. record m { initiated = true })
    pure none

  -- One value of a reading, in the format of the world.
  abbrev pub field : Text → F → Text
  field format x = if text_eq format (codes "scientific") then h.scientific8 x else h.fixed8 x

  unfoldable pub read_samples : Exec (Seat (DmmModel F) F) (Option Text)
  read_samples = do
    initiated ← gets (λ s. s.model.initiated)
    raise_if (not initiated) (command_error (codes "DMM acquisition has not been initiated"))
    samples ← observe dmm_samples
    count ← gets (λ s. s.model.sample_count)
    assign (λ m. record m { initiated = false })
    format ← gets (λ s. s.world.spec.dmm_format)
    pure (some (line (join (codes ",") (map (field format) (resize samples count)))))

  unfoldable pub dmm_handle : Text → Exec (Seat (DmmModel F) F) (Option Text)
  dmm_handle text s =
      let command = upper text in
      if contains command (codes "CONF:VOLT:DC" ∷ codes "CONF:VOLT:DC AUTO" ∷ [])
      then configure_voltage s
      else if starts_with command (codes "VOLT:DC:RANG ")
      then set_range text s
      else if starts_with command (codes "SAMP:COUN ")
      then set_sample_count text s
      else if text_eq command (codes "INIT")
      then initiate s
      else if contains command (codes "READ?" ∷ codes "FETC?" ∷ [])
      then read_samples s
      else undefined_header text s

  abbrev pub dmm : Instrument (DmmModel F) F
  dmm = record {
    identity = codes "IAB,Virtual-DMM7510,DMM001,1.0";
    handle = dmm_handle;
    reset = dmm_reset;
  }
