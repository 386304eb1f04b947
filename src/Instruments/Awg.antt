-- ===== src/Instruments/Awg.antt =====
-- `AWGModel`.
use instrument_benchmark_eva.Prelude.{
  Bool, false, Option, none, some, List, [], ◌∷◌, length, ltb, not, ◌&&◌, if◌then◌else◌, Exec, ok,
  command_error, value_error, key_error, pure, when, raise_if, lift, gets, or_raise, ◌>>=◌, ◌>>◌,
}
use instrument_benchmark_eva.Prelude.Text.{
  Text, codes, text_eq, contains, starts_with, upper, split_first, split_list,
}
use instrument_benchmark_eva.Prelude.Dict.{Dict, find, put}
use instrument_benchmark_eva.Host.{Host, parse_float}
use instrument_benchmark_eva.World.Data.{SemanticAction, flag, number, numbers, text}
use instrument_benchmark_eva.World.Apply.{parse_all}
use instrument_benchmark_eva.World.Ready.{unsettled}
use instrument_benchmark_eva.Instruments.Base.{
  Seat, Instrument, assign, act, undefined_header, line,
}
use instrument_benchmark_eva.Instruments.Parse.{argument, parse_bool}
use instrument_benchmark_eva.Instruments.Psu.{bit_line}

pub record AwgModel (F : Type 0) : Type 0 where
  pub waveforms : Dict (List F)
  pub selected : Option Text
  pub amplitude_vpp : F
  pub offset_v : F
  pub output : Bool

abbrev pub awg_output : {F : Type 0} → Bool → SemanticAction F
awg_output enabled = record {
  kind = codes "awg.output";
  arguments = (codes "enabled", flag enabled) ∷ [];
}

abbrev pub awg_waveform : {F : Type 0} → Text → List F → F → SemanticAction F
awg_waveform name points amplitude = record {
  kind = codes "awg.waveform";
  arguments =
      (codes "name", text name)
      ∷ (codes "points", numbers points)
      ∷ (codes "amplitude_vpp", number amplitude)
      ∷ [];
}

module _ {F : Type 0} ⦃h : Host F⦄ where
  -- `AWGModel.__init__`
  abbrev pub awg_initial : AwgModel F
  awg_initial = record {
    waveforms = [];
    selected = none;
    amplitude_vpp = h.of_ℕ 1;
    offset_v = h.of_ℕ 0;
    output = false;
  }

  unfoldable pub awg_reset : Exec (Seat (AwgModel F) F) (Unit {0})
  awg_reset = do
    on ← gets (λ s. s.world.awg_output)
    when on (act (awg_output false))
    assign (λ m. awg_initial)

  unfoldable pub upload : Text → Exec (Seat (AwgModel F) F) (Option Text)
  upload command = do
    body ← lift (argument command)
    (name, raw_points) ←
        or_raise (split_first b',' body)
          (value_error (codes "not enough values to unpack (expected 2, got 1)"))
    points ← lift (parse_all (split_list b',' raw_points))
    raise_if (ltb (length points) 2)
        (command_error (codes "arbitrary waveform needs at least two points"))
    assign (λ m. record m { waveforms = put (upper name) points m.waveforms })
    pure none

  unfoldable pub select_waveform : Text → Exec (Seat (AwgModel F) F) (Option Text)
  select_waveform command = do
    arg ← lift (argument command)
    waveforms ← gets (λ s. s.model.waveforms)
    points ←
        or_raise (find (upper arg) waveforms)
          (command_error (codes "waveform has not been uploaded"))
    assign (λ m. record m { selected = some (upper arg) })
    pure none

  unfoldable pub set_offset : Text → Exec (Seat (AwgModel F) F) (Option Text)
  set_offset command = do
    arg ← lift (argument command)
    offset ← lift (parse_float arg)
    assign (λ m. record m { offset_v = offset })
    pure none

  unfoldable pub set_amplitude : Text → Exec (Seat (AwgModel F) F) (Option Text)
  set_amplitude command = do
    arg ← lift (argument command)
    amplitude ← lift (parse_float arg)
    assign (λ m. record m { amplitude_vpp = amplitude })
    raise_if (h.le amplitude (h.of_ℕ 0)) (command_error (codes "amplitude must be positive"))
    pure none

  -- The upload of the selected waveform to the DUT, before the output is switched on.
  unfoldable pub load_selected : Exec (Seat (AwgModel F) F) (Unit {0})
  load_selected = do
    m ← gets (λ s. s.model)
    name ← or_raise m.selected (command_error (codes "waveform must be selected before output"))
    points ← or_raise (find name m.waveforms) key_error
    act (awg_waveform name points m.amplitude_vpp)

  unfoldable pub set_awg_power : Text → Exec (Seat (AwgModel F) F) (Option Text)
  set_awg_power command = do
    arg ← lift (argument command)
    enabled ← lift (parse_bool arg)
    when enabled load_selected
    act (awg_output enabled)
    assign (λ m. record m { output = enabled })
    pure none

  -- The settling bit of STAT:OPER:COND?
  unfoldable pub is_settled : Seat (AwgModel F) F → Bool
  is_settled s =
      s.model.output
      && not (unsettled s.world.stimulus_started_ms s.world.clock_ms s.world.spec.settle_ms)

  unfoldable pub awg_handle : Text → Exec (Seat (AwgModel F) F) (Option Text)
  awg_handle command_text s =
      let command = upper command_text in
      if starts_with command (codes "DATA:ARB ")
      then upload command_text s
      else if starts_with command (codes "FUNC:ARB ")
      then select_waveform command_text s
      else if starts_with command (codes "VOLT:OFFS ")
      then set_offset command_text s
      else if starts_with command (codes "VOLT ")
      then set_amplitude command_text s
      else if starts_with command (codes "OUTP ")
      then set_awg_power command_text s
      else if text_eq command (codes "OUTP?")
      then (ok (some (bit_line s.model.output)), s)
      else if text_eq command (codes "FUNC:ARB?")
      then (ok (some (line (elim s.model.selected [ none ↦ [] | some name ↦ name ]))), s)
      else if contains command (codes "STAT:OPER:COND?" ∷ codes "*OPC?" ∷ [])
      then (ok (some (bit_line (is_settled s))), s)
      else undefined_header command_text s

  abbrev pub awg : Instrument (AwgModel F) F
  awg = record {
    identity = codes "IAB,Virtual-33512B,AWG001,1.0";
    handle = awg_handle;
    reset = awg_reset;
  }
