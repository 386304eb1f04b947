-- ===== src/World/Apply.antt =====
-- `DUTWorld.apply` and its handlers: each checks its arguments and the interlocks, then writes.
use instrument_benchmark_eva.Prelude.{
  ◌+◌, Bool, not, ◌&&◌, ◌||◌, none, some, List, [], ◌∷◌, ◌++◌, ltb, all, is_nil, length,
  if◌then◌else◌, Exec, Result, ok, err, value_error, state_error, type_error, key_error, raise,
  lift, gets, modify, raise_if, ◌>>=◌, ◌>>◌,
}
use instrument_benchmark_eva.Prelude.Text.{Text, codes, text_eq, isdigit, repr}
use instrument_benchmark_eva.Prelude.Decimal.{ℤ, pos, negsuc}
use instrument_benchmark_eva.Host.{Host, parse_float}
use instrument_benchmark_eva.World.Data.{
  Value, nothing, text, flag, number, texts, numbers, Arguments, SemanticAction, World, update,
  difference,
}

abbrev ⊤ : Type 0
⊤ = Unit {0}

module _ {F : Type 0} where
  -- `arguments.get(key)`, with `default` for a missing key
  unfoldable pub get_or : Value F → Text → Arguments F → Value F
  get_or default key [] = default
  get_or default key ((k, v) ∷ rest) = if text_eq k key then v else get_or default key rest

  -- `arguments[key]`
  unfoldable pub item : Text → Arguments F → Result (Value F)
  item key [] = err key_error
  item key ((k, v) ∷ rest) = if text_eq k key then ok v else item key rest

  -- `DUTWorld._routes`. A sequence of floats holds no text of digits only.
  unfoldable pub routes : Arguments F → Result (List Text)
  routes arguments = elim (get_or nothing (codes "routes") arguments) [
    | texts [] ↦ err (value_error (codes "routes must be a non-empty sequence"))
    | texts (t ∷ ts) ↦
        if all isdigit (t ∷ ts)
        then ok (t ∷ ts)
        else err (value_error (codes "route identifiers must contain only digits"))
    | numbers [] ↦ err (value_error (codes "routes must be a non-empty sequence"))
    | numbers (x ∷ xs) ↦ err (value_error (codes "route identifiers must contain only digits"))
    | _ ↦ err (value_error (codes "routes must be a non-empty sequence"))
  ]

  -- `isinstance(value, bool)`
  unfoldable pub boolean : Value F → Result Bool
  boolean (flag b) = ok b
  boolean _ = err (value_error (codes "enabled must be boolean"))

  unfoldable pub close_routes : Arguments F → Exec (World F) ⊤
  close_routes arguments = do
    outputs_on ← gets (λ w. w.psu_output || w.awg_output)
    raise_if outputs_on
        (state_error (codes "source outputs must be disabled before closing routes"))
    rs ← lift (routes arguments)
    modify (λ w. record w { closed_routes = update w.closed_routes rs })

  unfoldable pub open_routes : Arguments F → Exec (World F) ⊤
  open_routes arguments = do
    rs ← lift (routes arguments)
    modify (λ w. record w { closed_routes = difference w.closed_routes rs })

  unfoldable pub open_all : Arguments F → Exec (World F) ⊤
  open_all arguments = do
    raise_if (not (is_nil arguments)) (value_error (codes "switch.open_all takes no arguments"))
    modify (λ w. record w { closed_routes = [] })

  -- `DUTWorld.advance_ms`
  unfoldable pub advance_ms : ℤ → Exec (World F) ⊤
  advance_ms (pos n) = modify (λ w. record w { clock_ms = w.clock_ms + n })
  advance_ms (negsuc n) = raise (value_error (codes "milliseconds must be a non-negative integer"))

  unfoldable pub set_awg_output : Arguments F → Exec (World F) ⊤
  set_awg_output arguments = do
    enabled ← lift (boolean (get_or nothing (codes "enabled") arguments))
    no_points ← gets (λ w. is_nil w.awg_points)
    raise_if (enabled && no_points)
        (state_error (codes "stimulus waveform must be configured first"))
    modify (λ w. record w {
      awg_output = enabled;
      stimulus_started_ms = if enabled then some w.clock_ms else none;
    })

module _ {F : Type 0} ⦃h : Host F⦄ where
  -- `float(value)`
  unfoldable pub float : Value F → Result F
  float (number x) = ok x
  float (flag b) = ok (h.of_ℕ (if b then 1 else 0))
  float (text t) = parse_float t
  float _ = err type_error

  -- `tuple(float(point) for point in points)` over texts
  unfoldable pub parse_all : List Text → Result (List F)
  parse_all [] = ok []
  parse_all (t ∷ ts) =
      let rest = parse_all ts in
      elim (parse_float t) [
        | err e ↦ err e
        | ok x ↦ elim rest [ err e ↦ err e | ok xs ↦ ok (x ∷ xs) ]
      ]

  -- `name` of a waveform: a text that is not empty.
  unfoldable pub waveform_name : Value F → Result Text
  waveform_name (text []) = err (value_error (codes "waveform name is required"))
  waveform_name (text (c ∷ s)) = ok (c ∷ s)
  waveform_name _ = err (value_error (codes "waveform name is required"))

  -- The points of a waveform: a sequence of two or more, each read as a float.
  unfoldable pub waveform_points : Value F → Result (List F)
  waveform_points (numbers xs) =
      if ltb (length xs) 2
      then err (value_error (codes "waveform points must contain at least two values"))
      else ok xs
  waveform_points (texts ts) =
      if ltb (length ts) 2
      then err (value_error (codes "waveform points must contain at least two values"))
      else parse_all ts
  waveform_points _ = err (value_error (codes "waveform points must contain at least two values"))

  unfoldable pub configure_psu : Arguments F → Exec (World F) ⊤
  configure_psu arguments = do
    given ← lift (item (codes "voltage_v") arguments)
    voltage ← lift (float given)
    raise_if (not (h.le (h.of_ℕ 0) voltage && h.le voltage (h.of_ℕ 6)))
        (value_error (codes "PSU voltage must be between 0 and 6 V"))
    modify (λ w. record w { psu_voltage_v = voltage })

  unfoldable pub set_psu_output : Arguments F → Exec (World F) ⊤
  set_psu_output arguments = do
    enabled ← lift (boolean (get_or nothing (codes "enabled") arguments))
    unpowered ← gets (λ w. h.le w.psu_voltage_v (h.of_ℕ 0))
    raise_if (enabled && unpowered)
        (state_error (codes "power cannot be enabled before voltage configuration"))
    modify (λ w. record w { psu_output = enabled })

  unfoldable pub set_awg_waveform : Arguments F → Exec (World F) ⊤
  set_awg_waveform arguments = do
    amplitude ← lift (float (get_or (number (h.of_ℕ 0)) (codes "amplitude_vpp") arguments))
    name ← lift (waveform_name (get_or nothing (codes "name") arguments))
    points ← lift (waveform_points (get_or nothing (codes "points") arguments))
    raise_if (h.le amplitude (h.of_ℕ 0)) (value_error (codes "amplitude_vpp must be positive"))
    modify (λ w. record w {
      awg_waveform_name = some name;
      awg_points = points;
      awg_amplitude_vpp = amplitude;
    })

  unfoldable pub apply : SemanticAction F → Exec (World F) ⊤
  apply action =
      if text_eq action.kind (codes "switch.close")
      then close_routes action.arguments
      else if text_eq action.kind (codes "switch.open")
      then open_routes action.arguments
      else if text_eq action.kind (codes "switch.open_all")
      then open_all action.arguments
      else if text_eq action.kind (codes "psu.configure")
      then configure_psu action.arguments
      else if text_eq action.kind (codes "psu.output")
      then set_psu_output action.arguments
      else if text_eq action.kind (codes "awg.waveform")
      then set_awg_waveform action.arguments
      else if text_eq action.kind (codes "awg.output")
      then set_awg_output action.arguments
      else raise (value_error (codes "unsupported semantic action " ++ repr action.kind))
