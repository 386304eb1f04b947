-- ===== src/World/Invariant.antt =====
-- What holds of a `DUTWorld` between two calls.
use instrument_benchmark_eva.Prelude.{
  ℕ, ◌≤◌, ◌≡◌, Bool, true, false, Option, none, some, List, [], ◌∷◌, arith, length, ltb, ok,
  Result-cases, inl, inr,
}
use instrument_benchmark_eva.Prelude.Text.{Text, codes}
use instrument_benchmark_eva.Prelude.Decimal.{ℤ, pos, negsuc}
use instrument_benchmark_eva.Host.{Host}
use instrument_benchmark_eva.World.Data.{
  World, WorldSpec, SemanticAction, initial, Value, nothing, text, flag, number, texts, numbers,
}
use instrument_benchmark_eva.World.Apply.{
  close_routes, open_routes, open_all, configure_psu, set_psu_output, set_awg_waveform,
  set_awg_output, apply, advance_ms, parse_all, waveform_points, get_or,
}
use instrument_benchmark_eva.World.Interlock.{apply_cases}

-- The start of the stimulus is known exactly while the output is on, and lies in the past.
abbrev pub StartMatches : Bool → Option ℕ → ℕ → Type 0
StartMatches true none clock = ⊥
StartMatches true (some t) clock = t ≤ clock
StartMatches false none clock = Unit
StartMatches false (some t) clock = ⊥

-- No waveform yet, or one of two points or more.
abbrev pub IsWaveform : {F : Type 0} → List F → Type 0
IsWaveform [] = Unit
IsWaveform (x ∷ []) = ⊥
IsWaveform (x ∷ y ∷ xs) = Unit

pub record IsValid {F : Type 0} (h : Host F) (w : World F) : Type 0 where
  pub voltage_low : h.le (h.of_ℕ 0) w.psu_voltage_v ≡ true
  pub voltage_high : h.le w.psu_voltage_v (h.of_ℕ 6) ≡ true
  pub started : StartMatches w.awg_output w.stimulus_started_ms w.clock_ms
  pub waveform : IsWaveform w.awg_points

IsWaveform-long : {F : Type 0} (xs : List F) → ltb (length xs) 2 ≡ false → IsWaveform xs
IsWaveform-long [] e = tt
IsWaveform-long (x ∷ []) e = cc
IsWaveform-long (x ∷ y ∷ xs) e = tt

module _ {F : Type 0} ⦃h : Host F⦄ where
  length-parse_all : (ts : List Text) (xs : List F) → parse_all ts ≡ ok xs → length xs ≡ length ts
  unfolding parse_all
  length-parse_all [] xs e = ground arith
  length-parse_all (t ∷ ts) xs e = elim (Result-cases {A = List F} (parse_all ⦃h = h⦄ ts)) [
    | inl (ys, ih) ↦ ground (arith, length-parse_all ts ys ih)
    | inr (x, bad) ↦ ground arith
  ]

  waveform_points-IsWaveform :
      (v : Value F) (xs : List F) → waveform_points v ≡ ok xs → IsWaveform xs
  unfolding waveform_points
  waveform_points-IsWaveform (numbers ys) xs e = IsWaveform-long xs (ground arith)
  waveform_points-IsWaveform (texts ts) xs e =
      IsWaveform-long xs (ground (arith, length-parse_all ts xs))
  waveform_points-IsWaveform nothing xs e = cc
  waveform_points-IsWaveform (text t) xs e = cc
  waveform_points-IsWaveform (flag b) xs e = cc
  waveform_points-IsWaveform (number x) xs e = cc

  -- Every action, refused or not, keeps the invariant.
  pub apply-IsValid :
      (action : SemanticAction F) (w : World F) → IsValid h w → IsValid h (apply action w).1
  apply-IsValid action w v =
      apply_cases (λ r. IsValid h r.1) action w
        (λ _. close, open_some, clear, configure, power, waveform, drive) (λ e. v)
    where
      close : IsValid h (close_routes action.arguments w).1
      close = unfold close_routes in ground arith

      open_some : IsValid h (open_routes action.arguments w).1
      open_some = unfold open_routes in ground arith

      clear : IsValid h (open_all action.arguments w).1
      clear = unfold open_all in ground arith

      configure : IsValid h (configure_psu action.arguments w).1
      configure = unfold configure_psu in ground arith

      power : IsValid h (set_psu_output action.arguments w).1
      power = unfold set_psu_output in ground arith

      waveform : IsValid h (set_awg_waveform action.arguments w).1
      waveform =
          elim (Result-cases (waveform_points (get_or nothing (codes "points") action.arguments))) [
            | inl (xs, e) ↦
                unfold set_awg_waveform in
                ground (
                  arith,
                  waveform_points-IsWaveform (get_or nothing (codes "points") action.arguments) xs
                      e,
                )
            | inr (x, bad) ↦ unfold set_awg_waveform in ground arith
          ]

      drive : IsValid h (set_awg_output action.arguments w).1
      drive = unfold set_awg_output in ground arith

  -- So does the passing of time, and a negative step is refused.
  pub advance_ms-IsValid : (n : ℤ) (w : World F) → IsValid h w → IsValid h (advance_ms n w).1
  unfolding advance_ms
  advance_ms-IsValid (pos n) w v = ground arith
  advance_ms-IsValid (negsuc n) w v = v

  -- A new world is valid, where 0 lies between 0 and 6.
  pub initial-IsValid :
      (spec : WorldSpec F)
      → h.le (h.of_ℕ 0) (h.of_ℕ 0) ≡ true
      → h.le (h.of_ℕ 0) (h.of_ℕ 6) ≡ true
      → IsValid h (initial spec)
  unfolding initial
  initial-IsValid spec low high = ground arith
