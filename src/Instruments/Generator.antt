-- ===== src/Instruments/Generator.antt =====
-- The waveform that the generator drives is one that was uploaded to it.
use instrument_benchmark_eva.Prelude.{
  ℕ, ◌≡◌, ◌≢◌, ap, sym, ◌∙◌, ltb, Bool-cases, true, false, some, none, List, ◌∷◌, length, arith,
  inl, inr, ok, Result-cases, Option-cases,
}
use instrument_benchmark_eva.Prelude.Text.{
  Text, codes, text_eq, upper, split_first, split_arg, contains, strip, split_list,
}
use instrument_benchmark_eva.Prelude.Dict.{find, put, find-put}
use instrument_benchmark_eva.Host.{Host}
use instrument_benchmark_eva.World.Apply.{
  apply, set_awg_waveform, set_awg_output, waveform_name, waveform_points, get_or, boolean, float,
  parse_all,
}
use instrument_benchmark_eva.Instruments.Base.{Seat, act}
use instrument_benchmark_eva.Instruments.Parse.{argument, parse_bool}
use instrument_benchmark_eva.Instruments.Awg.{
  AwgModel, awg_handle, upload, select_waveform, set_offset, set_amplitude, load_selected,
  set_awg_power,
}

module _ {F : Type 0} where
  -- Every stored waveform has two points or more, and the selected one is stored.
  pub record IsLoaded (m : AwgModel F) : Type 0 where
    pub long :
        (name : Text) (xs : List F) → find name m.waveforms ≡ some xs → ltb (length xs) 2 ≡ false
    pub stored : (name : Text) → m.selected ≡ some name → find name m.waveforms ≢ none

module _ {F : Type 0} ⦃h : Host F⦄ where
  put-IsLoaded :
      (m : AwgModel F) (name : Text) (points : List F)
      → ltb (length points) 2 ≡ false
      → IsLoaded m
      → IsLoaded (record m { waveforms = put name points m.waveforms })
  put-IsLoaded m name points enough p = record {
    long = λ n xs e. ground (arith, find-put name n points m.waveforms, p.long n xs);
    stored = λ n e none'. ground (arith, find-put name n points m.waveforms, p.stored n e);
  }

  upload-IsLoaded :
      (command : Text) (s : Seat (AwgModel F) F)
      → IsLoaded s.model
      → IsLoaded (upload command s).1.model
  unfolding upload
  upload-IsLoaded command s p = elim (Result-cases (argument command)) [
    | inr (x, e) ↦ ground (arith, p)
    | inl (body, e) ↦ elim (Option-cases (split_first b',' body)) [
      | inl e' ↦ ground (arith, p)
      | inr ((name, raw), e') ↦ elim (Result-cases (parse_all ⦃h = h⦄ (split_list b',' raw))) [
        | inr (x, e'') ↦ ground (arith, p)
        | inl (points, e'') ↦ elim (Bool-cases (ltb (length points) 2)) [
          | inl few ↦ ground (arith, p)
          | inr enough ↦ ground (arith, put-IsLoaded s.model (upper name) points enough p)
        ]
      ]
    ]
  ]

  select_IsLoaded :
      (m : AwgModel F) (name : Text) (points : List F)
      → find name m.waveforms ≡ some points
      → IsLoaded m
      → IsLoaded (record m { selected = some name })
  select_IsLoaded m name points e p = record {
    long = p.long;
    stored = λ n chosen none'. ground arith;
  }

  select_waveform-IsLoaded :
      (command : Text) (s : Seat (AwgModel F) F)
      → IsLoaded s.model
      → IsLoaded (select_waveform command s).1.model
  unfolding select_waveform
  select_waveform-IsLoaded command s p = elim (Result-cases (argument command)) [
    | inr (x, e) ↦ ground (arith, p)
    | inl (name, e) ↦ elim (Option-cases (find (upper name) s.model.waveforms)) [
      | inl e' ↦ ground (arith, p)
      | inr (points, e') ↦ ground (arith, select_IsLoaded s.model (upper name) points e' p)
    ]
  ]

  -- Another model with the same waveforms and the same selection.
  abbrev Keeps : AwgModel F → AwgModel F → Type 0
  Keeps m m' = (m'.waveforms ≡ m.waveforms) × (m'.selected ≡ m.selected)

  set_offset-Keeps : (t : Text) (s : Seat (AwgModel F) F) → Keeps s.model (set_offset t s).1.model
  unfolding set_offset
  set_offset-Keeps t s = (ground arith, ground arith)

  set_amplitude-Keeps :
      (t : Text) (s : Seat (AwgModel F) F) → Keeps s.model (set_amplitude t s).1.model
  unfolding set_amplitude
  set_amplitude-Keeps t s = (ground arith, ground arith)

  set_awg_power-Keeps :
      (t : Text) (s : Seat (AwgModel F) F) → Keeps s.model (set_awg_power t s).1.model
  unfolding set_awg_power load_selected act
  set_awg_power-Keeps t s = (ground arith, ground arith)

  same-IsLoaded : (m m' : AwgModel F) → IsLoaded m → Keeps m m' → IsLoaded m'
  same-IsLoaded m m' p (e, f) = record {
    long = λ name xs found. p.long name xs (ap (find name) (sym e) ∙ found);
    stored =
        λ name chosen missing. p.stored name (sym f ∙ chosen) (ap (find name) (sym e) ∙ missing);
  }

  -- Every command of the generator, refused or not, keeps the stored waveforms long and the
  -- selected one stored.
  pub awg_handle-IsLoaded :
      (text : Text) (s : Seat (AwgModel F) F)
      → IsLoaded s.model
      → IsLoaded (awg_handle text s).1.model
  unfolding awg_handle
  awg_handle-IsLoaded command s p = ground (
    arith,
    upload-IsLoaded command s p,
    select_waveform-IsLoaded command s p,
    same-IsLoaded s.model (set_offset command s).1.model p (set_offset-Keeps command s),
    same-IsLoaded s.model (set_amplitude command s).1.model p (set_amplitude-Keeps command s),
    same-IsLoaded s.model (set_awg_power command s).1.model p (set_awg_power-Keeps command s),
  )

  -- Where a stored waveform is selected and the amplitude is positive, OUTP ON drives the bench
  -- with exactly that waveform, from the present time on.
  pub set_awg_power-drives :
      (s : Seat (AwgModel F) F) (c : ℕ) (name : Text) (points : List F)
      → s.model.selected ≡ some (c ∷ name)
      → find (c ∷ name) s.model.waveforms ≡ some points
      → ltb (length points) 2 ≡ false
      → h.le s.model.amplitude_vpp (h.of_ℕ 0) ≡ false
      → set_awg_power (codes "OUTP ON") s ≡ (
        ok none,
        record {
          model = record s.model { output = true };
          world = record s.world {
            awg_waveform_name = some (c ∷ name);
            awg_points = points;
            awg_amplitude_vpp = s.model.amplitude_vpp;
            awg_output = true;
            stimulus_started_ms = some s.world.clock_ms;
          };
        },
      )
  unfolding set_awg_power load_selected act apply set_awg_waveform set_awg_output waveform_name
      waveform_points get_or boolean float text_eq argument parse_bool split_arg contains strip
      upper
  set_awg_power-drives s c name points selected stored enough positive = ground arith
