-- ===== src/Instruments/Scope.antt =====
-- `ScopeModel`.
use instrument_benchmark_eva.Prelude.{
  ℕ, ◌-◌, Option, none, some, List, [], ◌∷◌, ◌++◌, not, length, leb, max, if◌then◌else◌, Exec,
  Result, ok, err, command_error, pure, raise_if, lift, gets, ◌>>=◌, ◌>>◌,
}
use instrument_benchmark_eva.Prelude.Text.{Text, codes, text_eq, starts_with, upper}
use instrument_benchmark_eva.Prelude.Decimal.{ℤ, pos, negsuc, str, zfill}
use instrument_benchmark_eva.Host.{Host}
use instrument_benchmark_eva.World.Ready.{scope_samples}
use instrument_benchmark_eva.Instruments.Base.{
  Seat, Instrument, assign, observe, undefined_header, line,
}
use instrument_benchmark_eva.Instruments.Parse.{argument, parse_int}
use instrument_benchmark_eva.Instruments.Psu.{is_one}

pub record ScopeModel : Type 0 where
  pub source : Text
  pub encoding : Text
  pub width : ℤ

abbrev pub scope_initial : ScopeModel
scope_initial = record { source = codes "CH1"; encoding = codes "RIBINARY"; width = pos 1 }

-- `max(-128, min(127, n))`
unfoldable pub clamp_code : ℤ → ℤ
clamp_code (pos n) = pos (if leb n 127 then n else 127)
clamp_code (negsuc n) = negsuc (if leb n 127 then n else 127)

-- `struct.pack("b", code)` of a code in range: its two's complement byte.
unfoldable pub pack_code : ℤ → ℕ
pack_code (pos n) = n
pack_code (negsuc n) = 255 - n

-- The IEEE 488.2 block: `#`, the number of length digits, the length, the bytes.
unfoldable pub ieee_block : ℕ → Text → Text
ieee_block length_digits payload =
    let digits = max length_digits (length (str (length payload))) in
    b'#' ∷ (str digits ++ (zfill digits (str (length payload)) ++ payload))

-- `map pack_code`, as the join of the packed bytes
abbrev pub pack_codes : List ℤ → Text
pack_codes [] = []
pack_codes (c ∷ cs) = pack_code c ∷ pack_codes cs

module _ {F : Type 0} ⦃h : Host F⦄ where
  -- `ymult`, `yoff`, `yzero`
  abbrev pub ymult : F
  ymult = h.div (h.of_ℕ 2) (h.of_ℕ 100)

  abbrev pub yoff : F
  yoff = h.of_ℕ 0

  abbrev pub yzero : F
  yzero = h.of_ℕ 0

  -- `(value - yzero) / ymult + yoff`
  abbrev pub scaled : F → F
  scaled value = h.add (h.div (h.sub value yzero) ymult) yoff

  -- The code of one sample.
  unfoldable pub sample_code : F → Result ℤ
  unfolding clamp_code
  sample_code value = elim (h.round (scaled value)) [ err e ↦ err e | ok n ↦ ok (clamp_code n) ]

  unfoldable pub sample_codes : List F → Result (List ℤ)
  sample_codes [] = ok []
  sample_codes (x ∷ xs) =
      let rest = sample_codes xs in
      elim (sample_code x) [
        | err e ↦ err e
        | ok c ↦ elim rest [ err e ↦ err e | ok cs ↦ ok (c ∷ cs) ]
      ]

  unfoldable pub curve : Exec (Seat ScopeModel F) (Option Text)
  curve = do
    values ← observe scope_samples
    codes_ ← lift (sample_codes values)
    length_digits ← gets (λ s. s.world.spec.binary_length_digits)
    pure (some (ieee_block length_digits (pack_codes codes_)))

  unfoldable pub set_source : Text → Exec (Seat ScopeModel F) (Option Text)
  set_source text = do
    arg ← lift (argument text)
    raise_if (not (text_eq (upper arg) (codes "CH1")))
        (command_error (codes "only CH1 observes the DUT"))
    assign (λ m. record m { source = upper arg })
    pure none

  unfoldable pub set_encoding : Text → Exec (Seat ScopeModel F) (Option Text)
  set_encoding text = do
    arg ← lift (argument text)
    raise_if (not (text_eq (upper arg) (codes "RIBINARY")))
        (command_error (codes "RIBINARY encoding is required"))
    assign (λ m. record m { encoding = upper arg })
    pure none

  unfoldable pub set_width : Text → Exec (Seat ScopeModel F) (Option Text)
  set_width text = do
    arg ← lift (argument text)
    width ← lift (parse_int arg)
    raise_if (not (is_one width)) (command_error (codes "only one-byte samples are supported"))
    assign (λ m. record m { width = width })
    pure none

  unfoldable pub count_points : Exec (Seat ScopeModel F) (Option Text)
  count_points = do values ← observe scope_samples; pure (some (line (str (length values))))

  unfoldable pub scope_handle : Text → Exec (Seat ScopeModel F) (Option Text)
  scope_handle text s =
      let command = upper text in
      if starts_with command (codes "DATA:SOURCE ")
      then set_source text s
      else if starts_with command (codes "DATA:ENC ")
      then set_encoding text s
      else if starts_with command (codes "DATA:WIDTH ")
      then set_width text s
      else if text_eq command (codes "WFMOUTPRE:YMULT?")
      then (ok (some (line (h.show ymult))), s)
      else if text_eq command (codes "WFMOUTPRE:YOFF?")
      then (ok (some (line (h.show yoff))), s)
      else if text_eq command (codes "WFMOUTPRE:YZERO?")
      then (ok (some (line (h.show yzero))), s)
      else if text_eq command (codes "WFMOUTPRE:NR_PT?")
      then count_points s
      else if text_eq command (codes "CURVE?")
      then curve s
      else undefined_header text s

  abbrev pub scope : Instrument ScopeModel F
  scope = record {
    identity = codes "IAB,Virtual-MSO44,SCOPE001,1.0";
    handle = scope_handle;
    reset = assign (λ m. scope_initial);
  }
