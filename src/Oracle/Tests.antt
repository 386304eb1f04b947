-- ===== src/Oracle/Tests.antt =====
-- Runs of the reconstruction, and its theorems at inputs that meet the hypotheses.
use instrument_benchmark_eva.Prelude.{ℕ, ◌≡◌, ◌≤◌, inr, refl, arith, List, [], ◌∷◌, length, max}
use instrument_benchmark_eva.Prelude.Decimal.{ℤ, pos, str, digits_of}
use instrument_benchmark_eva.Host.{Host}
use instrument_benchmark_eva.Host.Sample.{whole}
use instrument_benchmark_eva.Instruments.Scope.{
  ieee_block, pack_codes, sample_code, sample_codes, clamp_code,
}
use instrument_benchmark_eva.Oracle.Block.{decode_ieee_signed_bytes}
use instrument_benchmark_eva.Oracle.Curve.{decode-curve}

abbrev taken : List ℤ
taken = pos 0 ∷ pos 100 ∷ pos 127 ∷ []

-- A host whose division keeps the dividend.
abbrev undivided : Host ℕ
undivided = record whole { div = λ a b. a }

few_digits : max 2 (length (str 3)) ≤ 9
few_digits = unfold str digits_of in omega arith

decode-curve_example :
    (decode_ieee_signed_bytes (ieee_block 2 (pack_codes taken)) ≡ inr taken) × (length taken ≡ 3)
decode-curve_example =
    decode-curve ⦃h = undivided⦄ (0 ∷ 100 ∷ 200 ∷ []) taken 2
      (unfold sample_codes sample_code clamp_code in refl) few_digits
