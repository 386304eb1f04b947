-- ===== src/Oracle/Curve.antt =====
-- What the oscilloscope sends, the oracle decodes.
use instrument_benchmark_eva.Prelude.{
  ℕ, zero, suc, ◌+◌, ◌≤◌, ◌≡◌, inl, inr, refl, List, [], ◌∷◌, ◌++◌, max, map, length, ap, ◌∙◌,
  arith, All, ok, some, Result-cases, true, subst, ◌%◌, ◌/◌,
}
use instrument_benchmark_eva.Prelude.Text.{Text, non_empty}
use instrument_benchmark_eva.Prelude.Decimal.{
  ℤ, pos, negsuc, str, digits_of, zfill, value-str, digits-str, int-digits, zfill-digits,
  length-zfill,
}
use instrument_benchmark_eva.Host.{Host}
use instrument_benchmark_eva.Instruments.Scope.{
  clamp_code, pack_code, pack_codes, ieee_block, sample_code, sample_codes, scaled,
}
use instrument_benchmark_eva.Oracle.Block.{signed_byte, decode_ieee_signed_bytes, decode-header}

length-digits_of : (f n : ℕ) (acc : Text) → 1 ≤ length (digits_of (suc f) n acc)
unfolding digits_of
length-digits_of zero n acc = ground arith
length-digits_of (suc f) n acc = ground (arith, length-digits_of f (n / 10) ((48 + n % 10) ∷ acc))

length-str : (n : ℕ) → 1 ≤ length (str n)
unfolding str
length-str n = length-digits_of n n []

str_one_digit : (n : ℕ) → n ≤ 9 → str n ≡ (48 + n) ∷ []
unfolding str digits_of
str_one_digit n h = ground arith

non_empty-length : (s : Text) → 1 ≤ length s → non_empty s ≡ true
non_empty-length [] h = ground arith
non_empty-length (c ∷ s) h = refl

-- A block of fewer than ten length digits decodes to the signed bytes of its payload.
pub decode-ieee_block :
    (length_digits : ℕ) (payload : Text)
    → max length_digits (length (str (length payload))) ≤ 9
    → decode_ieee_signed_bytes (ieee_block length_digits payload) ≡ inr (map signed_byte payload)
unfolding ieee_block
decode-ieee_block length_digits payload few =
    let digits = max length_digits (length (str (length payload))) in
    let numeral = zfill digits (str (length payload)) in
    let padded : length numeral ≡ digits =
      length-zfill digits (str (length payload)) (omega arith) in
    let (all_digits, same_value) =
      zfill-digits digits (str (length payload)) (digits-str (length payload)) in
    let some_digits : 1 ≤ length numeral = omega (arith, length-str (length payload)) in
    rw (str_one_digit digits few) (
      subst
        (λ k.
          decode_ieee_signed_bytes (b'#' ∷ (48 + k) ∷ (numeral ++ payload))
          ≡ inr (map signed_byte payload))
        padded
        (decode-header numeral payload some_digits (omega arith) (
          int-digits numeral (non_empty-length numeral some_digits) all_digits (omega arith)
          ∙ ap (λ n. some (pos n)) (same_value ∙ value-str (length payload)))))

-- One byte holds a code between -128 and 127.
abbrev pub IsByteCode : ℤ → Type 0
IsByteCode (pos n) = n ≤ 127
IsByteCode (negsuc n) = n ≤ 127

pub signed_byte-pack_code : (c : ℤ) → IsByteCode c → signed_byte (pack_code c) ≡ c
unfolding signed_byte pack_code
signed_byte-pack_code (pos n) h = ground arith
signed_byte-pack_code (negsuc n) h = ground arith

unpack_codes : (cs : List ℤ) → All IsByteCode cs → map signed_byte (pack_codes cs) ≡ cs
unpack_codes [] p = refl
unpack_codes (c ∷ cs) (p, q) = ground (arith, signed_byte-pack_code c p, unpack_codes cs q)

length-pack_codes : (cs : List ℤ) → length (pack_codes cs) ≡ length cs
length-pack_codes [] = refl
length-pack_codes (c ∷ cs) = ap suc (length-pack_codes cs)

clamp_code-IsByteCode : (c : ℤ) → IsByteCode (clamp_code c)
unfolding clamp_code
clamp_code-IsByteCode (pos n) = ground arith
clamp_code-IsByteCode (negsuc n) = ground arith

module _ {F : Type 0} ⦃h : Host F⦄ where
  sample_code-IsByteCode : (x : F) (c : ℤ) → sample_code x ≡ ok c → IsByteCode c
  unfolding sample_code
  sample_code-IsByteCode x c e = elim (Result-cases (h.round (scaled x))) [
    | inl (n, rounded) ↦ subst IsByteCode (ground arith) (clamp_code-IsByteCode n)
    | inr (y, bad) ↦ ground arith
  ]

  -- The codes that the oscilloscope takes of samples are one byte each, one for each sample.
  pub sample_codes-IsByteCode :
      (xs : List F) (cs : List ℤ)
      → sample_codes xs ≡ ok cs
      → All IsByteCode cs × (length cs ≡ length xs)
  unfolding sample_codes
  sample_codes-IsByteCode [] cs e =
      let none_taken : [] ≡ cs = ground arith in
      subst (λ l. All IsByteCode l × (length l ≡ 0)) none_taken (tt, refl)
  sample_codes-IsByteCode (x ∷ xs) cs e = elim (Result-cases (sample_code ⦃h = h⦄ x)) [
    | inr (y, bad) ↦ ground arith
    | inl (c, first) ↦ elim (Result-cases (sample_codes ⦃h = h⦄ xs)) [
      | inr (y, bad) ↦ ground arith
      | inl (cs', later) ↦
          let (bytes, count) = sample_codes-IsByteCode xs cs' later in
          let taken : c ∷ cs' ≡ cs = ground arith in
          subst (λ l. All IsByteCode l × (length l ≡ suc (length xs))) taken
            ((sample_code-IsByteCode x c first, bytes), ap suc count)
    ]
  ]

  -- The block that the oscilloscope sends for samples decodes to their codes, one for each sample,
  -- as long as the length of the block takes fewer than ten digits.
  pub decode-curve :
      (xs : List F) (cs : List ℤ) (length_digits : ℕ)
      → sample_codes xs ≡ ok cs
      → max length_digits (length (str (length cs))) ≤ 9
      → (decode_ieee_signed_bytes (ieee_block length_digits (pack_codes cs)) ≡ inr cs)
        × (length cs ≡ length xs)
  decode-curve xs cs length_digits taken few =
      let (bytes, count) = sample_codes-IsByteCode xs cs taken in
      (
        decode-ieee_block length_digits (pack_codes cs) (rw (length-pack_codes cs) few)
            ∙ ap inr (unpack_codes cs bytes),
        count,
      )
