-- ===== src/Oracle/Block.antt =====
-- `_decode_ieee_signed_bytes`.
use instrument_benchmark_eva.Prelude.{
  ℕ, ◌+◌, ◌-◌, ◌≤◌, ◌≡◌, ◌⊎◌, inl, inr, not, ◌||◌, ◌&&◌, none, some, List, ◌∷◌, ◌++◌, map, length,
  get_elem?, take, drop, ltb, leb, ◌==◌, if◌then◌else◌, arith, length-append, take-append_length,
  drop-append_length,
}
use instrument_benchmark_eva.Prelude.Text.{Text, codes, starts_with}
use instrument_benchmark_eva.Prelude.Decimal.{ℤ, pos, negsuc, int}

-- A result, or the text of an `OracleError`.
abbrev pub OrError : Type 0 → Type 0
OrError A = Text ⊎ A

-- `struct.unpack("b", …)` of one byte
unfoldable pub signed_byte : ℕ → ℤ
signed_byte b = if ltb b 128 then pos b else negsuc (255 - b)

-- The payload behind a header of `digits` length digits.
block_payload : ℕ → Text → OrError (List ℤ)
unfolding int
block_payload digits payload =
    if ltb (length payload) (2 + digits)
    then inl (codes "scope block header is truncated")
    else elim (int (take digits (drop 2 payload))) [
      | none ↦ inl (codes "scope block payload length is malformed")
      | some (negsuc n) ↦ inl (codes "scope block payload length does not match header")
      | some (pos declared) ↦
          if not (2 + digits + declared == length payload)
          then inl (codes "scope block payload length does not match header")
          else inr (map signed_byte (drop (2 + digits) payload))
    ]

unfoldable pub decode_ieee_signed_bytes : Text → OrError (List ℤ)
unfolding block_payload starts_with
decode_ieee_signed_bytes payload =
    if ltb (length payload) 3 || not (starts_with payload (codes "#"))
    then inl (codes "scope response is not an IEEE definite-length block")
    else elim (get_elem? payload 1) [
      | none ↦ inl (codes "scope response is not an IEEE definite-length block")
      | some digit ↦
          if not (leb 49 digit && leb digit 57)
          then inl (codes "scope block length-digit count is invalid")
          else block_payload (digit - 48) payload
    ]

-- A block whose header is a numeral of the length of the rest decodes to the rest.
pub decode-header :
    (z bytes : Text)
    → 1 ≤ length z
    → length z ≤ 9
    → int z ≡ some (pos (length bytes))
    → decode_ieee_signed_bytes (b'#' ∷ (48 + length z) ∷ (z ++ bytes)) ≡ inr (map signed_byte bytes)
unfolding decode_ieee_signed_bytes block_payload starts_with
decode-header z bytes some_digits few_digits numeral =
    ground (arith, length-append z bytes, take-append_length z bytes, drop-append_length z bytes)
