-- ===== src/Host.antt =====
-- What Python's runtime gives the program and the library has no model of: floating-point numbers
-- with their text forms, and the first eight bytes of a sha256 digest. Each operation is a
-- parameter; a comparison with NaN is false, so no order law is assumed here.
use instrument_benchmark_eva.Prelude.{
  ℕ, Bool, not, ◌&&◌, Option, none, some, Result, ok, err, value_error,
}
pub mod Sample
pub mod Fixed
use instrument_benchmark_eva.Prelude.Text.{Text}
use instrument_benchmark_eva.Prelude.Decimal.{ℤ}

pub record Host (F : Type 0) : Type 0 where
  -- `a <= b`
  pub le : F → F → Bool
  pub add : F → F → F
  pub sub : F → F → F
  pub mul : F → F → F
  pub div : F → F → F
  -- `float(n)`
  pub of_ℕ : ℕ → F
  -- `float(text)`: none is its `ValueError`, whose text is `parse_error`
  pub parse : Text → Option F
  pub parse_error : Text → Text
  -- the formats `:.6f`, `:+.8f`, `:+.8E` and `str`
  pub fixed6 : F → Text
  pub fixed8 : F → Text
  pub scientific8 : F → Text
  pub show : F → Text
  -- `round(x)`, with the `ValueError` and the `OverflowError` of a value that is not finite
  pub round : F → Result ℤ
  -- the first 8 bytes of a sha256 digest, as a big-endian number
  pub sha256_head : Text → ℕ

module _ {F : Type 0} ⦃h : Host F⦄ where
  -- `a < b`: not implied by `not (b <= a)`, as NaN is below nothing
  abbrev pub lt_float : F → F → Bool
  lt_float a b = h.le a b && not (h.le b a)

  -- `a == b`
  abbrev pub eq_float : F → F → Bool
  eq_float a b = h.le a b && h.le b a

  -- `float(text)`
  unfoldable pub parse_float : Text → Result F
  parse_float t = elim (h.parse t) [ none ↦ err (value_error (h.parse_error t)) | some x ↦ ok x ]
