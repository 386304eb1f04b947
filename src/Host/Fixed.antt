-- ===== src/Host/Fixed.antt =====
-- A host whose floats are fixed-point numbers in parts of 600, for runs that need fractions.
use instrument_benchmark_eva.Prelude.{
  ℕ, ◌+◌, ◌-◌, ◌*◌, ◌/◌, Option, none, some, ok, leb, length, min, if◌then◌else◌,
}
use instrument_benchmark_eva.Prelude.Text.{Text}
use instrument_benchmark_eva.Prelude.Decimal.{pos, negsuc, int, str}
use instrument_benchmark_eva.Host.{Host}

abbrev parse_fixed : Text → Option ℕ
parse_fixed t = elim (int t) [
  | none ↦ none
  | some z ↦ elim z [ pos n ↦ some (n * 600) | negsuc n ↦ none ]
]

-- A product, of which a fraction of `b` never exceeds `b`.
abbrev pub mul_fixed : ℕ → ℕ → ℕ
mul_fixed a b = if leb a 600 then min b (a * b / 600) else a * b / 600

instance abbrev pub fixed : Host ℕ
fixed = record {
  le = leb;
  add = ◌+◌;
  sub = ◌-◌;
  mul = mul_fixed;
  div = λ a b. a * 600 / b;
  of_ℕ = λ n. n * 600;
  parse = parse_fixed;
  parse_error = λ t. t;
  fixed6 = str;
  fixed8 = str;
  scientific8 = str;
  show = str;
  round = λ n. ok (pos (n / 600));
  sha256_head = length;
}
