-- ===== src/Host/Sample.antt =====
-- A host whose floats are whole numbers, for tests.
use instrument_benchmark_eva.Prelude.{ℕ, ◌+◌, ◌-◌, ◌*◌, ◌/◌, Option, none, some, ok, leb, length}
use instrument_benchmark_eva.Prelude.Text.{Text}
use instrument_benchmark_eva.Prelude.Decimal.{pos, negsuc, int, str}
use instrument_benchmark_eva.Host.{Host}

abbrev parse_whole : Text → Option ℕ
parse_whole t = elim (int t) [ none ↦ none | some z ↦ elim z [ pos n ↦ some n | negsuc n ↦ none ] ]

instance abbrev pub whole : Host ℕ
whole = record {
  le = leb;
  add = ◌+◌;
  sub = ◌-◌;
  mul = ◌*◌;
  div = ◌/◌;
  of_ℕ = λ n. n;
  parse = parse_whole;
  parse_error = λ t. t;
  fixed6 = str;
  fixed8 = str;
  scientific8 = str;
  show = str;
  round = λ n. ok (pos n);
  sha256_head = length;
}
