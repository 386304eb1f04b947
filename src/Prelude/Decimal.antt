-- ===== src/Prelude/Decimal.antt =====
-- Decimal numerals: `str(n)`, `zfill` and `int(text)`, and that they are inverse.
use Prim.Native.Nat.{ℕ, zero, suc, ◌+◌, ◌-◌, ◌*◌, ◌/◌, ◌%◌, ◌<◌, ◌≤◌}
use mathlib.Core.Path.{◌≡◌, refl}
use mathlib.Core.Bool.{Bool, true, false, ◌&&◌, ◌||◌}
use mathlib.Core.Option
use mathlib.Core.Option.{Option, none, some}
use mathlib.Core.List.{[], ◌∷◌, ◌++◌, reverse, reverse-cons, reverse-reverse}
use native.Mathlib.Omega.{arith}
use instrument_benchmark_eva.Prelude.Tests.{ltb, ◌==◌, if◌then◌else◌}
use instrument_benchmark_eva.Prelude.Lists.{
  length, all, select, replicate, length-append, length-replicate,
}
use instrument_benchmark_eva.Prelude.Text.{Text, is_digit, non_empty, strip, lstrip}

-- Python's `int`: `negsuc n` is -(n + 1).
pub data ℤ : Type 0 where
  pos : ℕ → ℤ
  negsuc : ℕ → ℤ

-- The digits of `n` in front of `acc`; the fuel is above `n`.
unfoldable pub digits_of : ℕ → ℕ → Text → Text
digits_of zero n acc = acc
digits_of (suc f) n acc =
    let rest = digits_of f (n / 10) ((48 + n % 10) ∷ acc) in
    if ltb n 10 then (48 + n) ∷ acc else rest

-- `str(n)` of a number that is not negative.
unfoldable pub str : ℕ → Text
unfolding digits_of
str n = digits_of (suc n) n []

unfoldable pub str_ℤ : ℤ → Text
unfolding str
str_ℤ (pos n) = str n
str_ℤ (negsuc n) = b'-' ∷ str (suc n)

abbrev pub is_sign : ℕ → Bool
is_sign c = c == b'+' || c == b'-'

-- `s.zfill(width)`
unfoldable pub zfill : ℕ → Text → Text
zfill width [] = replicate width b'0'
zfill width (c ∷ s) =
    let zeros = replicate (width - length (c ∷ s)) b'0' in
    if is_sign c then c ∷ (zeros ++ s) else zeros ++ (c ∷ s)

-- The digits of a numeral, with single underscores between digits.
unfoldable pub int_digits : ℕ → Bool → Text → Option ℕ
int_digits acc after_digit [] = if after_digit then some acc else none
int_digits acc after_digit (c ∷ s) =
    let more = int_digits (acc * 10 + (c - 48)) true s in
    let skipped = int_digits acc false s in
    if is_digit c then more else if c == b'_' && after_digit then skipped else none

abbrev pub negate : ℕ → ℤ
negate zero = pos 0
negate (suc n) = negsuc n

unfoldable pub signed : Text → Option ℤ
unfolding int_digits
signed [] = none
signed (c ∷ s) =
    if c == b'-'
    then Option.map negate (int_digits 0 false s)
    else if c == b'+'
    then Option.map pos (int_digits 0 false s)
    else Option.map pos (int_digits 0 false (c ∷ s))

-- The interpreter's limit on the digits of a text that `int` reads.
abbrev pub max_str_digits : ℕ
max_str_digits = 4300

-- `int(text)`: none is its `ValueError`.
unfoldable pub int : Text → Option ℤ
unfolding signed strip
int s = if ltb max_str_digits (length (select is_digit s)) then none else signed (strip s)

-- The value of a run of digits behind `acc`.
abbrev pub value : ℕ → Text → ℕ
value acc [] = acc
value acc (c ∷ s) = value (acc * 10 + (c - 48)) s

digits_of-value : (f n : ℕ) (acc : Text) → n < f → value 0 (digits_of f n acc) ≡ value n acc
unfolding digits_of
digits_of-value zero n acc h = elim h [ ]
digits_of-value (suc f) n acc h = ground (arith, digits_of-value f (n / 10) ((48 + n % 10) ∷ acc))

-- `str` writes a numeral of the number.
pub value-str : (n : ℕ) → value 0 (str n) ≡ n
unfolding str
value-str n = digits_of-value (suc n) n [] (omega arith)

digits_of-digits :
    (f n : ℕ) (acc : Text) → all is_digit acc ≡ true → all is_digit (digits_of f n acc) ≡ true
unfolding digits_of
digits_of-digits zero n acc h = h
digits_of-digits (suc f) n acc h = ground (arith, digits_of-digits f (n / 10) ((48 + n % 10) ∷ acc))

pub digits-str : (n : ℕ) → all is_digit (str n) ≡ true
unfolding str
digits-str n = digits_of-digits (suc n) n [] refl

-- A text with a digit first and none but digits is not changed by `lstrip`.
lstrip-digits : (s : Text) → all is_digit s ≡ true → lstrip s ≡ s
unfolding lstrip
lstrip-digits [] h = refl
lstrip-digits (c ∷ s) h = ground arith

all-append : (p : ℕ → Bool) (s t : Text) → all p s ≡ true → all p t ≡ true → all p (s ++ t) ≡ true
all-append p [] t hs ht = ht
all-append p (c ∷ s) t hs ht = ground (arith, all-append p s t)

all-reverse : (p : ℕ → Bool) (s : Text) → all p s ≡ true → all p (reverse s) ≡ true
all-reverse p [] h = refl
all-reverse p (c ∷ s) h =
    rw reverse-cons
      (all-append p (reverse s) (c ∷ []) (all-reverse p s (ground arith)) (ground arith))

strip-digits : (s : Text) → all is_digit s ≡ true → strip s ≡ s
unfolding strip
strip-digits s h =
    rw (lstrip-digits s h)
      (rw (lstrip-digits (reverse s) (all-reverse is_digit s h)) (reverse-reverse s))

int_digits-value :
    (acc : ℕ) (s : Text) → all is_digit s ≡ true → int_digits acc true s ≡ some (value acc s)
unfolding int_digits
int_digits-value acc [] h = refl
int_digits-value acc (c ∷ s) h = ground (arith, int_digits-value (acc * 10 + (c - 48)) s)

signed-digits :
    (s : Text) → non_empty s ≡ true → all is_digit s ≡ true → signed s ≡ some (pos (value 0 s))
unfolding signed
signed-digits [] e h = cc
signed-digits (c ∷ s) e h = ground (arith, int_digits-value (0 * 10 + (c - 48)) s)

length-select-le : (p : ℕ → Bool) (s : Text) → length (select p s) ≤ length s
length-select-le p [] = omega arith
length-select-le p (c ∷ s) = ground (arith, length-select-le p s)

-- `int` reads any run of digits within the interpreter's limit.
pub int-digits :
    (s : Text)
    → non_empty s ≡ true
    → all is_digit s ≡ true
    → length s ≤ max_str_digits
    → int s ≡ some (pos (value 0 s))
unfolding int
int-digits s e h short =
    rw (strip-digits s h) (ground (arith, signed-digits s e h, length-select-le is_digit s))

value-zeros : (n : ℕ) (s : Text) → value 0 (replicate n b'0' ++ s) ≡ value 0 s
value-zeros zero s = refl
value-zeros (suc n) s = value-zeros n s

value-zeros_only : (n : ℕ) → value 0 (replicate n b'0') ≡ 0
value-zeros_only zero = refl
value-zeros_only (suc n) = value-zeros_only n

all-zeros : (n : ℕ) → all is_digit (replicate n b'0') ≡ true
all-zeros zero = refl
all-zeros (suc n) = all-zeros n

-- What `zfill` adds in front of digits keeps their value.
pub zfill-digits :
    (width : ℕ) (s : Text)
    → all is_digit s ≡ true
    → (all is_digit (zfill width s) ≡ true) × (value 0 (zfill width s) ≡ value 0 s)
unfolding zfill
zfill-digits width [] h = (all-zeros width, value-zeros_only width)
zfill-digits width (c ∷ s) h = ground (
  arith,
  all-append is_digit (replicate (width - length (c ∷ s)) b'0') (c ∷ s)
      (all-zeros (width - length (c ∷ s))) h,
  value-zeros (width - length (c ∷ s)) (c ∷ s),
)

pub length-zfill : (width : ℕ) (s : Text) → length s ≤ width → length (zfill width s) ≡ width
unfolding zfill
length-zfill width [] h = length-replicate width b'0'
length-zfill width (c ∷ s) h = ground (
  arith,
  length-append (replicate (width - length (c ∷ s)) b'0') s,
  length-append (replicate (width - length (c ∷ s)) b'0') (c ∷ s),
  length-replicate {A = ℕ} (width - length (c ∷ s)) b'0',
)
