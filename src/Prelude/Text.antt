-- ===== src/Prelude/Text.antt =====
-- ASCII text as a list of character codes: Python's `str` methods that the program calls.
use Prim.Native.Char.{code}
use Prim.Native.String.{String}
use Prim.Native.Nat.{ℕ, ◌-◌, ◌+◌, ◌/◌, ◌%◌}
use mathlib.Core.Path.{◌≡◌, refl}
use mathlib.Core.Logic.{◌↔◌}
use mathlib.Core.Bool.{Bool, true, false, not, ◌&&◌, ◌||◌}
use mathlib.Core.Option.{Option, none, some}
use mathlib.Core.List.{List, [], ◌∷◌, ◌++◌, map, reverse}
use native.Mathlib.Omega.{arith}
use instrument_benchmark_eva.Prelude.Tests.{leb, ◌==◌, if◌then◌else◌}
use instrument_benchmark_eva.Prelude.Lists.{all}

abbrev pub Text : Type 0
Text = List ℕ

-- A literal.
abbrev pub codes : String → Text
codes String.[] = []
codes (String.◌∷◌ c s) = code c ∷ codes s

-- `a == b`
unfoldable pub text_eq : Text → Text → Bool
text_eq [] [] = true
text_eq (x ∷ xs) (y ∷ ys) = x == y && text_eq xs ys
text_eq _ _ = false

pub text_eq_refl : (a : Text) → text_eq a a ≡ true
unfolding text_eq
text_eq_refl [] = refl
text_eq_refl (x ∷ xs) = ground (arith, text_eq_refl xs)

pub text_eq→eq : (a b : Text) → text_eq a b ≡ true → a ≡ b
unfolding text_eq
text_eq→eq [] [] h = refl
text_eq→eq (x ∷ xs) (y ∷ ys) h = ground (arith, text_eq→eq xs ys)
text_eq→eq [] (y ∷ ys) h = cc
text_eq→eq (x ∷ xs) [] h = cc

pub text_eq_iff : (a b : Text) → (text_eq a b ≡ true) ↔ (a ≡ b)
text_eq_iff a b = (text_eq→eq a b, λ e. rw e (text_eq_refl b))

-- `a <= b` on texts, by code points.
unfoldable pub text_le : Text → Text → Bool
text_le [] b = true
text_le (x ∷ xs) [] = false
text_le (x ∷ xs) (y ∷ ys) = let rest = text_le xs ys in if x == y then rest else leb x y

-- `a in texts`
unfoldable pub contains : Text → List Text → Bool
unfolding text_eq
contains a [] = false
contains a (x ∷ xs) = text_eq a x || contains a xs

-- `c.isdigit()` of an ASCII character.
abbrev pub is_digit : ℕ → Bool
is_digit c = leb b'0' c && leb c b'9'

abbrev pub non_empty : Text → Bool
non_empty [] = false
non_empty (c ∷ s) = true

-- `s.isdigit()`
unfoldable pub isdigit : Text → Bool
isdigit s = non_empty s && all is_digit s

-- `c.isspace()` of an ASCII character: tab to carriage return, the separators, space.
abbrev pub is_space : ℕ → Bool
is_space c = (leb 9 c && leb c 13) || (leb 28 c && leb c 32)

unfoldable pub lstrip : Text → Text
lstrip [] = []
lstrip (c ∷ s) = let rest = lstrip s in if is_space c then rest else c ∷ s

-- `s.strip()`
unfoldable pub strip : Text → Text
unfolding lstrip
strip s = reverse (lstrip (reverse (lstrip s)))

-- `bs.strip()` of bytes, where the separators 28 to 31 are no blanks
abbrev is_blank : ℕ → Bool
is_blank c = (leb 9 c && leb c 13) || c == 32

unfoldable lstrip_bytes : Text → Text
lstrip_bytes [] = []
lstrip_bytes (c ∷ s) = let rest = lstrip_bytes s in if is_blank c then rest else c ∷ s

unfoldable pub strip_bytes : Text → Text
unfolding lstrip_bytes
strip_bytes s = reverse (lstrip_bytes (reverse (lstrip_bytes s)))

abbrev pub upper_char : ℕ → ℕ
upper_char c = if leb b'a' c && leb c b'z' then c - 32 else c

-- `s.upper()`
unfoldable pub upper : Text → Text
upper s = map upper_char s

-- `s.startswith(p)`
unfoldable pub starts_with : Text → Text → Bool
starts_with s [] = true
starts_with [] (p ∷ ps) = false
starts_with (c ∷ s) (p ∷ ps) = c == p && starts_with s ps

-- The rest behind the first word and the blanks after it.
unfoldable pub after_word : Text → Text
unfolding lstrip
after_word [] = []
after_word (c ∷ s) = let rest = after_word s in if is_space c then lstrip s else rest

-- `s.split(None, 1)[1]`: none is the `IndexError` of a text with fewer than two words.
unfoldable pub split_arg : Text → Option Text
unfolding after_word
split_arg s = elim (after_word (lstrip s)) [ [] ↦ none | c ∷ rest ↦ some (c ∷ rest) ]

-- `s.split(sep)` at a one-character separator: always at least one piece.
unfoldable pub split_on : ℕ → Text → Text × List Text
split_on sep [] = ([], [])
split_on sep (c ∷ s) =
    let (piece, pieces) = split_on sep s in
    if c == sep then ([], piece ∷ pieces) else (c ∷ piece, pieces)

abbrev pub split_list : ℕ → Text → List Text
split_list sep s = let (piece, pieces) = split_on sep s in piece ∷ pieces

-- `s.split(sep, 1)`: none where the separator is missing.
unfoldable pub split_first : ℕ → Text → Option (Text × Text)
split_first sep [] = none
split_first sep (c ∷ s) =
    let rest = split_first sep s in
    if c == sep then some ([], s) else elim rest [ none ↦ none | some (a, b) ↦ some (c ∷ a, b) ]

-- `sep.join(texts)`
unfoldable pub join : Text → List Text → Text
join sep [] = []
join sep (x ∷ []) = x
join sep (x ∷ y ∷ xs) = x ++ (sep ++ join sep (y ∷ xs))

pub text_sample :
    (strip (codes "  ab c ") ≡ codes "ab c")
    × (split_arg (codes "VOLT  5.0") ≡ some (codes "5.0"))
    × (split_list b',' (codes "a,,b") ≡ codes "a" ∷ [] ∷ codes "b" ∷ [])
    × (upper (codes "volt?") ≡ codes "VOLT?")
    × (starts_with (codes "VOLT 5") (codes "VOLT ") ≡ true)
unfolding strip split_arg split_on upper starts_with
text_sample = (refl, refl, refl, refl, refl)

abbrev pub has_char : ℕ → Text → Bool
has_char c [] = false
has_char c (x ∷ s) = x == c || has_char c s

-- A hexadecimal digit of a number below 16.
abbrev pub hex_digit : ℕ → ℕ
hex_digit n = if leb n 9 then 48 + n else 87 + n

-- How `repr` shows a character between the quotes `q`.
repr_char : ℕ → ℕ → Text
repr_char q c =
    if c == q || c == 92
    then 92 ∷ c ∷ []
    else if c == 9
    then codes "\\t"
    else if c == 10
    then codes "\\n"
    else if c == 13
    then codes "\\r"
    else if leb c 31 || leb 127 c
    then codes "\\x" ++ (hex_digit (c / 16) ∷ hex_digit (c % 16) ∷ [])
    else c ∷ []

repr_chars : ℕ → Text → Text
repr_chars q [] = []
repr_chars q (c ∷ s) = repr_char q c ++ repr_chars q s

-- `repr(s)`
unfoldable pub repr : Text → Text
unfolding repr_char repr_chars
repr s =
    let q = if has_char 39 s && not (has_char 34 s) then 34 else 39 in
    q ∷ (repr_chars q s ++ q ∷ [])
