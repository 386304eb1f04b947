-- ===== src/Instruments/Parse.antt =====
-- The arguments of SCPI commands: `_parse_bool`, `_parse_routes`, numbers, and `_resize`.
use instrument_benchmark_eva.Prelude.{
  ℕ, suc, zero, ◌%◌, Bool, true, false, ◌||◌, Option, none, some, List, [], ◌∷◌, ◌++◌, map, all,
  get_elem?, length, drop, ◌==◌, ◌≡◌, refl, ltb, select, if◌then◌else◌, Result, ok, err,
  command_error, value_error, index_error,
}
use instrument_benchmark_eva.Prelude.Text.{
  Text, codes, contains, isdigit, is_digit, is_space, repr, split_arg, split_list, split_on,
  starts_with, strip, upper,
}
use instrument_benchmark_eva.Prelude.Decimal.{ℤ, pos, negsuc, int, str, max_str_digits}

-- `text.split(None, 1)[1]`
unfoldable pub argument : Text → Result Text
argument text = elim (split_arg text) [ none ↦ err index_error | some t ↦ ok t ]

-- `int(text)` with its `ValueError`
unfoldable pub parse_int : Text → Result ℤ
unfolding int
parse_int t = elim (int t) [
  | some n ↦ ok n
  | none ↦ err (
      value_error (
        if ltb max_str_digits (length (select is_digit t))
        then codes "Exceeds the limit (4300 digits) for integer string conversion: value has "
          ++ (str (length (select is_digit t))
              ++ codes " digits; use sys.set_int_max_str_digits() to increase the limit")
        else codes "invalid literal for int() with base 10: " ++ repr t))
]

unfoldable pub parse_bool : Text → Result Bool
parse_bool value =
    let normalized = upper (strip value) in
    if contains normalized (codes "1" ∷ codes "ON" ∷ [])
    then ok true
    else if contains normalized (codes "0" ∷ codes "OFF" ∷ [])
    then ok false
    else err (command_error (codes "invalid boolean " ++ repr value))

-- A character of the class `[0-9,\s]`.
abbrev pub is_route_char : ℕ → Bool
is_route_char c = is_digit c || c == b',' || is_space c

-- The longest run of such characters, if a `)` ends it and it is not empty.
unfoldable pub route_group : Text → Option Text
route_group [] = none
route_group (c ∷ s) =
    let rest = route_group s in
    if c == b')'
    then some []
    else if is_route_char c
    then (elim rest [ none ↦ none | some g ↦ some (c ∷ g) ])
    else none

-- `re.search(r"\(@([0-9,\s]+)\)", text)`, with its group
unfoldable pub search_routes : Text → Option Text
unfolding route_group
search_routes [] = none
search_routes (c ∷ s) =
    let later = search_routes s in
    if starts_with (c ∷ s) (codes "(@")
    then (elim (route_group (drop 1 s)) [
      | none ↦ later
      | some [] ↦ later
      | some (g ∷ gs) ↦ some (g ∷ gs)
    ])
    else later

unfoldable pub parse_routes : Text → Result (List Text)
unfolding search_routes
parse_routes text = elim (search_routes text) [
  | none ↦ err (command_error (codes "route list must use (@channel,...) syntax"))
  | some group ↦
      let routes = map strip (split_list b',' group) in
      if all isdigit routes
      then ok routes
      else err (command_error (codes "route values must be numeric"))
]

-- `values[index % len(values)] for index in range(start, start + rounds)`
unfoldable pub cycle : {A : Type 0} → List A → ℕ → ℕ → List A
cycle values index zero = []
cycle values index (suc rounds) =
    let rest = cycle values (suc index) rounds in
    elim (get_elem? values (index % length values)) [ none ↦ rest | some v ↦ v ∷ rest ]

-- `_resize`; a range up to a negative number is empty
unfoldable pub resize : {A : Type 0} → List A → ℤ → List A
unfolding cycle
resize [] count = []
resize (v ∷ vs) (pos n) = cycle (v ∷ vs) 0 n
resize (v ∷ vs) (negsuc n) = []

routes_sample :
    parse_routes (codes "ROUT:CLOS (@1101, 1102)") ≡ ok (codes "1101" ∷ codes "1102" ∷ [])
unfolding parse_routes starts_with split_on strip isdigit
routes_sample = refl
