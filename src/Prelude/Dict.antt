-- ===== src/Prelude/Dict.antt =====
-- A Python dictionary with text keys, in the order of first insertion.
use mathlib.Core.Path.{◌≡◌, refl, ap}
use mathlib.Core.Bool.{true}
use mathlib.Core.Option.{Option, none, some}
use mathlib.Core.List.{List, [], ◌∷◌}
use native.Mathlib.Omega.{arith}
use instrument_benchmark_eva.Prelude.Tests.{if◌then◌else◌}
use instrument_benchmark_eva.Prelude.Text.{Text, text_eq, text_eq→eq}

abbrev pub Dict {ℓ} : Type ℓ → Type ℓ
Dict V = List (Text × V)

module _ {ℓ} {V : Type ℓ} where
  -- `d.get(key)`
  unfoldable pub find : Text → Dict V → Option V
  find k [] = none
  find k ((j, v) ∷ d) = if text_eq j k then some v else find k d

  -- `d[key] = value`
  unfoldable pub put : Text → V → Dict V → Dict V
  put k v [] = (k, v) ∷ []
  put k v ((j, w) ∷ d) = if text_eq j k then (j, v) ∷ d else (j, w) ∷ put k v d

  -- `del d[key]`
  unfoldable pub remove : Text → Dict V → Dict V
  remove k [] = []
  remove k ((j, w) ∷ d) = let rest = remove k d in if text_eq j k then rest else (j, w) ∷ rest

pub text_eq_comm : (a b : Text) → text_eq a b ≡ text_eq b a
unfolding text_eq
text_eq_comm [] [] = refl
text_eq_comm [] (y ∷ ys) = refl
text_eq_comm (x ∷ xs) [] = refl
text_eq_comm (x ∷ xs) (y ∷ ys) = ground (arith, text_eq_comm xs ys)

pub text_eq_congr : (a b r : Text) → text_eq a b ≡ true → text_eq a r ≡ text_eq b r
text_eq_congr a b r h = ap (λ t. text_eq t r) (text_eq→eq a b h)

module _ {ℓ} {V : Type ℓ} where
  pub find-put :
      (k j : Text) (v : V) (d : Dict V)
      → find j (put k v d) ≡ (if text_eq k j then some v else find j d)
  unfolding find put
  find-put k j v [] = refl
  find-put k j v ((i, w) ∷ d) = ground (
    arith,
    find-put k j v d,
    text_eq_congr i k j,
    text_eq_congr k j i,
    text_eq_comm i k,
    text_eq_comm i j,
  )

  pub find-remove :
      (k j : Text) (d : Dict V) → find j (remove k d) ≡ (if text_eq k j then none else find j d)
  unfolding find remove
  find-remove k j [] = ground arith
  find-remove k j ((i, w) ∷ d) = ground (
    arith,
    find-remove k j d,
    text_eq_congr i k j,
    text_eq_congr k j i,
    text_eq_comm i k,
    text_eq_comm i j,
  )
