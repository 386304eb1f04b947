-- ===== src/Prelude/Somewhere.antt =====
-- An element of a list, with its place.
use mathlib.Core.Path.{◌≡◌, refl, ap, ◌∙◌}
use mathlib.Core.Logic.{◌↔◌, inl, inr}
use mathlib.Core.Bool.{Bool, true}
use mathlib.Core.List.{List, [], ◌∷◌, ◌++◌}
use native.Mathlib.Omega.{arith}
use instrument_benchmark_eva.Prelude.Tests.{Bool-cases}
use instrument_benchmark_eva.Prelude.Lists.{any}

-- A list with such an element somewhere.
pub Somewhere : {A : Type 0} → (A → Type 0) → List A → Type 0
Somewhere {A = A} P xs =
    (before : List A) × (x : A) × (after : List A) × (xs ≡ before ++ (x ∷ after)) × P x

module _ {A : Type 0} (P : A → Type 0) (p : A → Bool) (p_iff : (x : A) → (p x ≡ true) ↔ P x) where
  pub any-Somewhere : (xs : List A) → any p xs ≡ true → Somewhere P xs
  unfolding Somewhere
  any-Somewhere [] h = ground arith
  any-Somewhere (x ∷ xs) h = elim (Bool-cases (p x)) [
    | inl here ↦ ([], x, xs, refl, (p_iff x).0 here)
    | inr later ↦
        let (before, y, after, e, q) = any-Somewhere xs (ground arith) in
        (x ∷ before, y, after, ap (◌∷◌ x) e, q)
  ]

  any-middle :
      (before : List A) (x : A) (after : List A) → P x → any p (before ++ (x ∷ after)) ≡ true
  any-middle [] x after q = ground (arith, (p_iff x).1 q)
  any-middle (y ∷ before) x after q = ground (arith, any-middle before x after q)

  pub Somewhere-any : (xs : List A) → Somewhere P xs → any p xs ≡ true
  unfolding Somewhere
  Somewhere-any xs (before, x, after, e, q) = ap (any p) e ∙ any-middle before x after q
