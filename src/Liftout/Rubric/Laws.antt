-- ===== src/Liftout/Rubric/Laws.antt =====
-- What the bounds on scores take from floating-point arithmetic, about the whole numbers that
-- points are made of and the values between them.
use instrument_benchmark_eva.Prelude.{
  ℕ, ◌+◌, ◌≤◌, ◌≡◌, subst, arith, true, false, List, [], ◌∷◌, leb, le→leb, ◌∙◌,
}
use instrument_benchmark_eva.Host.{Host}
use instrument_benchmark_eva.Liftout.Rubric.Metrics.{Numbers, clamp01}

-- The sum of a list.
abbrev pub total_of : List ℕ → ℕ
total_of [] = 0
total_of (n ∷ ns) = n + total_of ns

-- Each value lies between 0 and the whole number at its place.
abbrev pub Between : {F : Type 0} → ⦃h : Host F⦄ → List F → List ℕ → Type 0
Between [] [] = Unit
Between [] (n ∷ ns) = ⊥
Between (x ∷ xs) [] = ⊥
Between ⦃h = h⦄ (x ∷ xs) (n ∷ ns) =
    (h.le (h.of_ℕ 0) x ≡ true) × (h.le x (h.of_ℕ n) ≡ true) × (n ≤ 100) × Between xs ns

-- IEEE 754 comparison, and arithmetic on whole numbers up to 100, which floats hold exactly.
pub record IsExact {F : Type 0} (h : Host F) (num : Numbers F) : Type 0 where
  pub le_trans : (a b c : F) → h.le a b ≡ true → h.le b c ≡ true → h.le a c ≡ true
  -- what compares is a number, and two numbers compare
  pub le_left : (a b : F) → h.le a b ≡ true → h.le a a ≡ true
  pub le_right : (a b : F) → h.le a b ≡ true → h.le b b ≡ true
  pub le_total : (a b : F) → h.le a a ≡ true → h.le b b ≡ true → h.le a b ≡ false → h.le b a ≡ true
  pub le_whole : (m n : ℕ) → m ≤ 100 → n ≤ 100 → h.le (h.of_ℕ m) (h.of_ℕ n) ≡ leb m n
  -- a fraction of a whole number of points
  pub mul_low :
      (x : F) (n : ℕ)
      → n ≤ 100
      → h.le (h.of_ℕ 0) x ≡ true
      → h.le x (h.of_ℕ 1) ≡ true
      → h.le (h.of_ℕ 0) (h.mul x (h.of_ℕ n)) ≡ true
  pub mul_high :
      (x : F) (n : ℕ)
      → n ≤ 100
      → h.le (h.of_ℕ 0) x ≡ true
      → h.le x (h.of_ℕ 1) ≡ true
      → h.le (h.mul x (h.of_ℕ n)) (h.of_ℕ n) ≡ true
  pub round_le : (a b : F) → h.le a b ≡ true → h.le (num.round6 a) (num.round6 b) ≡ true
  pub round_whole : (n : ℕ) → n ≤ 100 → num.round6 (h.of_ℕ n) ≡ h.of_ℕ n
  pub round_again : (a : F) → num.round6 (num.round6 a) ≡ num.round6 a
  pub sum_low :
      (xs : List F) (ns : List ℕ) → Between ⦃h = h⦄ xs ns → h.le (h.of_ℕ 0) (num.sum xs) ≡ true
  pub sum_high :
      (xs : List F) (ns : List ℕ)
      → Between ⦃h = h⦄ xs ns
      → total_of ns ≤ 100
      → h.le (num.sum xs) (h.of_ℕ (total_of ns)) ≡ true

module _ {F : Type 0} ⦃h : Host F⦄ ⦃num : Numbers F⦄ where
  pub whole_le : IsExact h num → (m n : ℕ) → m ≤ n → n ≤ 100 → h.le (h.of_ℕ m) (h.of_ℕ n) ≡ true
  whole_le law m n below small = law.le_whole m n (omega arith) small ∙ le→leb m n below

  -- A value between 0 and a whole number stays there when it is rounded.
  pub round_low :
      IsExact h num → (x : F) → h.le (h.of_ℕ 0) x ≡ true → h.le (h.of_ℕ 0) (num.round6 x) ≡ true
  round_low law x e =
      subst (λ y. h.le y (num.round6 x) ≡ true) (law.round_whole 0 (omega arith))
        (law.round_le _ x e)

  pub round_high :
      IsExact h num
      → (x : F) (n : ℕ) → n ≤ 100
      → h.le x (h.of_ℕ n) ≡ true
      → h.le (num.round6 x) (h.of_ℕ n) ≡ true
  round_high law x n small e =
      subst (λ y. h.le (num.round6 x) y ≡ true) (law.round_whole n small) (law.round_le x _ e)

  -- Clamping gives a number between 0 and 1, also for NaN.
  pub clamp01_low : IsExact h num → (x : F) → h.le (h.of_ℕ 0) (clamp01 x) ≡ true
  unfolding clamp01
  clamp01_low law x = ground (
    arith,
    law.le_whole 0 0 (omega arith) (omega arith),
    law.le_whole 0 1 (omega arith) (omega arith),
  )

  pub clamp01_high : IsExact h num → (x : F) → h.le (clamp01 x) (h.of_ℕ 1) ≡ true
  unfolding clamp01
  clamp01_high law x = ground (
    arith,
    law.le_whole 1 1 (omega arith) (omega arith),
    law.le_whole 0 1 (omega arith) (omega arith),
  )
