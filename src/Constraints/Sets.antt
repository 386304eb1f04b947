-- ===== src/Constraints/Sets.antt =====
-- Sets of texts as lists: what the Boolean tests on them decide.
use instrument_benchmark_eva.Prelude.{
  ◌≡◌, ◌↔◌, refl, Bool, true, false, List, [], ◌∷◌, arith, All, All-map, and_iff, ap,
}
use instrument_benchmark_eva.Prelude.Text.{Text, contains, text_eq, text_eq→eq, text_eq_refl}
use instrument_benchmark_eva.World.Data.{subset}
use instrument_benchmark_eva.Constraints.Rules.{same_set}

pub contains_congr :
    (a b : Text) (ts : List Text) → text_eq a b ≡ true → contains a ts ≡ contains b ts
contains_congr a b ts h = ap (λ t. contains t ts) (text_eq→eq a b h)

pub subset_iff : (ts b : List Text) → (subset ts b ≡ true) ↔ All (λ t. contains t b ≡ true) ts
unfolding subset
subset_iff [] b = (λ _. tt, λ _. refl)
subset_iff (t ∷ ts) b =
    let (to, from) = subset_iff ts b in
    (λ h. (ground arith, to (ground arith)), λ h. ground (arith, from h.1))

contains-cons : (t u : Text) (b : List Text) → contains t b ≡ true → contains t (u ∷ b) ≡ true
unfolding contains
contains-cons t u b h = ground arith

-- Every member of a list is in it.
pub All-contains : (ts : List Text) → All (λ t. contains t ts ≡ true) ts
All-contains [] = tt
All-contains (t ∷ ts) = (
  unfold contains in ground (arith, text_eq_refl t),
  All-map (λ u. contains u ts ≡ true) (λ u. contains u (t ∷ ts) ≡ true) ts
      (λ u. contains-cons u t ts) (All-contains ts),
)

pub All-lookup :
    (P : Text → Type 0) (t : Text) (ts : List Text) → All P ts → contains t ts ≡ true → P t
All-lookup P t [] h c = absurd (unfold contains in cc)
All-lookup P t (u ∷ ts) h c = split (text_eq t u) refl (All-lookup P t ts h.1)
  where
    split : (b : Bool) → text_eq t u ≡ b → (contains t ts ≡ true → P t) → P t
    split true e rest = rw (text_eq→eq t u e) h.0
    split false e rest = rest (unfold contains in ground arith)

subset_intro :
    (a b : List Text) → ((t : Text) → contains t a ≡ true → contains t b ≡ true) → subset a b ≡ true
subset_intro a b h =
    (subset_iff a b).1
      (All-map (λ t. contains t a ≡ true) (λ t. contains t b ≡ true) a h (All-contains a))

-- Two sets are equal exactly if they have the same members.
pub same_set_iff :
    (a b : List Text)
    → (same_set a b ≡ true) ↔ ((t : Text) → (contains t a ≡ true) ↔ (contains t b ≡ true))
unfolding same_set
same_set_iff a b = (
  λ h t. (
    All-lookup (λ u. contains u b ≡ true) t a ((subset_iff a b).0 (ground arith)),
    All-lookup (λ u. contains u a ≡ true) t b ((subset_iff b a).0 (ground arith)),
  ),
  λ h. (and_iff _ _).1 (subset_intro a b (λ t. (h t).0), subset_intro b a (λ t. (h t).1)),
)
