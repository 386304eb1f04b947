-- ===== src/Constraints/Before.antt =====
-- `_before` against the order that it is meant to check.
use instrument_benchmark_eva.Prelude.{
  ℕ, ◌<◌, ◌≡◌, ◌↔◌, refl, Bool, true, false, not, ◌||◌, List, [], ◌∷◌, arith, All, any, select,
  is_nil, ltb, ltb→lt, lt→ltb, All-map, sym, ◌∙◌, if◌then◌else◌,
}
use mathlib.Core.Bool.{false≢true}
use instrument_benchmark_eva.Prelude.Text.{Text, contains}
use instrument_benchmark_eva.Prelude.Dict.{text_eq_comm}
use instrument_benchmark_eva.Constraints.Events.{SemanticEvent}
use instrument_benchmark_eva.Constraints.Sets.{
  contains_congr, same_set_iff, All-contains, All-lookup,
}
use instrument_benchmark_eva.Constraints.Rules.{
  max_sequence, min_sequence, of_kind, before_passed, same_set, kinds,
}

-- Every event of the first kinds comes before every event of the second.
abbrev pub Precedes : List Text → List Text → List SemanticEvent → Type 0
Precedes before_kinds after_kinds events =
    All
      (λ b.
        of_kind before_kinds b ≡ true
        → All (λ a. of_kind after_kinds a ≡ true → b.sequence < a.sequence) events)
      events

-- Some event is of one of the kinds.
abbrev pub Occurs : List Text → List SemanticEvent → Type 0
Occurs ks events = any (of_kind ks) events ≡ true

-- Each of the kinds is the kind of some event.
abbrev pub AllOccur : List Text → List SemanticEvent → Type 0
AllOccur ks events = All (λ k. Occurs (k ∷ []) events) ks

below-max_sequence :
    (n : ℕ) (es : List SemanticEvent)
    → is_nil es ≡ false
    → ltb (max_sequence es) n ≡ true
    → All (λ b. b.sequence < n) es
unfolding max_sequence
below-max_sequence n [] e h = tt
below-max_sequence n (b ∷ []) e h = (ground arith, tt)
below-max_sequence n (b ∷ c ∷ es) e h =
    (ground arith, below-max_sequence n (c ∷ es) refl (ground arith))

max_sequence-below :
    (n : ℕ) (es : List SemanticEvent)
    → is_nil es ≡ false
    → All (λ b. b.sequence < n) es
    → ltb (max_sequence es) n ≡ true
unfolding max_sequence
max_sequence-below n [] e h = cc
max_sequence-below n (b ∷ []) e h = ground arith
max_sequence-below n (b ∷ c ∷ es) e h = ground (arith, max_sequence-below n (c ∷ es) refl h.1)

above-min_sequence :
    (n : ℕ) (es : List SemanticEvent)
    → is_nil es ≡ false
    → ltb n (min_sequence es) ≡ true
    → All (λ a. n < a.sequence) es
unfolding min_sequence
above-min_sequence n [] e h = tt
above-min_sequence n (b ∷ []) e h = (ground arith, tt)
above-min_sequence n (b ∷ c ∷ es) e h =
    (ground arith, above-min_sequence n (c ∷ es) refl (ground arith))

min_sequence-above :
    (n : ℕ) (es : List SemanticEvent)
    → is_nil es ≡ false
    → All (λ a. n < a.sequence) es
    → ltb n (min_sequence es) ≡ true
unfolding min_sequence
min_sequence-above n [] e h = cc
min_sequence-above n (b ∷ []) e h = ground arith
min_sequence-above n (b ∷ c ∷ es) e h = ground (arith, min_sequence-above n (c ∷ es) refl h.1)

-- A predicate on a selection is one on the list behind the test.
module _ {κ} {A : Type 0} (P : A → Type κ) (p : A → Bool) where
  All-of-select : (es : List A) → All P (select p es) → All (λ e. p e ≡ true → P e) es
  All-of-select [] h = tt
  All-of-select (e ∷ es) h = split (p e) refl h (All-of-select es)
    where
      split :
          (b : Bool)
          → p e ≡ b
          → All P (if b then e ∷ select p es else select p es)
          → (All P (select p es) → All (λ d. p d ≡ true → P d) es)
          → (p e ≡ true → P e) × All (λ d. p d ≡ true → P d) es
      split true same k rest = (λ _. k.0, rest k.1)
      split false same k rest = (λ y. absurd (false≢true (sym same ∙ y)), rest k)

  All-select : (es : List A) → All (λ e. p e ≡ true → P e) es → All P (select p es)
  All-select [] h = tt
  All-select (e ∷ es) h = split (p e) refl (All-select es h.1)
    where
      split :
          (b : Bool)
          → p e ≡ b
          → All P (select p es)
          → All P (if b then e ∷ select p es else select p es)
      split true same rest = (h.0 same, rest)
      split false same rest = rest

is_nil-select :
    {A : Type 0} (p : A → Bool) (es : List A) → (is_nil (select p es) ≡ false) ↔ (any p es ≡ true)
is_nil-select p [] = (ground arith, ground arith)
is_nil-select p (e ∷ es) = ground (arith, is_nil-select p es)

-- Comparing the latest of one list with the earliest of another compares each with each.
order_iff :
    (bs as_ : List SemanticEvent)
    → is_nil bs ≡ false
    → is_nil as_ ≡ false
    → (ltb (max_sequence bs) (min_sequence as_) ≡ true)
      ↔ All (λ b. All (λ a. b.sequence < a.sequence) as_) bs
order_iff bs as_ nb na = (
  λ h.
      All-map (λ b. b.sequence < min_sequence as_) _ bs
        (λ b lt. above-min_sequence b.sequence as_ na (lt→ltb _ _ lt))
        (below-max_sequence (min_sequence as_) bs nb h),
  λ h. max_sequence-below (min_sequence as_) bs nb (
      All-map (λ b. All (λ a. b.sequence < a.sequence) as_) _ bs
        (λ b all_. ltb→lt _ _ (min_sequence-above b.sequence as_ na all_)) h),
)

-- A kind is among those of the selected events exactly if it is wanted and occurs.
contains-kinds :
    (k : Text) (ks : List Text) (es : List SemanticEvent)
    → (contains k (kinds (select (of_kind ks) es)) ≡ true)
      ↔ ((contains k ks ≡ true) × Occurs (k ∷ []) es)
unfolding contains
contains-kinds k ks [] = (λ h. cc, λ h. cc)
contains-kinds k ks (e ∷ es) =
    let (to, from) = contains-kinds k ks es in
    (
      λ h. ground (arith, to, text_eq_comm k e.kind, contains_congr k e.kind ks),
      λ h. ground (arith, from, text_eq_comm k e.kind, contains_congr k e.kind ks),
    )

all-occur_iff :
    (ks : List Text) (es : List SemanticEvent)
    → (same_set (kinds (select (of_kind ks) es)) ks ≡ true) ↔ AllOccur ks es
all-occur_iff ks es = (
  λ h.
      All-map (λ k. contains k ks ≡ true) (λ k. Occurs (k ∷ []) es) ks
        (λ k c. ((contains-kinds k ks es).0 (((same_set_iff _ ks).0 h k).1 c)).1) (All-contains ks),
  λ h. (same_set_iff _ ks).1 (λ k. (
    λ c. ((contains-kinds k ks es).0 c).0,
    λ c. (contains-kinds k ks es).1 (c, All-lookup (λ j. Occurs (j ∷ []) es) k ks h c),
  )),
)

implied : (a : Bool) {b : Bool} → (a ≡ true → b ≡ true) → (not a || b) ≡ true
implied true h = h refl
implied false h = refl

-- What a `_before` constraint asks for.
pub record IsOrdered (events : List SemanticEvent) (before_kinds after_kinds : List Text)
    (all_before all_after : Bool) : Type 0 where
  pub some_before : Occurs before_kinds events
  pub some_after : Occurs after_kinds events
  pub each_before : all_before ≡ true → AllOccur before_kinds events
  pub each_after : all_after ≡ true → AllOccur after_kinds events
  pub in_order : Precedes before_kinds after_kinds events

-- A constraint on the order of kinds passes exactly if events of both kinds occur, where it asks
-- for it every kind does, and each event of the first kinds has a smaller sequence number than each
-- of the second.
pub before_passed_iff :
    (events : List SemanticEvent) (before_kinds after_kinds : List Text)
    (all_before all_after : Bool)
    → (before_passed events before_kinds after_kinds all_before all_after ≡ true)
      ↔ IsOrdered events before_kinds after_kinds all_before all_after
unfolding before_passed
before_passed_iff events bs as_ all_before all_after =
    let before : List SemanticEvent = select (of_kind bs) events in
    let after : List SemanticEvent = select (of_kind as_) events in
    let (nb, nb') = is_nil-select (of_kind bs) events in
    let (na, na') = is_nil-select (of_kind as_) events in
    let (kb, kb') = all-occur_iff bs events in
    let (ka, ka') = all-occur_iff as_ events in
    (
      λ h.
          let some_b : is_nil before ≡ false = ground arith in
          let some_a : is_nil after ≡ false = ground arith in
          let ordered : ltb (max_sequence before) (min_sequence after) ≡ true = ground arith in
          record {
            some_before = nb some_b;
            some_after = na some_a;
            each_before = λ e. kb (ground arith);
            each_after = λ e. ka (ground arith);
            in_order =
                All-map _ _ events (λ b k e. All-of-select _ (of_kind as_) events (k e))
                  (All-of-select _ (of_kind bs) events
                    ((order_iff before after some_b some_a).0 ordered));
          },
      λ r.
          let some_b : is_nil before ≡ false = nb' r.some_before in
          let some_a : is_nil after ≡ false = na' r.some_after in
          let ordered : ltb (max_sequence before) (min_sequence after) ≡ true =
            (order_iff before after some_b some_a).1 (
              All-select _ (of_kind bs) events (
                All-map _ _ events (λ b k e. All-select _ (of_kind as_) events (k e))
                  r.in_order)) in
          let kinds_b : (not all_before || same_set (kinds before) bs) ≡ true =
            implied all_before (λ e. kb' (r.each_before e)) in
          let kinds_a : (not all_after || same_set (kinds after) as_) ≡ true =
            implied all_after (λ e. ka' (r.each_after e)) in
          ground arith,
    )
