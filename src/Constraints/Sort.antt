-- ===== src/Constraints/Sort.antt =====
-- `sort_events` puts events in order, and forgets the order in which they came.
use instrument_benchmark_eva.Prelude.{
  ℕ, ◌≤◌, ◌≡◌, refl, ap, sym, subst, ◌≢◌, ◌∙◌, Bool, true, false, List, [], ◌∷◌, arith, All, leb,
  if◌then◌else◌,
}
use mathlib.Core.Path.{ap₂}
use mathlib.Core.Logic.{∥∥₁_elim}
use mathlib.Core.List.{Mem, Memᴰ, Perm, Permᴰ, mem-cons_of_mem, mem-cons_self}
use mathlib.Core.List.Permᴰ
use instrument_benchmark_eva.Constraints.Events.{SemanticEvent}
use instrument_benchmark_eva.Constraints.Rules.{
  place_event, sort_events, check_ordered, evaluate_constraints,
}
use instrument_benchmark_eva.Constraints.Identity.{InOrder}

All-place_event {κ} :
    (P : SemanticEvent → Type κ) (e : SemanticEvent) (es : List SemanticEvent)
    → P e
    → All P es
    → All P (place_event e es)
unfolding place_event
All-place_event P e [] pe h = (pe, tt)
All-place_event P e (d ∷ es) pe h =
    split (leb e.sequence d.sequence) (All-place_event P e es pe h.1)
  where
    split :
        (b : Bool)
        → All P (place_event e es)
        → All P (if b then e ∷ d ∷ es else d ∷ place_event e es)
    split true rest = (pe, h)
    split false rest = (h.0, rest)

All-le_trans :
    (m n : ℕ) (es : List SemanticEvent)
    → m ≤ n
    → All (λ d. n ≤ d.sequence) es
    → All (λ d. m ≤ d.sequence) es
All-le_trans m n [] h a = tt
All-le_trans m n (e ∷ es) h a = (omega arith, All-le_trans m n es h a.1)

place_event-InOrder :
    (e : SemanticEvent) (es : List SemanticEvent) → InOrder es → InOrder (place_event e es)
unfolding place_event
place_event-InOrder e [] o = (tt, tt)
place_event-InOrder e (d ∷ es) o =
    split (leb e.sequence d.sequence) refl (place_event-InOrder e es o.1)
      (All-place_event (λ c. d.sequence ≤ c.sequence) e es)
  where
    split :
        (b : Bool)
        → leb e.sequence d.sequence ≡ b
        → InOrder (place_event e es)
        → (d.sequence ≤ e.sequence
            → All (λ c. d.sequence ≤ c.sequence) es
            → All (λ c. d.sequence ≤ c.sequence) (place_event e es))
        → InOrder (if b then e ∷ d ∷ es else d ∷ place_event e es)
    split true le rest above =
        let h : e.sequence ≤ d.sequence = ground arith in
        ((h, All-le_trans e.sequence d.sequence es h o.0), o)
    split false le rest above = (above (ground arith) o.0, rest)

-- Whatever the events, sorting them puts them in order.
pub sort_events-InOrder : (es : List SemanticEvent) → InOrder (sort_events es)
unfolding sort_events
sort_events-InOrder [] = tt
sort_events-InOrder (e ∷ es) = place_event-InOrder e (sort_events es) (sort_events-InOrder es)

events_set : IsSet (List SemanticEvent)
events_set = hlevel

place_event_comm :
    (e d : SemanticEvent) (es : List SemanticEvent)
    → (e.sequence ≡ d.sequence → e ≡ d)
    → place_event e (place_event d es) ≡ place_event d (place_event e es)
unfolding place_event
place_event_comm e d [] h = ground (arith, h)
place_event_comm e d (c ∷ es) h = ground (arith, h, place_event_comm e d es h)

-- No two events share a sequence number.
abbrev pub HasDistinctSequences : List SemanticEvent → Type 0
HasDistinctSequences [] = Unit
HasDistinctSequences (e ∷ es) = All (λ d. e.sequence ≢ d.sequence) es × HasDistinctSequences es

-- Members with one sequence number are one event: a form that any rearrangement keeps.
abbrev IsKeyed : List SemanticEvent → Type 0
IsKeyed es = (a b : SemanticEvent) → Mem a es → Mem b es → a.sequence ≡ b.sequence → a ≡ b

All-mem :
    (P : SemanticEvent → Type 0) (a : SemanticEvent) (es : List SemanticEvent)
    → All P es
    → Memᴰ a es
    → P a
All-mem P a [] h m = elim m [ ]
All-mem P a (e ∷ es) h (Memᴰ.head same) = subst P (sym same) h.0
All-mem P a (e ∷ es) h (Memᴰ.tail m) = All-mem P a es h.1 m

distinct_eq :
    (a b : SemanticEvent) (es : List SemanticEvent)
    → HasDistinctSequences es
    → Memᴰ a es
    → Memᴰ b es
    → a.sequence ≡ b.sequence
    → a ≡ b
distinct_eq a b [] h m k s = elim m [ ]
distinct_eq a b (e ∷ es) h (Memᴰ.head x) (Memᴰ.head y) s = x ∙ sym y
distinct_eq a b (e ∷ es) h (Memᴰ.head x) (Memᴰ.tail m) s =
    absurd (All-mem (λ d. e.sequence ≢ d.sequence) b es h.0 m (ap (λ d. d.sequence) (sym x) ∙ s))
distinct_eq a b (e ∷ es) h (Memᴰ.tail m) (Memᴰ.head y) s =
    absurd
      (All-mem (λ d. e.sequence ≢ d.sequence) a es h.0 m (ap (λ d. d.sequence) (sym y) ∙ sym s))
distinct_eq a b (e ∷ es) h (Memᴰ.tail m) (Memᴰ.tail k) s = distinct_eq a b es h.1 m k s

event_set : IsSet SemanticEvent
event_set = hlevel

distinct-IsKeyed : (es : List SemanticEvent) → HasDistinctSequences es → IsKeyed es
distinct-IsKeyed es h a b ma mb s =
    ∥∥₁_elim ma (event_set a b) (λ m. ∥∥₁_elim mb (event_set a b) (λ k. distinct_eq a b es h m k s))

sort_events-perm :
    {xs ys : List SemanticEvent} → Permᴰ xs ys → IsKeyed xs → sort_events xs ≡ sort_events ys
unfolding sort_events
sort_events-perm Permᴰ.nil h = refl
sort_events-perm (Permᴰ.cons {a = c} e p) h =
    ap₂ place_event e
      (sort_events-perm p (λ a b ma mb. h a b (mem-cons_of_mem c ma) (mem-cons_of_mem c mb)))
sort_events-perm (Permᴰ.swap {a} {b} {a' = b'} {b' = a'} {l} e f) h =
    place_event_comm a b (sort_events l) (h a b mem-cons_self (mem-cons_of_mem a mem-cons_self))
    ∙ ap₂ place_event f (ap (λ x. place_event x (sort_events l)) e)
sort_events-perm (Permᴰ.trans p q) h =
    sort_events-perm p h
    ∙ sort_events-perm q
        (λ a b ma mb. h a b (Permᴰ.mem (Permᴰ.symm p) ma) (Permᴰ.mem (Permᴰ.symm p) mb))

-- The constraints do not depend on the order in which the events are given, as long as no two have
-- the same sequence number.
pub evaluate_constraints-perm :
    (xs ys : List SemanticEvent) (safe : Bool)
    → Perm xs ys
    → HasDistinctSequences xs
    → evaluate_constraints xs safe ≡ evaluate_constraints ys safe
unfolding evaluate_constraints
evaluate_constraints-perm xs ys safe p h =
    ap (λ l. check_ordered l safe)
      (∥∥₁_elim p (events_set (sort_events xs) (sort_events ys))
        (λ q. sort_events-perm q (distinct-IsKeyed xs h)))
