-- ===== src/Liftout/Grade/Order.antt =====
-- What an order of markers is, and what lies between two markers.
use instrument_benchmark_eva.Prelude.{
  ℕ, ◌<◌, ◌≡◌, refl, sym, ap, ◌↔◌, arith, true, ◌&&◌, Option, none, some, List, [], ◌∷◌, ◌++◌, map,
  all, All, All-map,
}
use instrument_benchmark_eva.Liftout.Grade.Markers.{
  is_some, present, increasing, ordered, Markers, order_by_step,
}

-- Each number is below every later one.
abbrev pub Ascending : List ℕ → Type 0
Ascending [] = Unit
Ascending (n ∷ ns) = All (λ m. n < m) ns × Ascending ns

increasing→Ascending : (ns : List ℕ) → increasing ns ≡ true → Ascending ns
unfolding increasing
increasing→Ascending [] e = tt
increasing→Ascending (n ∷ []) e = (tt, tt)
increasing→Ascending (n ∷ m ∷ ns) e =
    let rest = increasing→Ascending (m ∷ ns) (ground arith) in
    let below : n < m = ground arith in
    ((below, All-map (λ k. m < k) (λ k. n < k) ns (λ k h. omega arith) rest.0), rest)

Ascending→increasing : (ns : List ℕ) → Ascending ns → increasing ns ≡ true
unfolding increasing
Ascending→increasing [] a = refl
Ascending→increasing (n ∷ []) a = refl
Ascending→increasing (n ∷ m ∷ ns) a = ground (arith, Ascending→increasing (m ∷ ns) a.1)

all-present : (vs : List (Option ℕ)) → all is_some vs ≡ true → vs ≡ map some (present vs)
unfolding present
all-present [] e = refl
all-present (none ∷ vs) e = ground arith
all-present (some n ∷ vs) e = ap (◌∷◌ (some n)) (all-present vs e)

map-some : (ns : List ℕ) → (all is_some (map some ns) ≡ true) × (present (map some ns) ≡ ns)
unfolding present
map-some [] = (refl, refl)
map-some (n ∷ ns) = ((map-some ns).0, ap (◌∷◌ n) (map-some ns).1)

-- `_ordered` holds of markers exactly where all of them are there, each before every later one.
pub ordered_iff :
    (vs : List (Option ℕ))
    → (ordered vs ≡ true) ↔ ((ns : List ℕ) × (vs ≡ map some ns) × Ascending ns)
unfolding ordered
ordered_iff vs = (
  (λ e. (
    present vs,
    all-present vs (ground arith),
    increasing→Ascending (present vs) (ground arith),
  )),
  (λ (ns, eq, a). rw eq (ground (arith, map-some ns, Ascending→increasing ns a))),
)

increasing-join :
    (ns : List ℕ) (n : ℕ) (ms : List ℕ)
    → increasing (ns ++ (n ∷ [])) ≡ true
    → increasing (n ∷ ms) ≡ true
    → increasing (ns ++ (n ∷ ms)) ≡ true
unfolding increasing
increasing-join [] n ms a b = b
increasing-join (x ∷ []) n ms a b = ground arith
increasing-join (x ∷ y ∷ ns) n ms a b =
    ground (arith, increasing-join (y ∷ ns) n ms (ground arith) b)

present-append : (vs ws : List (Option ℕ)) → present (vs ++ ws) ≡ present vs ++ present ws
unfolding present
present-append [] ws = refl
present-append (none ∷ vs) ws = present-append vs ws
present-append (some n ∷ vs) ws = ap (◌∷◌ n) (present-append vs ws)

all-append : (vs ws : List (Option ℕ)) → all is_some (vs ++ ws) ≡ (all is_some vs && all is_some ws)
all-append [] ws = refl
all-append (v ∷ vs) ws = ground (arith, all-append vs ws)

-- Two orders that meet at a marker are one.
ordered-join :
    (vs : List (Option ℕ)) (v : Option ℕ) (ws : List (Option ℕ))
    → ordered (vs ++ (v ∷ [])) ≡ true
    → ordered (v ∷ ws) ≡ true
    → ordered (vs ++ (v ∷ ws)) ≡ true
unfolding ordered present
ordered-join vs none ws a b = ground arith
ordered-join vs (some n) ws a b =
    let joined =
      increasing-join (present vs) n (present ws)
        (rw (sym (present-append vs (some n ∷ []))) (ground arith)) (ground arith) in
    ground (
      arith,
      joined,
      all-append vs (some n ∷ ws),
      all-append vs (some n ∷ []),
      present-append vs (some n ∷ ws),
    )

-- The fourteen stages of the work.
abbrev pub stages : Markers → List (Option ℕ)
stages m =
    m.preflight ∷ m.destructive_roi ∷ m.step_1 ∷ m.needle_joint ∷ m.source_separation ∷ m.carry
    ∷ m.step_2 ∷ m.transfer ∷ m.target_pose ∷ m.target_joint ∷ m.step_3 ∷ m.needle_separation
    ∷ m.needle_retraction ∷ m.step_4 ∷ []

-- Where every step is in order, the stages are one ascending list of sequence numbers.
pub order_by_step-stages :
    (m : Markers)
    → all (λ (_, b). b) (order_by_step m) ≡ true
    → (ns : List ℕ) × (stages m ≡ map some ns) × Ascending ns
unfolding order_by_step
order_by_step-stages m e =
    let last = m.needle_separation ∷ m.needle_retraction ∷ m.step_4 ∷ [] in
    let later = m.transfer ∷ m.target_pose ∷ m.target_joint ∷ m.step_3 ∷ last in
    let tail = m.needle_joint ∷ m.source_separation ∷ m.carry ∷ m.step_2 ∷ later in
    let from_3 : ordered (m.step_3 ∷ last) ≡ true = ground arith in
    let from_2 : ordered (m.step_2 ∷ later) ≡ true =
      ordered-join (m.step_2 ∷ m.transfer ∷ m.target_pose ∷ m.target_joint ∷ []) m.step_3 last
        (ground arith) from_3 in
    let from_1 : ordered (m.step_1 ∷ tail) ≡ true =
      ordered-join (m.step_1 ∷ m.needle_joint ∷ m.source_separation ∷ m.carry ∷ []) m.step_2 later
        (ground arith) from_2 in
    (ordered_iff (stages m)).0
      (ordered-join (m.preflight ∷ m.destructive_roi ∷ []) m.step_1 tail (ground arith) from_1)
