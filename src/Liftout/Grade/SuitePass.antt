-- ===== src/Liftout/Grade/SuitePass.antt =====
-- What a strict pass of the suite shows of its worlds.
use instrument_benchmark_eva.Prelude.{
  ◌≤◌, ◌≡◌, refl, sym, ◌∙◌, arith, Bool, true, false, not, ◌&&◌, Bool-cases, Option, none, some,
  List, [], ◌∷◌, map, all, any, All, All-map, select, length, inl, inr, and_iff, ==_iff, leb→le,
  Result-cases, ok,
}
use instrument_benchmark_eva.Prelude.Text.{Text, codes, contains, text_eq}
use instrument_benchmark_eva.Host.{Host}
use instrument_benchmark_eva.Liftout.Rubric.Metrics.{Numbers, steps}
use instrument_benchmark_eva.Liftout.Grade.Evidence.{is_safe}
use instrument_benchmark_eva.Liftout.Grade.World.{FibsemWorldReport, fixed_worlds}
use instrument_benchmark_eva.Liftout.Grade.Suite.{
  FibsemEvaluationReport, SuiteGates, all_suite_gates, ids, same_set, count_true, of_category,
  suite_score, suite_gates, dimension_scores, aggregate_worlds,
}

module _ {A : Type 0} where
  any-select : (q p : A → Bool) (xs : List A) → any q (select p xs) ≡ true → any q xs ≡ true
  any-select q p [] found = found
  any-select q p (x ∷ xs) found = elim (Bool-cases (p x)) [
    | inl chosen ↦ ground (arith, any-select q p xs)
    | inr other ↦ ground (arith, any-select q p xs)
  ]

  all-All : (q : A → Bool) (xs : List A) → all q xs ≡ true → All (λ x. q x ≡ true) xs
  all-All q [] e = tt
  all-All q (x ∷ xs) e = (ground arith, all-All q xs (ground arith))

module _ {F : Type 0} where
  -- Some world of the list has the name and a strict pass.
  abbrev pub passes : List (FibsemWorldReport F) → Text → Bool
  passes ws name = any (λ w. text_eq name w.world_id && w.strict_pass) ws

  contains-passes :
      (name : Text) (ws : List (FibsemWorldReport F))
      → all (λ w. w.strict_pass) ws ≡ true
      → contains name (map (λ w. w.world_id) ws) ≡ true
      → passes ws name ≡ true
  unfolding contains
  contains-passes name [] every found = ground arith
  contains-passes name (w ∷ ws) every found = ground (arith, contains-passes name ws)

all_suite_gates-true :
    (g : SuiteGates)
    → all_suite_gates g ≡ true
    → (g.exact_ten_world_suite ≡ true)
      × (g.all_fixed_worlds_pass ≡ true)
      × (g.at_least_four_seeded_worlds_pass ≡ true)
      × (g.no_unsafe_terminal_world ≡ true)
      × (g.no_forbidden_access ≡ true)
      × (g.no_infrastructure_failure ≡ true)
      × (g.suite_score_at_least_90 ≡ true)
unfolding all_suite_gates
all_suite_gates-true g e = (
  ground arith,
  ground arith,
  ground arith,
  ground arith,
  ground arith,
  ground arith,
  ground arith,
)

same_set-right : (a b : List Text) → same_set a b ≡ true → all (λ t. contains t a) b ≡ true
unfolding same_set
same_set-right a b e = ground arith

not-true : (b : Bool) → not b ≡ true → b ≡ false
not-true b e = ground arith

module _ {F : Type 0} ⦃h : Host F⦄ ⦃num : Numbers F⦄ where
  -- What a strict pass of a suite shows.
  pub record IsSuitePassed (worlds : List (FibsemWorldReport F)) : Type 0 where
    pub ten : length worlds ≡ 10
    pub fixed : All (λ name. passes worlds name ≡ true) fixed_worlds
    pub seeded : 4 ≤ count_true (map (λ w. w.strict_pass) (of_category (codes "seeded") worlds))
    pub safe : all (λ w. is_safe w.terminal) worlds ≡ true
    pub allowed : all (λ w. w.strict_gates.no_forbidden_access) worlds ≡ true
    pub healthy : any (λ w. w.retry_eligible) worlds ≡ false
    pub score : F
    pub scored : suite_score worlds ≡ some score
    pub high : h.le (h.of_ℕ 90) score ≡ true

  pub aggregate_worlds-fields :
      (worlds : List (FibsemWorldReport F)) (report : FibsemEvaluationReport F)
      → aggregate_worlds worlds ≡ ok report
      → (report.score ≡ suite_score worlds)
        × (report.strict_pass ≡ all_suite_gates (suite_gates worlds))
        × (report.retry_eligible ≡ any (λ w. w.retry_eligible) worlds)
  unfolding aggregate_worlds
  aggregate_worlds-fields worlds report done = elim (Result-cases (dimension_scores steps worlds)) [
    | inr (x, bad) ↦ ground arith
    | inl (ds, good) ↦ (ground arith, ground arith, ground arith)
  ]

  high-score :
      (o : Option F)
      → elim o [ none ↦ false | some s ↦ h.le (h.of_ℕ 90) s ] ≡ true
      → (s : F) × (o ≡ some s) × (h.le (h.of_ℕ 90) s ≡ true)
  high-score none e = ground arith
  high-score (some s) e = (s, refl, e)

  -- Where the gates hold.
  gates-pass :
      (worlds : List (FibsemWorldReport F))
      → all_suite_gates (suite_gates worlds) ≡ true
      → IsSuitePassed worlds
  unfolding suite_gates
  gates-pass worlds pass =
      let (exact, fixed_pass, seeded_pass, safe, allowed, healthy, high) =
        all_suite_gates-true (suite_gates worlds) pass in
      let fixed = of_category (codes "fixed") worlds in
      let (count, sets) = (and_iff _ _).0 exact in
      let named = same_set-right (ids fixed) fixed_worlds ((and_iff _ _).0 sets).0 in
      let every = (and_iff _ _).0 fixed_pass in
      let four = (and_iff _ _).0 seeded_pass in
      let (score, scored, at_least) = high-score (suite_score worlds) high in
      record {
        ten = (==_iff (length worlds) 10).0 count;
        fixed =
            All-map _ _ fixed_worlds
              (λ name found. any-select _ _ worlds (contains-passes name fixed every.1 found))
              (all-All (λ t. contains t (ids fixed)) fixed_worlds named);
        seeded = leb→le 4 _ four.1;
        safe = safe;
        allowed = allowed;
        healthy = not-true _ healthy;
        score = score;
        scored = scored;
        high = at_least;
      }

  -- A strict pass of the suite means that every fixed world passed, four of the seeded ones did,
  -- and no world was unsafe, forbidden or broken.
  pub aggregate_worlds-pass :
      (worlds : List (FibsemWorldReport F)) (report : FibsemEvaluationReport F)
      → aggregate_worlds worlds ≡ ok report
      → report.strict_pass ≡ true
      → IsSuitePassed worlds
  aggregate_worlds-pass worlds report done pass =
      gates-pass worlds (sym (aggregate_worlds-fields worlds report done).1 ∙ pass)
