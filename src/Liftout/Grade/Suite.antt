-- ===== src/Liftout/Grade/Suite.antt =====
-- `aggregate_worlds`: the report on the suite.
use instrument_benchmark_eva.Prelude.{
  ℕ, ◌+◌, Bool, false, not, ◌&&◌, ◌||◌, Option, none, some, List, [], ◌∷◌, ◌++◌, map, all, any,
  select, length, leb, ◌==◌, is_nil, if◌then◌else◌, Result, ok, key_error,
}
use instrument_benchmark_eva.Prelude.Results.{◌>>=◌, or_err}
use instrument_benchmark_eva.Prelude.Text.{Text, codes, contains, text_eq}
use instrument_benchmark_eva.Prelude.Dict.{Dict, find}
use instrument_benchmark_eva.Host.{Host}
use instrument_benchmark_eva.Liftout.Rubric.Metrics.{Numbers, steps}
use instrument_benchmark_eva.Liftout.Grade.Evidence.{is_safe}
use instrument_benchmark_eva.Liftout.Grade.World.{FibsemWorldReport, fixed_worlds}

pub record SuiteGates : Type 0 where
  pub exact_ten_world_suite : Bool
  pub all_fixed_worlds_pass : Bool
  pub at_least_four_seeded_worlds_pass : Bool
  pub no_unsafe_terminal_world : Bool
  pub no_forbidden_access : Bool
  pub no_infrastructure_failure : Bool
  pub suite_score_at_least_90 : Bool

-- `all(gates.values())`
unfoldable pub all_suite_gates : SuiteGates → Bool
all_suite_gates g =
    g.exact_ten_world_suite && g.all_fixed_worlds_pass && g.at_least_four_seeded_worlds_pass
    && g.no_unsafe_terminal_world && g.no_forbidden_access && g.no_infrastructure_failure
    && g.suite_score_at_least_90

pub record FibsemEvaluationReport (F : Type 0) : Type 0 where
  pub score : Option F
  pub strict_pass : Bool
  pub retry_eligible : Bool
  pub strict_gates : SuiteGates
  pub dimension_scores : Dict F
  pub evidence_confidence : F
  pub worlds : List (FibsemWorldReport F)

-- `{f"seeded_{index:02d}" for index in range(1, 6)}`
abbrev pub seeded_worlds : List Text
seeded_worlds =
    codes "seeded_01"
    ∷ codes "seeded_02"
    ∷ codes "seeded_03"
    ∷ codes "seeded_04"
    ∷ codes "seeded_05"
    ∷ []

-- `set(a) == set(b)`
unfoldable pub same_set : List Text → List Text → Bool
unfolding contains text_eq
same_set a b = all (λ t. contains t b) a && all (λ t. contains t a) b

-- `sum` of Booleans
unfoldable pub count_true : List Bool → ℕ
count_true [] = 0
count_true (b ∷ bs) = (if b then 1 else 0) + count_true bs

module _ {F : Type 0} where
  -- The worlds of a category.
  unfoldable pub of_category : Text → List (FibsemWorldReport F) → List (FibsemWorldReport F)
  unfolding text_eq
  of_category category worlds = select (λ w. text_eq w.category category) worlds

  -- `[world.score for world in worlds if world.score is not None]`
  unfoldable pub numeric_scores : List (FibsemWorldReport F) → List F
  numeric_scores [] = []
  numeric_scores (w ∷ ws) =
      let rest = numeric_scores ws in elim w.score [ none ↦ rest | some s ↦ s ∷ rest ]

  -- `[world.step_scores[step] for world in worlds]`
  unfoldable pub scores_of : Text → List (FibsemWorldReport F) → Result (List F)
  unfolding find
  scores_of step [] = ok []
  scores_of step (w ∷ ws) = do
    s ← or_err (find step w.step_scores) key_error
    rest ← scores_of step ws
    ok (s ∷ rest)

  abbrev pub ids : List (FibsemWorldReport F) → List Text
  ids ws = map (λ w. w.world_id) ws

module _ {F : Type 0} ⦃h : Host F⦄ ⦃num : Numbers F⦄ where
  -- `_mean`, whose default is 0.0 at each call
  unfoldable pub mean : List F → F
  mean xs = if is_nil xs then h.of_ℕ 0 else h.div (num.sum xs) (h.of_ℕ (length xs))

  -- `dimensions`, before the artifacts
  unfoldable pub dimension_scores : List Text → List (FibsemWorldReport F) → Result (Dict F)
  unfolding scores_of mean
  dimension_scores [] worlds = ok []
  dimension_scores (step ∷ rest) worlds = do
    xs ← scores_of step worlds
    ds ← dimension_scores rest worlds
    ok ((step, mean xs) ∷ ds)

  -- The score of the suite.
  unfoldable pub suite_score : List (FibsemWorldReport F) → Option F
  unfolding numeric_scores
  suite_score worlds =
      if any (λ w. w.retry_eligible) worlds || is_nil (numeric_scores worlds)
      then none
      else some (h.div (num.sum (numeric_scores worlds)) (h.of_ℕ (length (numeric_scores worlds))))

  -- `gates`
  unfoldable pub suite_gates : List (FibsemWorldReport F) → SuiteGates
  unfolding of_category same_set count_true suite_score is_safe
  suite_gates worlds =
      let fixed = of_category (codes "fixed") worlds in
      let seeded = of_category (codes "seeded") worlds in
      let passes = map (λ w. w.strict_pass) seeded in
      record {
        exact_ten_world_suite =
            length worlds == 10
            && (same_set (ids fixed) fixed_worlds && same_set (ids seeded) seeded_worlds);
        all_fixed_worlds_pass = length fixed == 5 && all (λ w. w.strict_pass) fixed;
        at_least_four_seeded_worlds_pass = length seeded == 5 && leb 4 (count_true passes);
        no_unsafe_terminal_world = all (λ w. is_safe w.terminal) worlds;
        no_forbidden_access = all (λ w. w.strict_gates.no_forbidden_access) worlds;
        no_infrastructure_failure = not (any (λ w. w.retry_eligible) worlds);
        suite_score_at_least_90 = elim (suite_score worlds) [
          | none ↦ false
          | some s ↦ h.le (h.of_ℕ 90) s
        ];
      }

  unfoldable pub aggregate_worlds : List (FibsemWorldReport F) → Result (FibsemEvaluationReport F)
  unfolding suite_score suite_gates all_suite_gates dimension_scores mean
  aggregate_worlds worlds = do
    dimensions ← dimension_scores steps worlds
    ok (record {
      score = suite_score worlds;
      strict_pass = all_suite_gates (suite_gates worlds);
      retry_eligible = any (λ w. w.retry_eligible) worlds;
      strict_gates = suite_gates worlds;
      dimension_scores =
          dimensions ++ ((codes "artifacts", mean (map (λ w. w.artifact_score) worlds)) ∷ []);
      evidence_confidence = mean (map (λ w. w.evidence_confidence) worlds);
      worlds = worlds;
    })
