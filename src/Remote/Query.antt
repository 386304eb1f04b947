-- ===== src/Remote/Query.antt =====
-- query_filter.py: the filter of resource names, around a worker process.
use instrument_benchmark_eva.Prelude.{
  ℕ, ◌≤◌, ◌≡◌, subst, Option-cases, leb→le, arith, true, not, ◌||◌, ◌==◌, Bool-cases, Option, none,
  some, ◌*◌, List, [], ◌∷◌, length, leb, All, inl, inr, ◌≢◌, if◌then◌else◌,
}
use instrument_benchmark_eva.Prelude.Text.{Text, codes, contains}
use instrument_benchmark_eva.Prelude.Decimal.{ℤ}
use instrument_benchmark_eva.Liftout.Value.{
  Value, null, boolean, real, other, text, integer, sequence, mapping, Values, no_values, value,
}
use instrument_benchmark_eva.Liftout.Journal.{has_exactly}
use instrument_benchmark_eva.Liftout.Value.{lookup}
use instrument_benchmark_eva.Remote.Outcome.{query_rejected, trusted_failure, Outcome, done, raised}

-- How the worker process ends: not in time, or with a return code and an output, of which the
-- length and the JSON value (none where it is no JSON) are given.
pub data Completed (F : Type 0) : Type 0 where
  timed_out : Completed F
  exited : ℕ → ℕ → Option (Value F) → Completed F

-- What the filter takes from elsewhere: UTF-8, the worker, and VISA's code for a bad expression.
pub record Worker (F : Type 0) : Type 0 where
  pub encoded : Text → Text
  pub run : List Text → Text → Completed F
  pub invalid_expression : ℤ

abbrev pub runtime_error : {A : Type 0} → Outcome A
runtime_error = raised (trusted_failure (codes "RuntimeError"))

-- Every text of the list is a resource.
abbrev pub Known : List Text → List Text → Type 0
Known resources ts = All (λ t. contains t resources ≡ true) ts

module _ {F : Type 0} where
  -- The texts of a list whose items are all among the resources.
  unfoldable pub known_resources : List Text → Values F → Option (List Text)
  unfolding contains
  known_resources resources no_values = some []
  known_resources resources (value (text t) vs) =
      let rest = known_resources resources vs in
      if contains t resources then elim rest [ none ↦ none | some ts ↦ some (t ∷ ts) ] else none
  known_resources resources (value v vs) = none

  -- `result["resources"]`, all of which must be resources
  unfoldable pub read_resources : List Text → Option (Value F) → Outcome (List Text)
  unfolding known_resources
  read_resources resources (some (sequence vs)) = elim (known_resources resources vs) [
    | none ↦ runtime_error
    | some ts ↦ done ts
  ]
  read_resources resources o = runtime_error

  -- `result["error_code"]`
  unfoldable pub read_error : Option (Value F) → Outcome (List Text)
  read_error (some (integer code)) = raised (query_rejected (codes "invalid_expression") code)
  read_error o = runtime_error

  -- The worker's answer.
  unfoldable pub read_answer : List Text → Value F → Outcome (List Text)
  unfolding read_resources read_error has_exactly lookup
  read_answer resources (mapping es) =
      if has_exactly (codes "error_code" ∷ []) es
      then read_error (lookup (codes "error_code") es)
      else if has_exactly (codes "resources" ∷ []) es
      then read_resources resources (lookup (codes "resources") es)
      else runtime_error
  read_answer resources v = runtime_error

  -- What follows the run of the worker.
  unfoldable pub read_completed : Worker F → List Text → Completed F → Outcome (List Text)
  unfolding read_answer
  read_completed w resources timed_out =
      raised (query_rejected (codes "query_timeout") w.invalid_expression)
  read_completed w resources (exited code size answer) =
      if not (code == 0) || not (leb size (64 * 1024))
      then runtime_error
      else elim answer [ none ↦ runtime_error | some v ↦ read_answer resources v ]

  -- `filter_resources`
  unfoldable pub filter_resources : Worker F → List Text → Text → Outcome (List Text)
  unfolding read_completed
  filter_resources w resources query =
      if not (leb (length (w.encoded query)) 256)
      then raised (query_rejected (codes "query_length") w.invalid_expression)
      else read_completed w resources (w.run resources query)

  known_resources-All :
      (resources : List Text) (vs : Values F) (ts : List Text)
      → known_resources resources vs ≡ some ts
      → All (λ t. contains t resources ≡ true) ts
  unfolding known_resources
  known_resources-All resources no_values ts e =
      let same : [] ≡ ts = ground arith in subst (All (λ t. contains t resources ≡ true)) same tt
  known_resources-All resources (value (text t) vs) ts e =
      elim (Bool-cases (contains t resources)) [
        | inr unknown ↦ ground arith
        | inl known ↦ elim (Option-cases (known_resources resources vs)) [
          | inl bad ↦ ground arith
          | inr (rest, good) ↦
              let same : t ∷ rest ≡ ts = ground arith in
              subst (All (λ t. contains t resources ≡ true)) same
                (known, known_resources-All resources vs rest good)
        ]
      ]
  known_resources-All resources (value null vs) ts e = ground arith
  known_resources-All resources (value (boolean b) vs) ts e = ground arith
  known_resources-All resources (value (integer n) vs) ts e = ground arith
  known_resources-All resources (value (real x) vs) ts e = ground arith
  known_resources-All resources (value (sequence ws) vs) ts e = ground arith
  known_resources-All resources (value (mapping es) vs) ts e = ground arith
  known_resources-All resources (value (other n) vs) ts e = ground arith

  read_error-raises : (o : Option (Value F)) (ts : List Text) → read_error o ≢ done ts
  unfolding read_error
  read_error-raises o ts e = ground arith

  read_resources-All :
      (resources : List Text) (o : Option (Value F)) (ts : List Text)
      → read_resources resources o ≡ done ts
      → Known resources ts
  unfolding read_resources
  read_resources-All resources (some (sequence vs)) ts e =
      elim (Option-cases (known_resources resources vs)) [
        | inl bad ↦ ground arith
        | inr (us, good) ↦ known_resources-All resources vs ts (ground arith)
      ]
  read_resources-All resources none ts e = ground arith
  read_resources-All resources (some null) ts e = ground arith
  read_resources-All resources (some (boolean b)) ts e = ground arith
  read_resources-All resources (some (integer n)) ts e = ground arith
  read_resources-All resources (some (real x)) ts e = ground arith
  read_resources-All resources (some (text t)) ts e = ground arith
  read_resources-All resources (some (mapping es)) ts e = ground arith
  read_resources-All resources (some (other n)) ts e = ground arith

  read_answer-All :
      (resources : List Text) (v : Value F) (ts : List Text)
      → read_answer resources v ≡ done ts
      → All (λ t. contains t resources ≡ true) ts
  unfolding read_answer
  read_answer-All resources (mapping es) ts e =
      elim (Bool-cases (has_exactly (codes "error_code" ∷ []) es)) [
        | inl failed ↦ absurd (read_error-raises (lookup (codes "error_code") es) ts (ground arith))
        | inr answered ↦ elim (Bool-cases (has_exactly (codes "resources" ∷ []) es)) [
          | inr bad ↦ ground arith
          | inl good ↦
              read_resources-All resources (lookup (codes "resources") es) ts (ground arith)
        ]
      ]
  read_answer-All resources null ts e = ground arith
  read_answer-All resources (boolean b) ts e = ground arith
  read_answer-All resources (integer n) ts e = ground arith
  read_answer-All resources (real x) ts e = ground arith
  read_answer-All resources (text t) ts e = ground arith
  read_answer-All resources (sequence vs) ts e = ground arith
  read_answer-All resources (other n) ts e = ground arith

  run-All :
      (w : Worker F) (resources : List Text) (ended : Completed F) (ts : List Text)
      → read_completed w resources ended ≡ done ts
      → Known resources ts
  unfolding read_completed
  run-All w resources timed_out ts e = ground arith
  run-All w resources (exited code size none) ts e = ground arith
  run-All w resources (exited code size (some v)) ts e =
      read_answer-All resources v ts (ground arith)

  -- Whatever the worker does, what the filter returns are resources that it was given, for a
  -- query of at most 256 bytes.
  pub filter_resources-Known :
      (w : Worker F) (resources : List Text) (query : Text) (ts : List Text)
      → filter_resources w resources query ≡ done ts
      → Known resources ts × (length (w.encoded query) ≤ 256)
  unfolding filter_resources
  filter_resources-Known w resources query ts e =
      let short : leb (length (w.encoded query)) 256 ≡ true = ground arith in
      (run-All w resources (w.run resources query) ts (ground arith), leb→le _ 256 short)
