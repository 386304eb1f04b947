-- ===== src/Liftout/Rubric/Full.antt =====
-- What a full score of a step shows of the sample.
use instrument_benchmark_eva.Prelude.{
  ◌≡◌, arith, Bool, true, false, Bool-cases, [], if◌then◌else◌, inl, inr, ok,
}
use instrument_benchmark_eva.Prelude.Text.{Text, text_eq}
use instrument_benchmark_eva.Host.{Host}
use instrument_benchmark_eva.Liftout.Rubric.Metrics.{
  Numbers, GeometryMetrics, ScenarioSpec, StepEvidence, step_1, step_2, step_3, step_4, step_total,
}
use instrument_benchmark_eva.Liftout.Rubric.Caps.{
  cap_if, caps_1, caps_2, caps_3, caps_4, applicable, fragmented,
}
use instrument_benchmark_eva.Liftout.Rubric.Score.{StepBreakdown, breakdown, score_step}
use instrument_benchmark_eva.Liftout.Rubric.Laws.{IsExact}
use instrument_benchmark_eva.Liftout.Rubric.ScoreBounds.{breakdown-full}

-- What the sample is joined to after each step: the source, the needle and the target.
abbrev pub joined_after : Text → Bool × Bool × Bool
joined_after step =
    if text_eq step step_1
    then (true, false, false)
    else if text_eq step step_2
    then (false, true, false)
    else if text_eq step step_3
    then (false, true, true)
    else (false, false, true)

pub record IsFlawless {F : Type 0} (step : Text) (m : GeometryMetrics F) : Type 0 where
  pub joined : (m.sample_to_source, m.sample_to_needle, m.sample_to_target) ≡ joined_after step
  pub whole : m.sample_component_count ≡ 1

module _ {F : Type 0} ⦃h : Host F⦄ where
  module _ (m : GeometryMetrics F) (spec : ScenarioSpec F) where
    caps_1-joined : caps_1 m ≡ [] → IsFlawless step_1 m
    unfolding caps_1 cap_if fragmented text_eq
    caps_1-joined e = record { joined = ground arith; whole = ground arith }

    caps_2-joined : caps_2 m spec ≡ [] → IsFlawless step_2 m
    unfolding caps_2 cap_if fragmented text_eq
    caps_2-joined e = record { joined = ground arith; whole = ground arith }

    caps_3-joined : caps_3 m spec ≡ [] → IsFlawless step_3 m
    unfolding caps_3 cap_if fragmented text_eq
    caps_3-joined e = record { joined = ground arith; whole = ground arith }

    caps_4-joined : caps_4 m spec ≡ [] → IsFlawless step_4 m
    unfolding caps_4 cap_if fragmented text_eq
    caps_4-joined e = record { joined = ground arith; whole = ground arith }

    applicable-joined : (step : Text) → applicable step m spec ≡ [] → IsFlawless step m
    unfolding applicable
    applicable-joined step e = elim (Bool-cases (text_eq step step_1)) [
      | inl first ↦
          let f = caps_1-joined (ground arith) in
          record { joined = rw first f.joined; whole = f.whole }
      | inr not_first ↦ elim (Bool-cases (text_eq step step_2)) [
        | inl second ↦
            let f = caps_2-joined (ground arith) in
            record { joined = rw (not_first, second) f.joined; whole = f.whole }
        | inr not_second ↦ elim (Bool-cases (text_eq step step_3)) [
          | inl third ↦
              let f = caps_3-joined (ground arith) in
              record { joined = rw (not_first, not_second, third) f.joined; whole = f.whole }
          | inr not_third ↦
              let f = caps_4-joined (ground arith) in
              record { joined = rw (not_first, not_second, not_third) f.joined; whole = f.whole }
        ]
      ]
    ]

  -- A step that scores its whole total was scored on a trusted checkpoint, with one sample joined
  -- as it should be after the step.
  pub score_step-full :
      ⦃num : Numbers F⦄
      → (step : Text) (e : StepEvidence F) (spec : ScenarioSpec F) (b : StepBreakdown F)
      → IsExact h num
      → score_step step e spec ≡ ok b
      → h.le (h.of_ℕ (step_total step)) b.final_score ≡ true
      → (e.trusted ≡ true) × IsFlawless step e.geometry
  unfolding score_step
  score_step-full step e spec b law done full =
      let same : breakdown step e spec ≡ b = ground arith in
      let (trusted, apps) = breakdown-full law step e spec (rw same full) in
      (trusted, applicable-joined e.geometry spec step apps)
