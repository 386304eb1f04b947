-- ===== src/Liftout/Rubric/CapBounds.antt =====
-- The caps of a step are whole numbers of points, and lie below a full score.
use instrument_benchmark_eva.Prelude.{
  ℕ, ◌≤◌, ◌≡◌, refl, arith, Bool, true, false, Bool-cases, List, [], ◌∷◌, map, if◌then◌else◌, All,
  if_both, ◌⊎◌, inl, inr,
}
use instrument_benchmark_eva.Prelude.Text.{Text, text_eq}
use instrument_benchmark_eva.Host.{Host, lt_float}
use instrument_benchmark_eva.Liftout.Rubric.Metrics.{
  GeometryMetrics, ScenarioSpec, StepEvidence, step_1, step_2, step_3, step_total,
}
use instrument_benchmark_eva.Liftout.Rubric.Caps.{
  cap_if, caps_1, caps_2, caps_3, caps_4, applicable, least, cap_of, caps,
}

abbrev Small : ℕ × Text → Type 0
Small (k, _) = k ≤ 12

All-cap_if :
    (b : Bool) (n : ℕ) (r : Text) (rest : List (ℕ × Text))
    → n ≤ 12
    → All Small rest
    → All Small (cap_if b n r rest)
unfolding cap_if
All-cap_if true n r rest small a = (small, a)
All-cap_if false n r rest small a = a

module _ {F : Type 0} ⦃h : Host F⦄ where
  caps_1-Small : (m : GeometryMetrics F) → All Small (caps_1 m)
  unfolding caps_1
  caps_1-Small m = All-cap_if _ 8 _ _ (omega arith) (
      All-cap_if _ 8 _ _ (omega arith) (
        All-cap_if _ 8 _ _ (omega arith)
          (All-cap_if _ 5 _ _ (omega arith) (All-cap_if _ 5 _ _ (omega arith) tt))))

  caps_2-Small : (m : GeometryMetrics F) (spec : ScenarioSpec F) → All Small (caps_2 m spec)
  unfolding caps_2
  caps_2-Small m spec = All-cap_if _ 10 _ _ (omega arith) (
      All-cap_if _ 10 _ _ (omega arith) (
        All-cap_if _ 8 _ _ (omega arith)
          (All-cap_if _ 12 _ _ (omega arith) (All-cap_if _ 6 _ _ (omega arith) tt))))

  caps_3-Small : (m : GeometryMetrics F) (spec : ScenarioSpec F) → All Small (caps_3 m spec)
  unfolding caps_3
  caps_3-Small m spec = All-cap_if _ 10 _ _ (omega arith) (
      All-cap_if _ 10 _ _ (omega arith) (
        All-cap_if _ 5 _ _ (omega arith) (
          All-cap_if _ 12 _ _ (omega arith)
            (All-cap_if _ 12 _ _ (omega arith) (All-cap_if _ 8 _ _ (omega arith) tt)))))

  caps_4-Small : (m : GeometryMetrics F) (spec : ScenarioSpec F) → All Small (caps_4 m spec)
  unfolding caps_4
  caps_4-Small m spec = All-cap_if _ 6 _ _ (omega arith) (
      All-cap_if _ 6 _ _ (omega arith) (
        All-cap_if _ 4 _ _ (omega arith) (
          All-cap_if _ 10 _ _ (omega arith)
            (All-cap_if _ 6 _ _ (omega arith) (All-cap_if _ 10 _ _ (omega arith) tt)))))

  applicable-Small :
      (step : Text) (m : GeometryMetrics F) (spec : ScenarioSpec F)
      → All Small (applicable step m spec)
  unfolding applicable
  applicable-Small step m spec =
      let others_3 = if text_eq step step_3 then caps_3 m spec else caps_4 m spec in
      let others_2 = if text_eq step step_2 then caps_2 m spec else others_3 in
      if_both (All Small) (text_eq step step_1) (caps_1 m) others_2 (caps_1-Small m) (
        if_both (All Small) (text_eq step step_2) (caps_2 m spec) others_3 (caps_2-Small m spec) (
          if_both (All Small) (text_eq step step_3) (caps_3 m spec) (caps_4 m spec)
            (caps_3-Small m spec) (caps_4-Small m spec)))

  -- A whole number up to a bound.
  abbrev pub Whole : ℕ → F → Type 0
  Whole k x = (n : ℕ) × (n ≤ k) × (x ≡ h.of_ℕ n)

  least-Whole : (x : F) (ys : List F) → Whole 12 x → All (Whole 12) ys → Whole 12 (least x ys)
  unfolding least
  least-Whole x [] w ws = w
  least-Whole x (y ∷ ys) w ws = elim (Bool-cases (lt_float y x)) [
    | inl below ↦ rw below (least-Whole y ys ws.0 ws.1)
    | inr not_below ↦ rw not_below (least-Whole x ys w ws.1)
  ]

  All-map-Whole :
      (host : Host F)
      → (cs : List (ℕ × Text)) → All Small cs
      → All (λ x. (n : ℕ) × (n ≤ 12) × (x ≡ host.of_ℕ n)) (map (λ (k, _). host.of_ℕ k) cs)
  All-map-Whole host [] a = tt
  All-map-Whole host ((k, r) ∷ cs) a = ((k, a.0, refl), All-map-Whole host cs a.1)

  cap_of-cases :
      (total : F) (cs : List (ℕ × Text))
      → All Small cs
      → Whole 12 (cap_of total cs).maximum_points
        ⊎ ((cs ≡ []) × ((cap_of total cs).maximum_points ≡ total))
  unfolding cap_of
  cap_of-cases total [] a = inr (refl, refl)
  cap_of-cases total ((k, r) ∷ cs) a = inl (least-Whole _ _ (k, a.0, refl) (All-map-Whole h cs a.1))

  -- The cap is at most 12 points, or none applies to a trusted checkpoint and it is the total.
  pub caps-cases :
      (step : Text) (e : StepEvidence F) (spec : ScenarioSpec F)
      → Whole 12 (caps step e spec).maximum_points
        ⊎ ((e.trusted ≡ true)
            × (applicable step e.geometry spec ≡ [])
            × ((caps step e spec).maximum_points ≡ h.of_ℕ (step_total step)))
  unfolding caps
  caps-cases step e spec = elim (Bool-cases e.trusted) [
    | inr untrusted ↦ rw untrusted (inl (0, omega arith, refl))
    | inl trusted ↦
        rw trusted
          (elim (cap_of-cases (h.of_ℕ (step_total step)) _
            (applicable-Small step e.geometry spec)) [
              | inl w ↦ inl w
              | inr (none_apply, whole) ↦ inr (refl, none_apply, whole)
            ])
  ]
