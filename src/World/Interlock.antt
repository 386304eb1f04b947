-- ===== src/World/Interlock.antt =====
-- The interlocks of `DUTWorld.apply`: a refused action writes nothing, and no route closes while a
-- source drives the bench.
use instrument_benchmark_eva.Prelude.{
  ◌≡◌, refl, true, false, ◌||◌, List, [], ◌∷◌, arith, select, not, Bool, inl, inr, Result-cases,
  Exec, Result, err, Exception, if◌then◌else◌,
}
use Prim.Native.String.{String}
use instrument_benchmark_eva.Prelude.Text.{codes, Text, contains, text_eq}
use instrument_benchmark_eva.Host.{Host}
use instrument_benchmark_eva.World.Data.{World, SemanticAction, difference}
use instrument_benchmark_eva.World.Apply.{
  close_routes, open_routes, open_all, configure_psu, set_psu_output, set_awg_waveform, routes,
  set_awg_output, apply,
}

-- What an action leaves behind when it raises: all of it, or nothing.
abbrev pub IsAtomic : {S A : Type 0} → Exec S A → S → Type 0
IsAtomic {A = A} m s = (e : Exception) → (m s).0 ≡ err e → (m s).1 ≡ s

-- Every route that is closed after is closed before.
abbrev pub ClosesNothing : {F : Type 0} → World F → World F → Type 0
ClosesNothing w w' =
    (r : Text) → contains r w'.closed_routes ≡ true → contains r w.closed_routes ≡ true

contains-select :
    (r : Text) (p : Text → Bool) (s : List Text)
    → contains r (select p s) ≡ true
    → contains r s ≡ true
unfolding contains
contains-select r p [] c = c
contains-select r p (t ∷ s) c = ground (arith, contains-select r p s)

contains-difference :
    (r : Text) (s rs : List Text) → contains r (difference s rs) ≡ true → contains r s ≡ true
unfolding difference
contains-difference r s rs = contains-select r (λ t. not (contains t rs)) s

module _ {F : Type 0} ⦃h : Host F⦄ where
  -- `apply` runs one of its handlers on the action's arguments, or refuses the kind.
  pub apply_cases :
      (Q : Result (Unit {0}) × World F → Type 0) (action : SemanticAction F) (w : World F)
      → (let a = action.arguments in
          (text_eq action.kind (codes "switch.close") ≡ true → Q (close_routes a w))
          × Q (open_routes a w)
          × Q (open_all a w)
          × Q (configure_psu a w)
          × Q (set_psu_output a w)
          × Q (set_awg_waveform a w)
          × Q (set_awg_output a w))
      → ((e : Exception) → Q (err e, w))
      → Q (apply action w)
  unfolding apply
  apply_cases Q action w (q₁, q₂, q₃, q₄, q₅, q₆, q₇) refused = choose (is "switch.close") _ _ q₁ (
      pick (is "switch.open") _ _ q₂ (
        pick (is "switch.open_all") _ _ q₃ (
          pick (is "psu.configure") _ _ q₄ (
            pick (is "psu.output") _ _ q₅
              (pick (is "awg.waveform") _ _ q₆ (pick (is "awg.output") _ _ q₇ (refused _)))))))
    where
      choose :
          (b : Bool) (m n : Exec (World F) (Unit {0}))
          → (b ≡ true → Q (m w))
          → Q (n w)
          → Q ((if b then m else n) w)
      choose true m n p q = p refl
      choose false m n p q = q

      is : String → Bool
      is name = text_eq action.kind (codes name)

      pick :
          (b : Bool) (m n : Exec (World F) (Unit {0}))
          → Q (m w)
          → Q (n w)
          → Q ((if b then m else n) w)
      pick true m n p q = p
      pick false m n p q = q

  -- An action that raises, whatever its kind and arguments, leaves the world as it was.
  pub apply-IsAtomic : (action : SemanticAction F) (w : World F) → IsAtomic (apply action) w
  apply-IsAtomic action w =
      apply_cases (λ r. (e : Exception) → r.0 ≡ err e → r.1 ≡ w) action w
        (λ _. close, open_some, clear, configure, power, waveform, drive) (λ e _ _. refl)
    where
      close : IsAtomic (close_routes action.arguments) w
      close e raised = unfold close_routes in ground arith

      open_some : IsAtomic (open_routes action.arguments) w
      open_some e raised = unfold open_routes in ground arith

      clear : IsAtomic (open_all action.arguments) w
      clear e raised = unfold open_all in ground arith

      configure : IsAtomic (configure_psu action.arguments) w
      configure e raised = unfold configure_psu in ground arith

      power : IsAtomic (set_psu_output action.arguments) w
      power e raised = unfold set_psu_output in ground arith

      waveform : IsAtomic (set_awg_waveform action.arguments) w
      waveform e raised = unfold set_awg_waveform in ground arith

      drive : IsAtomic (set_awg_output action.arguments) w
      drive e raised = unfold set_awg_output in ground arith

  -- An action closes no route if it is not a closing one, or a source drives the bench.
  pub others-ClosesNothing :
      (action : SemanticAction F) (w : World F)
      → (text_eq action.kind (codes "switch.close") ≡ true → (w.psu_output || w.awg_output) ≡ true)
      → ClosesNothing w (apply action w).1
  others-ClosesNothing action w driven =
      apply_cases (λ r. ClosesNothing w r.1) action w
        (λ e. close (driven e), open_some, clear, configure, power, waveform, drive) (λ e r c. c)
    where
      close :
          (w.psu_output || w.awg_output) ≡ true
          → ClosesNothing w (close_routes action.arguments w).1
      close driven r c = unfold close_routes in ground arith

      open_some : ClosesNothing w (open_routes action.arguments w).1
      open_some r c = elim (Result-cases (routes action.arguments)) [
        | inl (rs, e) ↦
            contains-difference r w.closed_routes rs (unfold open_routes in ground arith)
        | inr (e, bad) ↦ unfold open_routes in ground arith
      ]

      clear : ClosesNothing w (open_all action.arguments w).1
      clear r c = unfold open_all contains in ground arith

      configure : ClosesNothing w (configure_psu action.arguments w).1
      configure r c = unfold configure_psu in ground arith

      power : ClosesNothing w (set_psu_output action.arguments w).1
      power r c = unfold set_psu_output in ground arith

      waveform : ClosesNothing w (set_awg_waveform action.arguments w).1
      waveform r c = unfold set_awg_waveform in ground arith

      drive : ClosesNothing w (set_awg_output action.arguments w).1
      drive r c = unfold set_awg_output in ground arith

  -- While a source drives the bench, an action of any kind closes no route.
  pub apply-ClosesNothing :
      (action : SemanticAction F) (w : World F)
      → (w.psu_output || w.awg_output) ≡ true
      → ClosesNothing w (apply action w).1
  apply-ClosesNothing action w driven = others-ClosesNothing action w (λ _. driven)

  -- No action moves the clock or edits the specification.
  pub apply-keeps :
      (action : SemanticAction F) (w : World F)
      → ((apply action w).1.clock_ms ≡ w.clock_ms) × ((apply action w).1.spec ≡ w.spec)
  unfolding close_routes open_routes open_all configure_psu set_psu_output set_awg_waveform
      set_awg_output
  apply-keeps action w =
      apply_cases (λ r. (r.1.clock_ms ≡ w.clock_ms) × (r.1.spec ≡ w.spec)) action w
        (
          λ _. ground arith,
          ground arith,
          ground arith,
          ground arith,
          ground arith,
          ground arith,
          ground arith,
        )
        (λ e. (refl, refl))
