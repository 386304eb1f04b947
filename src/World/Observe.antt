-- ===== src/World/Observe.antt =====
-- When the DUT can be observed, and what the snapshot calls safe.
use instrument_benchmark_eva.Prelude.{
  ℕ, suc, ◌+◌, ◌≤◌, ◌≡◌, ◌↔◌, ◌∙◌, refl, true, false, ap, Option, none, some, List, [], ◌∷◌, arith,
  length, length-map, is_nil, Result, ok, err,
}
use instrument_benchmark_eva.Prelude.Text.{Text, codes, text_eq}
use instrument_benchmark_eva.Prelude.Decimal.{pos}
use instrument_benchmark_eva.Host.{Host}
use instrument_benchmark_eva.World.Data.{World, SemanticAction, flag, subset, snapshot}
use instrument_benchmark_eva.World.Apply.{apply, set_awg_output, get_or, boolean, advance_ms}
use instrument_benchmark_eva.World.Ready.{
  require_ready, unsettled, noisy, ideal_samples, dmm_samples, scope_samples,
}

-- The stimulus has been on for `settle` milliseconds.
abbrev pub HasSettled : Option ℕ → ℕ → ℕ → Type 0
HasSettled none clock settle = ⊥
HasSettled (some t) clock settle = t + settle ≤ clock

pub record IsReady {F : Type 0} (w : World F) : Type 0 where
  pub routed : subset w.spec.required_routes w.closed_routes ≡ true
  pub powered : w.psu_output ≡ true
  pub driven : w.awg_output ≡ true
  pub waveform : is_nil w.awg_points ≡ false
  pub settled : HasSettled w.stimulus_started_ms w.clock_ms w.spec.settle_ms

module _ {F : Type 0} where
  -- The check of `_require_ready` passes exactly on the ready worlds, and changes none.
  pub require_ready_iff :
      (w : World F) → (((require_ready w).0 ≡ ok tt) ↔ IsReady w) × ((require_ready w).1 ≡ w)
  unfolding require_ready unsettled
  require_ready_iff w = ((ground arith, ground arith), ground arith)

  -- A snapshot is safe exactly if both sources are off and no route is closed.
  pub snapshot-safe :
      (w : World F)
      → ((snapshot w).safe ≡ true)
        ↔ ((w.awg_output ≡ false) × (w.psu_output ≡ false) × (w.closed_routes ≡ []))
  unfolding snapshot
  snapshot-safe w = ground arith

abbrev pub drive_on : {F : Type 0} → SemanticAction F
drive_on = record { kind = codes "awg.output"; arguments = (codes "enabled", flag true) ∷ [] }

module _ {F : Type 0} ⦃h : Host F⦄ where
  -- On a routed and powered bench with a waveform, `n` milliseconds after the stimulus is switched
  -- on the DUT can be observed exactly if `n` is at least the settling time.
  pub settles_after :
      (w : World F) (n : ℕ)
      → subset w.spec.required_routes w.closed_routes ≡ true
      → w.psu_output ≡ true
      → is_nil w.awg_points ≡ false
      → ((require_ready (advance_ms (pos n) (apply drive_on w).1).1).0 ≡ ok tt)
        ↔ (w.spec.settle_ms ≤ n)
  unfolding apply set_awg_output get_or boolean text_eq advance_ms require_ready unsettled
  settles_after w n routed powered waveform = (ground arith, ground arith)

  length-noisy :
      (w : World F) (channel : Text) (a : F) (i : ℕ) (xs : List F)
      → length (noisy w channel a i xs) ≡ length xs
  unfolding noisy
  length-noisy w channel a i [] = refl
  length-noisy w channel a i (x ∷ xs) = ap suc (length-noisy w channel a (suc i) xs)

  length-ideal_samples : (w : World F) → length (ideal_samples w) ≡ length w.awg_points
  unfolding ideal_samples
  length-ideal_samples w = length-map w.awg_points _

  length-samples :
      (w : World F) (channel : Text) (a : F)
      → length (noisy w channel a 0 (ideal_samples w)) ≡ length w.awg_points
  length-samples w channel a = length-noisy w channel a 0 _ ∙ length-ideal_samples w

  -- Sampling leaves the world as it was, whether it is ready or not.
  pub samples_reads : (w : World F) → ((dmm_samples w).1 ≡ w) × ((scope_samples w).1 ≡ w)
  unfolding dmm_samples scope_samples require_ready unsettled
  samples_reads w = (ground arith, ground arith)

  -- What samples there are, are so many.
  abbrev pub Sized : ℕ → Result (List F) → Type 0
  Sized n (ok xs) = length xs ≡ n
  Sized n (err e) = Unit

  -- Reading the voltmeter or the oscilloscope leaves any world as it was. It returns samples exactly
  -- on a ready world, and then as many as the waveform has points.
  pub samples_iff_IsReady :
      (w : World F)
      → ((dmm_samples w).1 ≡ w)
        × ((scope_samples w).1 ≡ w)
        × (IsReady w ↔ ((xs : List F) × ((dmm_samples w).0 ≡ ok xs)))
        × (IsReady w ↔ ((xs : List F) × ((scope_samples w).0 ≡ ok xs)))
        × Sized (length w.awg_points) (dmm_samples w).0
        × Sized (length w.awg_points) (scope_samples w).0
  unfolding dmm_samples scope_samples
  samples_iff_IsReady w =
      let ((ready, observed), same) = require_ready_iff w in
      let dmm : List F = noisy w (codes "dmm") w.spec.dmm_noise_v 0 (ideal_samples w) in
      let scope : List F = noisy w (codes "scope") w.spec.scope_noise_v 0 (ideal_samples w) in
      (
        ground arith,
        ground arith,
        (λ r. (dmm, ground (arith, observed r)), λ (xs, e). ready (ground arith)),
        (λ r. (scope, ground (arith, observed r)), λ (xs, e). ready (ground arith)),
        ground (arith, length-samples w (codes "dmm") w.spec.dmm_noise_v),
        ground (arith, length-samples w (codes "scope") w.spec.scope_noise_v),
      )
