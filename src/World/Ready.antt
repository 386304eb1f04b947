-- ===== src/World/Ready.antt =====
-- The observations of `DUTWorld`: the DUT answers once it is routed, powered, driven and settled.
use instrument_benchmark_eva.Prelude.{
  ℕ, suc, ◌+◌, ◌-◌, ◌^◌, Bool, true, not, ◌||◌, Option, none, some, List, [], ◌∷◌, ◌++◌, map, ltb,
  is_nil, if◌then◌else◌, Exec, state_error, gets, raise_if, ◌>>=◌, ◌>>◌,
}
use instrument_benchmark_eva.Prelude.Text.{Text, codes}
use instrument_benchmark_eva.Prelude.Decimal.{str}
use instrument_benchmark_eva.Host.{Host, eq_float}
use instrument_benchmark_eva.World.Data.{World, subset}

-- `started is None or clock - started < settle`
unfoldable pub unsettled : Option ℕ → ℕ → ℕ → Bool
unsettled none clock settle = true
unsettled (some t) clock settle = ltb clock (t + settle)

module _ {F : Type 0} where
  -- `DUTWorld._require_ready`
  unfoldable pub require_ready : Exec (World F) (Unit {0})
  unfolding subset unsettled
  require_ready = do
    closed ← gets (λ w. subset w.spec.required_routes w.closed_routes)
    raise_if (not closed) (state_error (codes "required DUT route is open"))
    powered ← gets (λ w. w.psu_output)
    raise_if (not powered) (state_error (codes "DUT power is disabled"))
    silent ← gets (λ w. not w.awg_output || is_nil w.awg_points)
    raise_if silent (state_error (codes "stimulus is disabled"))
    early ← gets (λ w. unsettled w.stimulus_started_ms w.clock_ms w.spec.settle_ms)
    raise_if early (state_error (codes "DUT has not settled"))

module _ {F : Type 0} ⦃h : Host F⦄ where
  -- `DUTWorld._noise`
  unfoldable pub noise : World F → Text → ℕ → F → F
  unfolding str
  noise w channel index amplitude =
      if eq_float amplitude (h.of_ℕ 0)
      then h.of_ℕ 0
      else (let material = str w.spec.seed ++ (b':' ∷ (channel ++ (b':' ∷ str index))) in
          let unit = h.div (h.of_ℕ (h.sha256_head material)) (h.of_ℕ (2 ^ 64 - 1)) in
          h.mul (h.sub (h.mul (h.of_ℕ 2) unit) (h.of_ℕ 1)) amplitude)

  -- `DUTWorld._ideal_samples`
  unfoldable pub ideal_samples : World F → List F
  ideal_samples w = map (λ point. h.add w.spec.offset_v (h.mul w.spec.gain point)) w.awg_points

  -- `value + self._noise(channel, index, amplitude)` over the samples from `index` on.
  unfoldable pub noisy : World F → Text → F → ℕ → List F → List F
  unfolding noise
  noisy w channel amplitude index [] = []
  noisy w channel amplitude index (x ∷ xs) =
      h.add x (noise w channel index amplitude) ∷ noisy w channel amplitude (suc index) xs

  unfoldable pub dmm_samples : Exec (World F) (List F)
  dmm_samples = do
    require_ready
    gets (λ w. noisy w (codes "dmm") w.spec.dmm_noise_v 0 (ideal_samples w))

  unfoldable pub scope_samples : Exec (World F) (List F)
  scope_samples = do
    require_ready
    gets (λ w. noisy w (codes "scope") w.spec.scope_noise_v 0 (ideal_samples w))
