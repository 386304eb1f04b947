-- ===== src/Instruments/Harmless.antt =====
-- Which actions the instruments take: only the switch closes a route.
use instrument_benchmark_eva.Prelude.{◌≡◌, refl, Bool, List, false}
use instrument_benchmark_eva.Prelude.Text.{Text, codes, text_eq}
use instrument_benchmark_eva.Host.{Host}
use instrument_benchmark_eva.World.Data.{SemanticAction}
use instrument_benchmark_eva.World.Ready.{dmm_samples, scope_samples}
use instrument_benchmark_eva.World.Observe.{samples_reads}
use instrument_benchmark_eva.Instruments.Base.{observe}
use instrument_benchmark_eva.Instruments.Steps.{Acts, act_rules, observe-Acts}
use instrument_benchmark_eva.Instruments.Dmm.{
  dmm_handle, configure_voltage, set_range, set_sample_count, initiate, read_samples, dmm_reset,
}
use instrument_benchmark_eva.Instruments.Scope.{
  scope_handle, set_source, set_encoding, set_width, curve, count_points,
}
use instrument_benchmark_eva.Instruments.Psu.{
  set_output, set_voltage, select_channel, psu_reset, psu_handle, psu_output, psu_configure,
}
use instrument_benchmark_eva.Instruments.Awg.{
  awg_handle, awg_reset, awg_output, awg_waveform, upload, select_waveform, set_offset,
  set_amplitude, load_selected, set_awg_power,
}

module _ {F : Type 0} ⦃h : Host F⦄ where
  -- An action of another kind than switch.close.
  pub record IsHarmless (a : SemanticAction F) : Type 0 where
    pub harmless : text_eq a.kind (codes "switch.close") ≡ false

  psu_output-IsHarmless : (b : Bool) → IsHarmless (psu_output b)
  psu_output-IsHarmless b = record { harmless = unfold text_eq in refl }

  psu_configure-IsHarmless : (x : F) → IsHarmless (psu_configure x)
  psu_configure-IsHarmless x = record { harmless = unfold text_eq in refl }

  awg_output-IsHarmless : (b : Bool) → IsHarmless (awg_output b)
  awg_output-IsHarmless b = record { harmless = unfold text_eq in refl }

  awg_waveform-IsHarmless :
      (name : Text) (points : List F) (x : F) → IsHarmless (awg_waveform name points x)
  awg_waveform-IsHarmless name points x = record { harmless = unfold text_eq in refl }

  dmm_samples-Acts : {M : Type 0} → Acts IsHarmless {M = M} (observe dmm_samples)
  dmm_samples-Acts = observe-Acts _ _ (λ w. (samples_reads w).0)

  scope_samples-Acts : {M : Type 0} → Acts IsHarmless {M = M} (observe scope_samples)
  scope_samples-Acts = observe-Acts _ _ (λ w. (samples_reads w).1)

  ruleset rules = (
    act_rules, psu_output-IsHarmless, psu_configure-IsHarmless, awg_output-IsHarmless,
    awg_waveform-IsHarmless, dmm_samples-Acts, scope_samples-Acts,
  )

  select_channel-Acts : (text : Text) → Acts IsHarmless (select_channel text)
  unfolding select_channel
  select_channel-Acts text = search rules depth 12

  set_voltage-Acts : (text : Text) → Acts IsHarmless (set_voltage text)
  unfolding set_voltage
  set_voltage-Acts text = search rules depth 12

  set_output-Acts : (text : Text) → Acts IsHarmless (set_output text)
  unfolding set_output
  set_output-Acts text = search rules

  pub psu_reset-Acts : Acts IsHarmless psu_reset
  unfolding psu_reset
  psu_reset-Acts = search rules

  pub psu_handle-Acts : (text : Text) → Acts IsHarmless (psu_handle text)
  unfolding psu_handle
  psu_handle-Acts text =
      search (rules, select_channel-Acts, set_voltage-Acts, set_output-Acts) depth 12

  upload-Acts : (text : Text) → Acts IsHarmless (upload text)
  unfolding upload
  upload-Acts text = search rules depth 14

  select_waveform-Acts : (text : Text) → Acts IsHarmless (select_waveform text)
  unfolding select_waveform
  select_waveform-Acts text = search rules depth 14

  set_offset-Acts : (text : Text) → Acts IsHarmless (set_offset text)
  unfolding set_offset
  set_offset-Acts text = search rules depth 14

  set_amplitude-Acts : (text : Text) → Acts IsHarmless (set_amplitude text)
  unfolding set_amplitude
  set_amplitude-Acts text = search rules depth 14

  load_selected-Acts : Acts IsHarmless load_selected
  unfolding load_selected
  load_selected-Acts = search rules depth 14

  set_awg_power-Acts : (text : Text) → Acts IsHarmless (set_awg_power text)
  unfolding set_awg_power
  set_awg_power-Acts text = search (rules, load_selected-Acts) depth 14

  pub awg_reset-Acts : Acts IsHarmless awg_reset
  unfolding awg_reset
  awg_reset-Acts = search rules depth 14

  pub awg_handle-Acts : (text : Text) → Acts IsHarmless (awg_handle text)
  unfolding awg_handle
  awg_handle-Acts text =
      search
        (
          rules, upload-Acts, select_waveform-Acts, set_offset-Acts, set_amplitude-Acts,
          set_awg_power-Acts,
        )
        depth 14

  configure_voltage-Acts : Acts IsHarmless configure_voltage
  unfolding configure_voltage
  configure_voltage-Acts = search rules

  set_range-Acts : (text : Text) → Acts IsHarmless (set_range text)
  unfolding set_range
  set_range-Acts text = search rules depth 14

  set_sample_count-Acts : (text : Text) → Acts IsHarmless (set_sample_count text)
  unfolding set_sample_count
  set_sample_count-Acts text = search rules depth 14

  initiate-Acts : Acts IsHarmless initiate
  unfolding initiate
  initiate-Acts = search rules depth 14

  read_samples-Acts : Acts IsHarmless read_samples
  unfolding read_samples
  read_samples-Acts = search rules depth 14

  pub dmm_reset-Acts : Acts IsHarmless dmm_reset
  unfolding dmm_reset
  dmm_reset-Acts = search rules depth 14

  pub dmm_handle-Acts : (text : Text) → Acts IsHarmless (dmm_handle text)
  unfolding dmm_handle
  dmm_handle-Acts text =
      search
        (
          rules, configure_voltage-Acts, set_range-Acts, set_sample_count-Acts, initiate-Acts,
          read_samples-Acts,
        )
        depth 14

  set_source-Acts : (text : Text) → Acts IsHarmless (set_source text)
  unfolding set_source
  set_source-Acts text = search rules depth 14

  set_encoding-Acts : (text : Text) → Acts IsHarmless (set_encoding text)
  unfolding set_encoding
  set_encoding-Acts text = search rules depth 14

  set_width-Acts : (text : Text) → Acts IsHarmless (set_width text)
  unfolding set_width
  set_width-Acts text = search rules depth 14

  curve-Acts : Acts IsHarmless curve
  unfolding curve
  curve-Acts = search rules depth 14

  count_points-Acts : Acts IsHarmless count_points
  unfolding count_points
  count_points-Acts = search rules depth 14

  pub scope_handle-Acts : (text : Text) → Acts IsHarmless (scope_handle text)
  unfolding scope_handle
  scope_handle-Acts text =
      search
        (rules, set_source-Acts, set_encoding-Acts, set_width-Acts, curve-Acts, count_points-Acts)
        depth 14
