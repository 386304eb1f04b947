-- ===== src/World/Data.antt =====
-- models.py, and the state of `DUTWorld`.
use instrument_benchmark_eva.Prelude.{
  ℕ, ◌+◌, ◌≡◌, refl, arith, Bool, true, false, not, ◌&&◌, Option, none, some, List, [], ◌∷◌, is_nil,
  select, if◌then◌else◌,
}
use instrument_benchmark_eva.Prelude.Text.{Text, text_eq, text_le, contains}
use instrument_benchmark_eva.Host.{Host}

-- An argument value of an action. Sequences hold texts or numbers, as all callers build them.
pub data Value (F : Type 0) : Type 0 where
  nothing : Value F
  text : Text → Value F
  flag : Bool → Value F
  number : F → Value F
  texts : List Text → Value F
  numbers : List F → Value F

abbrev pub Arguments : Type 0 → Type 0
Arguments F = List (Text × Value F)

pub record SemanticAction (F : Type 0) : Type 0 where
  pub kind : Text
  pub arguments : Arguments F

pub record WorldSpec (F : Type 0) : Type 0 where
  pub world_id : Text
  pub seed : ℕ
  pub gain : F
  pub offset_v : F
  pub dmm_noise_v : F
  pub scope_noise_v : F
  pub settle_ms : ℕ
  pub supply_voltage_v : F
  pub required_routes : List Text
  pub gain_min : F
  pub gain_max : F
  pub cross_error_max_v : F
  pub dmm_format : Text
  pub binary_length_digits : ℕ
  pub initial_psu_output : Bool
  pub initial_awg_output : Bool
  pub initial_closed_routes : List Text
  pub resource_map : List (Text × Text)
  pub distractors : List (Text × Text)
  pub transient_error_role : Option Text
  pub transient_error_command : Option Text
  pub transient_error_count : ℕ

pub record World (F : Type 0) : Type 0 where
  pub spec : WorldSpec F
  pub clock_ms : ℕ
  pub closed_routes : List Text
  pub psu_voltage_v : F
  pub psu_output : Bool
  pub awg_waveform_name : Option Text
  pub awg_points : List F
  pub awg_amplitude_vpp : F
  pub awg_output : Bool
  pub stimulus_started_ms : Option ℕ
  pub session_reopens : List (Text × ℕ)

pub record WorldSnapshot (F : Type 0) : Type 0 where
  pub clock_ms : ℕ
  pub closed_routes : List Text
  pub psu_voltage_v : F
  pub psu_output : Bool
  pub awg_waveform_name : Option Text
  pub awg_points : List F
  pub awg_amplitude_vpp : F
  pub awg_output : Bool
  pub stimulus_started_ms : Option ℕ
  pub safe : Bool

-- A Python set of texts: a list in which each text is added once.
unfoldable pub insert : Text → List Text → List Text
unfolding contains
insert t s = if contains t s then s else t ∷ s

-- `s.update(ts)`
unfoldable pub update : List Text → List Text → List Text
unfolding insert
update s [] = s
update s (t ∷ ts) = update (insert t s) ts

-- `s.difference_update(ts)`
unfoldable pub difference : List Text → List Text → List Text
unfolding contains
difference s ts = select (λ t. not (contains t ts)) s

-- `a.issubset(b)`
unfoldable pub subset : List Text → List Text → Bool
unfolding contains
subset [] b = true
subset (t ∷ ts) b = contains t b && subset ts b

place : Text → List Text → List Text
place t [] = t ∷ []
place t (u ∷ s) = let rest = place t s in if text_le t u then t ∷ u ∷ s else u ∷ rest

-- `sorted(s)`
unfoldable pub sorted : List Text → List Text
unfolding place text_le
sorted [] = []
sorted (t ∷ s) = place t (sorted s)

-- Sorting keeps every route, so the sorted list is empty only if the set is.
pub is_nil-sorted : (s : List Text) → is_nil (sorted s) ≡ is_nil s
unfolding sorted
is_nil-sorted [] = refl
is_nil-sorted (t ∷ s) = place-filled t (sorted s)
  where
    place-filled : (t : Text) (s : List Text) → is_nil (place t s) ≡ false
    place-filled t [] = refl
    place-filled t (u ∷ s) = ground arith

module _ {F : Type 0} ⦃h : Host F⦄ where
  -- `DUTWorld.__init__`
  unfoldable pub initial : WorldSpec F → World F
  unfolding update
  initial spec = record {
    spec = spec;
    clock_ms = 0;
    closed_routes = update [] spec.initial_closed_routes;
    psu_voltage_v = h.of_ℕ 0;
    psu_output = spec.initial_psu_output;
    awg_waveform_name = none;
    awg_points = [];
    awg_amplitude_vpp = h.of_ℕ 0;
    awg_output = spec.initial_awg_output;
    stimulus_started_ms = if spec.initial_awg_output then some 0 else none;
    session_reopens = [];
  }

-- `self._session_reopens[role] += 1` on a `Counter`
count_role : Text → List (Text × ℕ) → List (Text × ℕ)
count_role role [] = (role, 1) ∷ []
count_role role ((r, n) ∷ rest) =
    if text_eq r role then (r, n + 1) ∷ rest else (r, n) ∷ count_role role rest

unfoldable pub note_session_reopen : {F : Type 0} → Text → World F → World F
unfolding count_role
note_session_reopen role w = record w { session_reopens = count_role role w.session_reopens }

unfoldable pub snapshot : {F : Type 0} → World F → WorldSnapshot F
unfolding sorted
snapshot w = record {
  clock_ms = w.clock_ms;
  closed_routes = sorted w.closed_routes;
  psu_voltage_v = w.psu_voltage_v;
  psu_output = w.psu_output;
  awg_waveform_name = w.awg_waveform_name;
  awg_points = w.awg_points;
  awg_amplitude_vpp = w.awg_amplitude_vpp;
  awg_output = w.awg_output;
  stimulus_started_ms = w.stimulus_started_ms;
  safe = not w.awg_output && not w.psu_output && is_nil w.closed_routes;
}
