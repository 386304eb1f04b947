-- ===== src/Instruments/Rack.antt =====
-- `InstrumentRack`: the models behind their resource names, and the injected transient errors.
use mathlib.Core.List.{reverse}
use instrument_benchmark_eva.Prelude.{
  ℕ, ◌-◌, Bool, false, not, ◌&&◌, Option, none, some, List, [], ◌∷◌, ◌++◌, map, is_nil, ltb,
  if◌then◌else◌, select, leb, Exec, Result, ok, err, command_error, key_error, runtime_error, pure,
  when, gets, or_raise, ◌>>=◌, ◌>>◌,
}
use instrument_benchmark_eva.Prelude.Text.{Text, codes, text_eq, strip, upper}
use instrument_benchmark_eva.Prelude.Dict.{Dict, find, put}
use instrument_benchmark_eva.Host.{Host}
use instrument_benchmark_eva.World.Data.{World, WorldSpec, initial, snapshot, subset}
use instrument_benchmark_eva.World.Apply.{apply}
use instrument_benchmark_eva.Instruments.Base.{
  ErrorQueue, Seat, Instrument, undefined_header, exchange,
}
use instrument_benchmark_eva.Instruments.Psu.{PsuModel, psu_initial, psu, psu_output}
use instrument_benchmark_eva.Instruments.Switch.{SwitchModel, switch, switch_open_all}
use instrument_benchmark_eva.Instruments.Awg.{AwgModel, awg_initial, awg, awg_output}
use instrument_benchmark_eva.Instruments.Dmm.{DmmModel, dmm_initial, dmm}
use instrument_benchmark_eva.Instruments.Scope.{ScopeModel, scope_initial, scope}

-- `RESOURCE_ROLES`
abbrev pub resource_roles : Dict Text
resource_roles =
    (codes "TCPIP0::192.0.2.10::inst0::INSTR", codes "psu")
    ∷ (codes "GPIB0::9::INSTR", codes "switch")
    ∷ (codes "USB0::0x0957::0x2C07::MY000001::0::INSTR", codes "awg")
    ∷ (codes "TCPIP0::192.0.2.20::inst0::INSTR", codes "scope")
    ∷ (codes "USB0::0x05E6::0x7510::MY000002::0::INSTR", codes "dmm")
    ∷ []

-- Which model a resource name stands for. The five targets are one object each, however many
-- resources name them; each distractor is an object of its own.
pub data Target : Type 0 where
  psu_target switch_target awg_target scope_target dmm_target : Target
  distractor_target : Text → Target

-- `model_by_role[role]`
unfoldable pub model_by_role : Text → Option Target
model_by_role role =
    if text_eq role (codes "psu")
    then some psu_target
    else if text_eq role (codes "switch")
    then some switch_target
    else if text_eq role (codes "awg")
    then some awg_target
    else if text_eq role (codes "scope")
    then some scope_target
    else if text_eq role (codes "dmm")
    then some dmm_target
    else none

-- A model with its error queue, the world left out.
pub record Part (M : Type 0) : Type 0 where
  pub errors : ErrorQueue
  pub model : M

pub record Rack (F : Type 0) : Type 0 where
  pub world : World F
  pub resources : List Text
  pub models : Dict Target
  pub roles : Dict Text
  pub psu_part : Part (PsuModel F)
  pub switch_part : Part SwitchModel
  pub awg_part : Part (AwgModel F)
  pub scope_part : Part ScopeModel
  pub dmm_part : Part (DmmModel F)
  -- the error queue of each distractor
  pub distractor_errors : Dict ErrorQueue
  pub transient_errors_remaining : ℕ

-- `DistractorModel`
abbrev pub distractor : {F : Type 0} → Text → Instrument (Unit {0}) F
distractor identity = record { identity = identity; handle = undefined_header; reset = pure tt }

-- `dict(pairs)`
unfoldable pub dict_of : {V : Type 0} → List (Text × V) → Dict V → Dict V
dict_of [] d = d
dict_of ((k, v) ∷ rest) d = dict_of rest (put k v d)

-- `{resource: model_by_role[role] for role, resource in …}`
unfoldable pub models_of : Dict Text → Dict Target → Result (Dict Target)
models_of [] d = ok d
models_of ((role, resource) ∷ rest) d = elim (model_by_role role) [
  | none ↦ err key_error
  | some target ↦ models_of rest (put resource target d)
]

abbrev pub flip : Dict Text → Dict Text
flip = map (λ e. (e.1, e.0))

abbrev pub new_part : {M : Type 0} → M → Part M
new_part m = record { errors = []; model = m }

module _ {F : Type 0} ⦃h : Host F⦄ where
  -- `InstrumentRack.__init__`, given what the simulator lists and whether the order is reversed
  unfoldable pub new_rack : WorldSpec F → List Text → Bool → Result (Rack F)
  new_rack spec listed reversed =
      let names = map (λ e. e.0) resource_roles in
      let given = dict_of spec.resource_map [] in
      let role_resources = if is_nil given then flip resource_roles else given in
      let targets = if is_nil spec.resource_map then names else map (λ e. e.1) spec.resource_map in
      let resources = targets ++ map (λ e. e.0) spec.distractors in
      if not (subset listed names && subset names listed)
      then err runtime_error
      else elim (models_of role_resources []) [
        | err e ↦ err e
        | ok models ↦ ok (record {
          world = initial spec;
          resources = if reversed then reverse resources else resources;
          models = dict_of (map (λ e. (e.0, distractor_target e.0)) spec.distractors) models;
          roles =
              dict_of (map (λ e. (e.0, codes "distractor")) spec.distractors)
                (dict_of (flip role_resources) []);
          psu_part = new_part psu_initial;
          switch_part = new_part tt;
          awg_part = new_part awg_initial;
          scope_part = new_part scope_initial;
          dmm_part = new_part dmm_initial;
          distractor_errors = dict_of (map (λ e. (e.0, [])) spec.distractors) [];
          transient_errors_remaining = spec.transient_error_count;
        })
      ]

module _ {F : Type 0} where
  -- `InstrumentRack.role_for`
  unfoldable pub role_for : Text → Exec (Rack F) Text
  role_for resource r = or_raise (find resource r.roles) key_error r

  -- `model.exchange(payload)` on a part of the rack
  unfoldable pub exchange_part :
      {M : Type 0}
      → (Rack F → Part M)
      → (Part M → Rack F → Rack F)
      → Instrument M F
      → Text
      → Exec (Rack F) (Option Text)
  exchange_part {M} get set i payload r =
      let part = get r in
      let seat : Seat M F = record { model = part.model; world = r.world } in
      let (reply, d) = exchange i payload (record { errors = part.errors; seat = seat }) in
      let part' : Part M = record { errors = d.errors; model = d.seat.model } in
      (reply, set part' (record r { world = d.seat.world }))

  -- A distractor's queue is empty until it is first used; its identity is that of its last entry
  -- in the specification.
  distractor_part : Text → Rack F → Part (Unit {0})
  distractor_part resource r = record {
    errors = elim (find resource r.distractor_errors) [ none ↦ [] | some q ↦ q ];
    model = tt;
  }

  set_distractor_part : Text → Part (Unit {0}) → Rack F → Rack F
  set_distractor_part resource part r = record r {
    distractor_errors = put resource part.errors r.distractor_errors;
  }

  unfoldable pub identity_of : Text → Rack F → Text
  identity_of resource r = elim (find resource (dict_of r.world.spec.distractors [])) [
    | none ↦ []
    | some t ↦ t
  ]

module _ {F : Type 0} ⦃h : Host F⦄ where
  unfoldable pub exchange_target : Target → Text → Exec (Rack F) (Option Text)
  unfolding distractor_part set_distractor_part
  exchange_target psu_target payload =
      exchange_part (λ r. r.psu_part) (λ p r. record r { psu_part = p }) psu payload
  exchange_target switch_target payload =
      exchange_part (λ r. r.switch_part) (λ p r. record r { switch_part = p }) switch payload
  exchange_target awg_target payload =
      exchange_part (λ r. r.awg_part) (λ p r. record r { awg_part = p }) awg payload
  exchange_target scope_target payload =
      exchange_part (λ r. r.scope_part) (λ p r. record r { scope_part = p }) scope payload
  exchange_target dmm_target payload =
      exchange_part (λ r. r.dmm_part) (λ p r. record r { dmm_part = p }) dmm payload
  exchange_target (distractor_target resource) payload = (λ r.
      exchange_part (distractor_part resource) (set_distractor_part resource)
        (distractor (identity_of resource r)) payload r)

-- `payload.decode("ascii", errors="ignore").strip().upper()`
abbrev pub plain_command : Text → Text
plain_command payload = upper (strip (select (λ c. leb c 127) payload))

abbrev same_role : Option Text → Text → Bool
same_role none role = false
same_role (some r) role = text_eq r role

-- The injected fault fires: some are left, and the specification names this role and command.
unfoldable pub is_transient : {F : Type 0} → Rack F → Text → Text → Bool
is_transient r role payload =
    ltb 0 r.transient_errors_remaining
    && same_role r.world.spec.transient_error_role role
    && (elim r.world.spec.transient_error_command [
      | none ↦ false
      | some c ↦ text_eq (plain_command payload) (upper c)
    ])

module _ {F : Type 0} ⦃h : Host F⦄ where
  -- `InstrumentRack.write`
  unfoldable pub write : Text → Text → Exec (Rack F) (Option Text)
  write resource payload = do
    found ← gets (λ r. find resource r.models)
    target ← or_raise found key_error
    left ← gets (λ r. r.transient_errors_remaining)
    role ← (λ r. if ltb 0 left then role_for resource r else (ok [], r))
    transient ← gets (λ r. is_transient r role payload)
    λ r.
        if transient
        then (
          err (command_error (codes "transient communication error")),
          record r { transient_errors_remaining = r.transient_errors_remaining - 1 },
        )
        else exchange_target target payload r

  on_world : Exec (World F) (Unit {0}) → Exec (Rack F) (Unit {0})
  on_world m r = let (reply, w) = m r.world in (reply, record r { world = w })

  -- `InstrumentRack.force_safe`
  unfoldable pub force_safe : Exec (Rack F) (Unit {0})
  unfolding on_world
  force_safe = do
    before ← gets (λ r. snapshot r.world)
    when before.awg_output (on_world (apply (awg_output false)))
    when before.psu_output (on_world (apply (psu_output false)))
    closed ← gets (λ r. (snapshot r.world).closed_routes)
    when (not (is_nil closed)) (on_world (apply switch_open_all))
