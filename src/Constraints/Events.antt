-- ===== src/Constraints/Events.antt =====
-- `normalize_events`: the evidence records that mean something, as semantic events.
use instrument_benchmark_eva.Prelude.{
  ℕ, Bool, true, false, ◌&&◌, ◌||◌, Option, none, some, List, [], ◌∷◌, leb, if◌then◌else◌,
}
use instrument_benchmark_eva.Prelude.Text.{
  Text, codes, text_eq, contains, starts_with, strip, strip_bytes, upper,
}
use instrument_benchmark_eva.World.Data.{WorldSnapshot}
use instrument_benchmark_eva.Evidence.Event.{EvidenceEvent}

pub record SemanticEvent : Type 0 where
  pub sequence : ℕ
  pub kind : Text
  pub role : Option Text
  pub session_digest : Option Text
  pub cleanup_source : Option Text

-- `a == b` where `a` may be `None`
abbrev pub is : Option Text → Text → Bool
is none t = false
is (some s) t = text_eq s t

abbrev pub is_some : {A : Type 0} → Option A → Bool
is_some none = false
is_some (some a) = true

-- `.decode("ascii", errors="replace")`
abbrev pub decode_replace : Text → Text
decode_replace [] = []
decode_replace (c ∷ s) = (if leb c 127 then c else 0xfffd) ∷ decode_replace s

-- `text.startswith((p, q, …))`
unfoldable pub starts_with_any : Text → List Text → Bool
unfolding starts_with
starts_with_any s [] = false
starts_with_any s (p ∷ ps) = starts_with s p || starts_with_any s ps

-- The commands of each role that `_command_kind` knows, in upper case.
switch_kind : Text → Option Text
switch_kind command =
    if starts_with command (codes "ROUT:CLOS ")
    then some (codes "switch.routes_closed")
    else if starts_with command (codes "ROUT:OPEN")
    then some (codes "switch.routes_opened")
    else none

psu_kind : Text → Bool → Option Text
psu_kind command output =
    if starts_with command (codes "VOLT ")
    then some (codes "psu.configured")
    else if starts_with command (codes "OUTP ")
    then some (if output then codes "psu.output_on" else codes "psu.output_off")
    else none

awg_kind : Text → Bool → Option Text → Option Text
unfolding starts_with_any
awg_kind command output response =
    if starts_with command (codes "DATA:ARB ")
    then some (codes "awg.waveform_uploaded")
    else if starts_with command (codes "FUNC:ARB ")
    then some (codes "awg.waveform_selected")
    else if starts_with_any command (codes "VOLT " ∷ codes "VOLT:OFFS " ∷ [])
    then some (codes "awg.configured")
    else if starts_with command (codes "OUTP ")
    then some (if output then codes "awg.output_on" else codes "awg.output_off")
    else if contains command (codes "STAT:OPER:COND?" ∷ codes "*OPC?" ∷ [])
    then elim response [
      | none ↦ none
      | some r ↦ if text_eq (strip_bytes r) (codes "1") then some (codes "dut.settled") else none
    ]
    else none

dmm_kind : Text → Option Text
unfolding starts_with_any
dmm_kind command =
    if contains command (codes "READ?" ∷ codes "FETC?" ∷ [])
    then some (codes "dmm.acquired")
    else if starts_with_any command
        (codes "CONF:VOLT:DC" ∷ codes "VOLT:DC:RANG " ∷ codes "SAMP:COUN " ∷ codes "INIT" ∷ [])
    then some (codes "dmm.configured")
    else none

scope_kind : Text → Option Text
unfolding starts_with_any
scope_kind command =
    if text_eq command (codes "CURVE?")
    then some (codes "scope.acquired")
    else if starts_with_any command
        (codes "DATA:SOURCE " ∷ codes "DATA:ENC " ∷ codes "DATA:WIDTH " ∷ [])
    then some (codes "scope.configured")
    else none

-- `_command_kind`
unfoldable pub command_kind :
    {F : Type 0} → Option Text → Text → WorldSnapshot F → Option Text → Option Text
unfolding switch_kind psu_kind awg_kind dmm_kind scope_kind
command_kind role command state_after response =
    let command' = upper command in
    if text_eq command' (codes "*IDN?")
    then some (codes "device.identified")
    else if is role (codes "switch")
    then switch_kind command'
    else if is role (codes "psu")
    then psu_kind command' state_after.psu_output
    else if is role (codes "awg")
    then awg_kind command' state_after.awg_output response
    else if is role (codes "dmm")
    then dmm_kind command'
    else if is role (codes "scope")
    then scope_kind command'
    else none

-- The kind of one record, where it has one.
unfoldable pub record_kind : {F : Type 0} → EvidenceEvent F → Option Text
record_kind r =
    if text_eq r.operation (codes "open_resource")
    then some (codes "resource.opened")
    else if text_eq r.operation (codes "close")
    then some (codes "resource.closed")
    else if text_eq r.operation (codes "write") && text_eq r.outcome (codes "ok")
    then elim r.request [
      | none ↦ none
      | some request ↦ command_kind r.role (strip (decode_replace request)) r.state_after r.response
    ]
    else none

unfoldable pub normalize_events : {F : Type 0} → List (EvidenceEvent F) → List SemanticEvent
normalize_events [] = []
normalize_events (r ∷ rs) =
    let rest = normalize_events rs in
    elim (record_kind r) [
      | none ↦ rest
      | some k ↦
          record {
            sequence = r.sequence;
            kind = k;
            role = r.role;
            session_digest = r.session_digest;
            cleanup_source = r.cleanup_source;
          }
          ∷ rest
    ]
