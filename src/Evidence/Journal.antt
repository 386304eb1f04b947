-- ===== src/Evidence/Journal.antt =====
-- `EventJournal`. What the journal takes from the runtime is an interface: the digests, and the
-- reading of the monotonic clock at the record of each sequence number.
use instrument_benchmark_eva.Prelude.{ℕ, ◌+◌, Option, none, some, List, [], ◌∷◌, ◌++◌, length}
use instrument_benchmark_eva.Prelude.Text.{Text, codes}
use instrument_benchmark_eva.World.Data.{WorldSnapshot}
use instrument_benchmark_eva.Evidence.Event.{EvidenceEvent}

pub record Runtime (F : Type 0) : Type 0 where
  -- the sha256 of a text, in hexadecimal
  pub digest : Text → Text
  -- the sha256 of a snapshot in canonical JSON
  pub state_digest : WorldSnapshot F → Text
  -- `time.monotonic_ns()` when a record is appended
  pub stamp : ℕ → ℕ
  -- strict base64 decoding
  pub unbase64 : Text → Option Text

pub record Journal (F : Type 0) : Type 0 where
  pub run_id : Text
  pub world_id : Text
  pub events : List (EvidenceEvent F)

-- The arguments of `append`.
pub record Entry (F : Type 0) : Type 0 where
  pub operation : Text
  pub state_before : WorldSnapshot F
  pub state_after : WorldSnapshot F
  pub session : Option Text
  pub resource : Option Text
  pub role : Option Text
  pub request : Option Text
  pub response : Option Text
  pub outcome : Text
  pub error_code : Option Text
  pub cleanup_source : Option Text

-- An entry with the defaults of the optional arguments.
abbrev pub plain_entry : {F : Type 0} → Text → WorldSnapshot F → WorldSnapshot F → Entry F
plain_entry operation before after = record {
  operation = operation;
  state_before = before;
  state_after = after;
  session = none;
  resource = none;
  role = none;
  request = none;
  response = none;
  outcome = codes "ok";
  error_code = none;
  cleanup_source = none;
}

-- `payload or b""`
abbrev pub payload_of : Option Text → Text
payload_of none = []
payload_of (some t) = t

module _ {F : Type 0} ⦃rt : Runtime F⦄ where
  -- The record that `append` makes of an entry.
  unfoldable pub record_of : Journal F → Entry F → EvidenceEvent F
  record_of j e = record {
    run_id = j.run_id;
    world_id = j.world_id;
    sequence = length j.events + 1;
    monotonic_ns = rt.stamp (length j.events + 1);
    operation = e.operation;
    session_digest = elim e.session [ none ↦ none | some s ↦ some (rt.digest s) ];
    resource = e.resource;
    role = e.role;
    request = e.request;
    response = e.response;
    request_sha256 = rt.digest (payload_of e.request);
    response_sha256 = rt.digest (payload_of e.response);
    request_bytes = length (payload_of e.request);
    response_bytes = length (payload_of e.response);
    state_before = e.state_before;
    state_after = e.state_after;
    state_before_sha256 = rt.state_digest e.state_before;
    state_after_sha256 = rt.state_digest e.state_after;
    outcome = e.outcome;
    error_code = e.error_code;
    cleanup_source = e.cleanup_source;
    source_sequence = none;
  }

  unfoldable pub append : Entry F → Journal F → Journal F
  append e j = record j { events = j.events ++ (record_of j e ∷ []) }
