-- ===== src/Evidence/Event.antt =====
-- `EvidenceEvent`. A field that the source holds in base64 holds the bytes themselves here, and a
-- state dictionary is the snapshot that it is made from.
use instrument_benchmark_eva.Prelude.{ℕ, Option}
use instrument_benchmark_eva.Prelude.Text.{Text}
use instrument_benchmark_eva.World.Data.{WorldSnapshot}

pub record EvidenceEvent (F : Type 0) : Type 0 where
  pub run_id : Text
  pub world_id : Text
  pub sequence : ℕ
  pub monotonic_ns : ℕ
  pub operation : Text
  pub session_digest : Option Text
  pub resource : Option Text
  pub role : Option Text
  pub request : Option Text
  pub response : Option Text
  pub request_sha256 : Text
  pub response_sha256 : Text
  pub request_bytes : ℕ
  pub response_bytes : ℕ
  pub state_before : WorldSnapshot F
  pub state_after : WorldSnapshot F
  pub state_before_sha256 : Text
  pub state_after_sha256 : Text
  pub outcome : Text
  pub error_code : Option Text
  pub cleanup_source : Option Text
  pub source_sequence : Option ℕ
