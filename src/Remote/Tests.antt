-- ===== src/Remote/Tests.antt =====
-- Runs of the broker, with a library that counts its calls.
use instrument_benchmark_eva.Prelude.{
  ℕ, suc, ◌≤◌, ◌≡◌, refl, true, false, none, some, List, [], ◌∷◌, length,
}
use instrument_benchmark_eva.Prelude.Text.{codes, contains, text_eq}
use instrument_benchmark_eva.Prelude.Decimal.{pos, negsuc}
use instrument_benchmark_eva.Prelude.Dict.{Dict, find}
use instrument_benchmark_eva.Liftout.Value.{
  text, sequence, mapping, no_values, value, no_entries, lookup, has_key,
}
use instrument_benchmark_eva.Liftout.Journal.{has_exactly, le_int}
use instrument_benchmark_eva.Remote.Outcome.{done}
use instrument_benchmark_eva.Remote.Wire.{Wire, wire_str, wire_int, Runtime, field}
use instrument_benchmark_eva.Remote.Query.{
  Worker, exited, filter_resources, filter_resources-Known, known_resources, read_resources,
  read_answer, read_completed, Known,
}
use instrument_benchmark_eva.Remote.Broker.{
  Constants, Library, Limits, Broker, HookEvent, hook_before, hook_after, note_on, session,
  session_of, exact, call,
}
use instrument_benchmark_eva.Remote.Dispatch.{
  dispatch, count_request, limit_exceeded, note_request, note_result, answer, conclude, perform,
  refuse, reject, perform_open, operate,
}
use instrument_benchmark_eva.Remote.Invoke.{invoke, on_session, read}
use instrument_benchmark_eva.Remote.Answers.{IsAnswered, dispatch-IsAnswered}
use instrument_benchmark_eva.Remote.Limits.{Request, total_bytes, admitted, admitted-within}

instance abbrev sample_runtime : Runtime ℕ
sample_runtime = record {
  sha256 = λ t. t;
  base64 = λ t. t;
  utf8 = λ t. t;
  dumps_length = λ es. 2;
  dumps_keys = λ ks. [];
}

instance abbrev sample_constants : Constants
sample_constants = record {
  invalid_object = negsuc 1;
  nonsupported_operation = negsuc 2;
  resource_not_found = negsuc 3;
  is_access_mode = λ n. true;
  is_attribute = λ n. true;
  is_event_type = λ n. true;
  is_event_mechanism = λ n. true;
}

-- What the hooks record during a call.
abbrev hooked : List (HookEvent ℕ)
hooked =
    record { hook = hook_before; fields = no_entries }
    ∷ record { hook = hook_after; fields = no_entries }
    ∷ []

instance abbrev sample_library : Library ℕ ℕ
sample_library = record {
  open_default_resource_manager = λ n. (done (pos n, pos 0), (suc n, hooked));
  list_resources = λ n. codes "GPIB::1" ∷ [];
  open_resource = λ real name mode timeout n. (done (pos n, pos 0), (suc n, hooked));
  close = λ real n. (done (pos 0), (suc n, hooked));
  read = λ real count n. (done (codes "1.0", pos 0), (suc n, hooked));
  write = λ digest real payload n. (done (pos (length payload), pos 0), (suc n, hooked));
  get_attribute = λ real attribute n. (done (none, pos 0), (suc n, hooked));
  set_attribute = λ real attribute wanted n. (done (pos 0), (suc n, hooked));
  disable_event = λ real kind mechanism n. (done tt, (suc n, hooked));
  discard_events = λ real kind mechanism n. (done tt, (suc n, hooked));
}

instance abbrev sample_limits : Limits
sample_limits = record {
  max_requests_per_connection = 2;
  max_total_requests = 256;
  max_total_argument_bytes = 524_288;
}

abbrev sample_worker : Worker ℕ
sample_worker = record {
  encoded = λ t. t;
  run = λ rs query. exited 0 30 (
      some (
        mapping (
          field (codes "resources") (sequence (value (text (codes "GPIB::1")) no_values))
            no_entries)));
  invalid_expression = negsuc 4;
}

abbrev broker_after : ℕ → Broker ℕ ℕ
broker_after n = record {
  library = 0;
  journal = [];
  state = record {
    connection_id = codes "c1";
    peer_uid = 10001;
    sessions = (codes "t1", record { real_session = pos 7; session_kind = codes "resource" }) ∷ [];
    request_count = n;
    closed = false;
  };
  request_count = n;
  argument_bytes = 0;
  leaked_session_count = 0;
  fatal_error = none;
}

abbrev read_args : Dict (Wire ℕ)
read_args = (codes "session", wire_str (codes "t1")) ∷ (codes "count", wire_int (pos 10)) ∷ []

dispatch-IsAnswered_example :
    IsAnswered
      (broker_after 0)
      (dispatch sample_worker (codes "t2") 5 (codes "read") read_args (broker_after 0)).0
      (dispatch sample_worker (codes "t2") 5 (codes "read") read_args (broker_after 0)).1
dispatch-IsAnswered_example =
    dispatch-IsAnswered sample_worker (codes "t2") 5 (codes "read") read_args (broker_after 0)

abbrev read_request : Request ℕ
read_request = record {
  operation = codes "read";
  args = read_args;
  drawn = codes "t2";
  latency = 5;
}

abbrev four_reads : List (Request ℕ)
four_reads = read_request ∷ read_request ∷ read_request ∷ read_request ∷ []

-- Of four requests, the limit of the connection admits two.
four_reads-admitted : length (admitted sample_worker four_reads (broker_after 0)) ≡ 2
unfolding dispatch note_request note_on answer conclude perform refuse reject count_request text_eq
    limit_exceeded perform_open operate invoke session session_of on_session read exact find
    contains note_result call le_int
four_reads-admitted = refl

admitted-within_example :
    (length (admitted sample_worker four_reads (broker_after 0)) ≤ 2)
    × (length (admitted sample_worker four_reads (broker_after 0)) ≤ 256)
    × (total_bytes (admitted sample_worker four_reads (broker_after 0)) ≤ 524_288)
admitted-within_example = admitted-within sample_worker four_reads (broker_after 0)

filter_resources-Known_example :
    Known (codes "GPIB::1" ∷ []) (codes "GPIB::1" ∷ []) × (length (codes "?*") ≤ 256)
filter_resources-Known_example =
    filter_resources-Known sample_worker (codes "GPIB::1" ∷ []) (codes "?*") (codes "GPIB::1" ∷ [])
      (unfold filter_resources read_completed read_answer read_resources known_resources has_exactly
          lookup has_key contains text_eq in
        refl)
