-- ===== src/Lib.antt =====
-- A model of the instrument benchmark evaluator, in which a candidate drives simulated
-- instruments and is judged by what the simulated bench saw.
--
-- The parts, as the first suite (sources/pyvisa/pyvisa_dut_validation_v1) composes them: a
-- candidate's commands reach the rack of instruments, each instrument answers from its own state
-- and acts on one shared DUT world, the gateway records every exchange in a journal, and the
-- constraints and the oracle judge the journal.
--
-- - World: dut_world.py and models.py. `World` holds the attributes of `DUTWorld`; `apply` and its
--   handlers (`close_routes`, `open_routes`, `open_all`, `configure_psu`, `set_psu_output`,
--   `set_awg_waveform`, `set_awg_output`) are methods of the state, and so are `advance_ms`,
--   `require_ready`, `dmm_samples` and `scope_samples`. World.Interlock, World.Invariant and
--   World.Observe hold the proofs.
-- - Instruments: instruments.py. `Instrument` is what a subclass of `InstrumentModel` defines,
--   `exchange` is the method of the base class; Psu, Switch, Awg, Dmm and Scope are the models,
--   Rack is `InstrumentRack` (`new_rack`, `role_for`, `write`, `force_safe`). A model's method is an
--   action on its attributes beside the world (`Seat`). Instruments.Steps defines the worlds that
--   sequences of actions lead to; Instruments.Harmless, Effects and Interlock bound what a command
--   can do to the world; Errors, Transient, Generator, Loaded, Supply and
--   Safety hold the other proofs.
-- - Evidence: gateway/journal.py. `EvidenceEvent` is the record of one exchange, `append` the method
--   of `EventJournal`; the digests and the clock are the interface `Runtime`.
-- - Gateway: gateway/server.py. `Gateway` is the state of `GatewayServer` (rack, journal, sessions and
--   the last synchronisation of the clock); `dispatch` is `_dispatch` with an operation of the
--   client, and takes the reading of the clock and the token that a new session would get;
--   `force_close_owner` is `_force_close_owner`. Gateway.Moves and Steps carry the proofs over all
--   operations once, for every relation that the edits of the state respect; Records, Ownership,
--   Cleanup and Pending hold the results.
-- - Constraints: constraints/partial_order.py, the causal checks on a journal
--   (`normalize_events`, `before`, `all_roles_identified`, `active_close_all`,
--   `evaluate_constraints`).
-- - Oracle: oracle/reconstruct.py, the decoder of the oscilloscope's block
--   (`decode_ieee_signed_bytes`).
-- - Liftout: the FIB-SEM suite (sources/openfibsem/fibsem_liftout_v1). Value and Journal: journal.py,
--   with `_plain`, `append`, `to_dict` and `validate_records`; Chain and Built carry the proofs.
--   Rubric: step_rubric.py, where `score_step` adds the criteria of a step and caps the sum; Laws
--   states what the bounds take from floating-point arithmetic, Bounds, CapBounds, ScoreBounds and
--   Full use it. Grade: scoring.py. Scan and Markers are `_journal_markers`, Steps is the loop of
--   `grade_world` over the steps, World the rest of it, and Suite `aggregate_worlds`; Order, Gaps,
--   Forbidden, Attempt, Pass, SuitePass and Retry hold the proofs. Dictionaries with fixed keys
--   (gates, markers) are records. A whole run that passes is evaluated in Sample and Tests.
-- - Remote: the second suite (sources/pyvisa/pyvisa_dut_validation_v2). Query is query_filter.py;
--   Wire, Broker, Invoke and Dispatch are broker.py, where `Broker` is the state of
--   `RemoteVisaBroker` beside one `ConnectionState`, and `dispatch` runs an operation against the
--   interface `Library`, which stands for the VISA library; each call of it also gives what the
--   hooks of bench.py append to the journal meanwhile. Outcome tells apart the exceptions
--   that `dispatch` does. Quiet and Operations bound what an operation writes to the journal;
--   Answers, Limits and Leaving hold the results. Wire's audit writes to the journal's values of Liftout.
-- - Host: what the program takes from Python: floats with their operations and text forms, and
--   sha256. It is an interface, and every result holds for every instance of it; Host.Sample is an
--   instance on whole numbers and Host.Fixed one on fixed-point numbers, for runs.
-- - Prelude: the helpers that all parts share: lists, texts (a list of character codes, or of
--   bytes), decimal numerals, dictionaries, and methods that mutate and may raise. What a method
--   wrote before it raised stays written, as in the source.
--
-- Loops are recursion on lists. The one recursion on fuel is `digits_of`, which writes a numeral;
-- its fuel is one more than the number, and reading the numeral back gives the number.
--
-- Not modelled: the simulator library that the rack lists resources from (its list is an argument
-- of `new_rack`), sockets and threads of the gateways, processes and containers of the runner, the
-- writing of reports, the statistics on floats in the oracle, and the comparison of meshes and
-- images on which the second suite's evidence rests (what it gives is an argument of `grade_world`). The base64 fields of a record
-- hold the decoded bytes. A request to the gateway is one step: `_dispatch` holds its lock only
-- around the table of sessions, and how two clients' requests interleave inside is not modelled.
pub mod Prelude
pub mod Host
pub mod World
pub mod Evidence
pub mod Constraints
pub mod Instruments
pub mod Gateway
pub mod Oracle
pub mod Liftout
pub mod Remote
