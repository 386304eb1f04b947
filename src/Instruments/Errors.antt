-- ===== src/Instruments/Errors.antt =====
-- The error queue of an instrument: what a refused command leaves in it, and reading it back.
use instrument_benchmark_eva.Prelude.{
  ℕ, zero, suc, ◌≡◌, refl, true, false, Option, some, List, [], ◌∷◌, ◌++◌, map, arith, all, leb,
  length, ap, Result, ok, err, command_error, value_error, state_error, type_error, operation_error,
  key_error, index_error, overflow_error, runtime_error,
}
use instrument_benchmark_eva.Prelude.Text.{Text, codes, text_eq, strip, upper}
use instrument_benchmark_eva.Instruments.Base.{
  ErrorQueue, Seat, Device, Instrument, exchange, exchange_text, next_error, queue_error,
  execution_error, error_reply,
}

-- A command error that comes out of the queueing clause has been queued, behind the older ones.
queue_error_queues :
    {M F : Type 0} (q : ErrorQueue) (x : Result (Option Text) × Seat M F) (t : Text)
    → (queue_error q x).0 ≡ err (command_error t)
    → (queue_error q x).1.errors ≡ q ++ ((execution_error, t) ∷ [])
unfolding queue_error
queue_error_queues q (ok reply, s) t e = ground arith
queue_error_queues q (err (command_error u), s) t e = ground arith
queue_error_queues q (err (value_error u), s) t e = ground arith
queue_error_queues q (err (state_error u), s) t e = ground arith
queue_error_queues q (err (operation_error u v), s) t e = ground arith
queue_error_queues q (err type_error, s) t e = ground arith
queue_error_queues q (err key_error, s) t e = ground arith
queue_error_queues q (err index_error, s) t e = ground arith
queue_error_queues q (err overflow_error, s) t e = ground arith
queue_error_queues q (err runtime_error, s) t e = ground arith

module _ {M F : Type 0} (i : Instrument M F) where
  -- Whatever the instrument, an ASCII command other than *RST that is refused with a command error
  -- appends that error to the queue, once, and drops none.
  pub exchange_queues :
      (command : Text) (d : Device M F) (t : Text)
      → all (λ c. leb c 127) command ≡ true
      → text_eq (upper (strip command)) (codes "*RST") ≡ false
      → (exchange i command d).0 ≡ err (command_error t)
      → (exchange i command d).1.errors ≡ d.errors ++ ((execution_error, t) ∷ [])
  unfolding exchange exchange_text next_error
  exchange_queues command d t ascii other refused =
      ground (arith, queue_error_queues d.errors (i.handle (strip command) d.seat) t)

  -- SYST:ERR? asked n times: the replies, and the device after.
  abbrev pub ask_errors : ℕ → Device M F → List (Result (Option Text)) × Device M F
  ask_errors zero d = ([], d)
  ask_errors (suc n) d =
      let (reply, d') = exchange i (codes "SYST:ERR?") d in
      let (replies, d'') = ask_errors n d' in (reply ∷ replies, d'')

  -- Asked as often as there are errors, SYST:ERR? reports each queued error once, the oldest first,
  -- and leaves the queue empty and the model and the world as they were.
  pub ask_errors-reports :
      (q : ErrorQueue) (s : Seat M F)
      → ask_errors (length q) (record { errors = q; seat = s })
        ≡ (map (λ e. ok (some (error_reply e))) q, record { errors = []; seat = s })
  unfolding exchange exchange_text next_error text_eq upper strip
  ask_errors-reports [] s = refl
  ask_errors-reports (e ∷ q) s =
      ap (λ x. (ok (some (error_reply e)) ∷ x.0, x.1)) (ask_errors-reports q s)
