-- ===== src/Remote/Answers.antt =====
-- Every request is recorded once, and answered once.
use instrument_benchmark_eva.Prelude.{
  ℕ, ◌≡◌, refl, sym, ap, ◌∙◌, Bool, true, List, [], ◌∷◌, ◌++◌, append_assoc, append-nil, All, inl,
  inr, Option-cases,
}
use instrument_benchmark_eva.Prelude.Text.{Text, codes, starts_with}
use instrument_benchmark_eva.Prelude.Decimal.{ℤ}
use instrument_benchmark_eva.Prelude.Dict.{Dict}
use instrument_benchmark_eva.Liftout.Value.{Value}
use instrument_benchmark_eva.Remote.Outcome.{
  Raised, request_error, visa_error, command_rejected, query_rejected, invalid_arguments,
  trusted_failure, Outcome, done, raised,
}
use instrument_benchmark_eva.Remote.Wire.{Wire, Runtime}
use instrument_benchmark_eva.Remote.Query.{Worker}
use instrument_benchmark_eva.Remote.Broker.{Constants, Library, Limits, Event, Broker, note_on}
use instrument_benchmark_eva.Remote.Invoke.{Answer}
use instrument_benchmark_eva.Remote.Dispatch.{
  count_request, limit_exceeded, note_request, note_result, reject, with_failure,
  record_trusted_failure, refuse, audit_operation, hello, operate, perform_open, perform, conclude,
  answer, dispatch,
}
use instrument_benchmark_eva.Remote.Quiet.{
  is_internal, Grows, Quiet, bind-Quiet, gets-Quiet, pure-Quiet, raise_if-Quiet,
}
use instrument_benchmark_eva.Remote.Operations.{if-Quiet, invoke-Quiet}

module _ {L F : Type 0} ⦃r : Runtime F⦄ ⦃c : Constants⦄ ⦃lib : Library L F⦄ ⦃l : Limits⦄ where
  hello-Quiet : (args : Dict (Wire F)) → Quiet {L = L} {F = F} (hello args)
  unfolding hello
  hello-Quiet args = search (bind-Quiet, gets-Quiet, pure-Quiet, raise_if-Quiet) depth 14

  operate-Quiet :
      (w : Worker F) (drawn operation : Text) (args : Dict (Wire F))
      → Quiet {L = L} {F = F} (operate w drawn operation args)
  unfolding operate
  operate-Quiet w drawn operation args =
      search (bind-Quiet, gets-Quiet, raise_if-Quiet, invoke-Quiet) depth 14

  perform_open-Quiet :
      (w : Worker F) (drawn operation : Text) (args : Dict (Wire F))
      → Quiet {L = L} {F = F} (perform_open w drawn operation args)
  unfolding perform_open
  perform_open-Quiet w drawn operation args = search (if-Quiet, hello-Quiet, operate-Quiet) depth 14

  pub perform-Quiet :
      (exceeded : Bool) (w : Worker F) (drawn operation : Text) (args : Dict (Wire F))
      → Quiet {L = L} {F = F} (perform exceeded w drawn operation args)
  unfolding perform
  perform-Quiet exceeded w drawn operation args =
      search (bind-Quiet, gets-Quiet, raise_if-Quiet, perform_open-Quiet) depth 14

-- One event of a kind.
abbrev pub Single : {F : Type 0} → Text → List (Event F) → Type 0
Single {F = F} kind es = (e : Event F) × (es ≡ e ∷ []) × (e.kind ≡ kind)

-- How the journal ends a request: a result where it returns, a rejection where it is refused, and
-- neither where the simulator failed.
abbrev pub Ends : {F : Type 0} → Outcome (Answer F) → List (Event F) → Type 0
Ends (done a) es = Single (codes "rpc.result") es
Ends (raised (request_error kind code message)) es = Single (codes "rpc.reject") es
Ends (raised (trusted_failure name)) es = All (λ e. is_internal e ≡ true) es
Ends (raised e) es = ⊥

module _ {L F : Type 0} where
  -- What a request leaves in the journal.
  pub record IsAnswered (b : Broker L F) (o : Outcome (Answer F)) (b' : Broker L F) : Type 0 where
    pub request : Event F
    pub middle : List (Event F)
    pub ending : List (Event F)
    pub journal : b'.journal ≡ b.journal ++ (request ∷ (middle ++ ending))
    pub asked : request.kind ≡ codes "rpc.request"
    pub internal : All (λ e. is_internal e ≡ true) middle
    pub ended : Ends o ending

  record Ended (b : Broker L F) (o : Outcome (Answer F)) (b' : Broker L F) : Type 0 where
    events : List (Event F)
    journal : b'.journal ≡ b.journal ++ events
    ended : Ends o events

module _ {L F : Type 0} ⦃r : Runtime F⦄ where
  reject-Ended :
      (audited : Value F) (latency : ℕ) (kind : Text) (code : ℤ) (message : Text) (b : Broker L F)
      → Ended b
          (reject audited latency kind code message b).0
          (reject audited latency kind code message b).1
  unfolding reject note_on
  reject-Ended audited latency kind code message b = record {
    events = _ ∷ [];
    journal = refl;
    ended = (_, refl, refl);
  }

  pub with_failure-Grows :
      (component name : Text) (b : Broker L F) → Grows b (with_failure component name b)
  unfolding with_failure is_internal starts_with
  with_failure-Grows component name b = elim (Option-cases b.fatal_error) [
    | inl first ↦ rw first (record {
      events = _ ∷ [];
      grown = refl;
      internal = (refl, tt);
      counts = (refl, refl, refl);
    })
    | inr (e, known) ↦ rw known (record {
      events = [];
      grown = sym (append-nil b.journal);
      internal = tt;
      counts = (refl, refl, refl);
    })
  ]

  refuse-Ended :
      ⦃c : Constants⦄
      → (audited : Value F) (latency : ℕ) (e : Raised) (b : Broker L F)
      → Ended b (refuse audited latency e b).0 (refuse audited latency e b).1
  unfolding refuse
  refuse-Ended audited latency (request_error kind code message) b =
      reject-Ended audited latency kind code message b
  refuse-Ended audited latency (visa_error code) b =
      reject-Ended audited latency (codes "visa_error") code (codes "VISA operation failed") b
  refuse-Ended audited latency (command_rejected code) b =
      reject-Ended audited latency (codes "visa_error") code (codes "VISA operation failed") b
  refuse-Ended audited latency (query_rejected reason code) b =
      reject-Ended audited latency (codes "invalid_resource_query") code
        (codes "VISA resource query rejected") b
  refuse-Ended ⦃c = c⦄ audited latency invalid_arguments b =
      reject-Ended audited latency (codes "invalid_arguments") c.invalid_object
        (codes "invalid arguments") b
  refuse-Ended audited latency (trusted_failure name) b =
      let grown : Grows b (with_failure (codes "broker") name b) =
        with_failure-Grows (codes "broker") name b in
      record {
        events = grown.events;
        journal = unfold record_trusted_failure in grown.grown;
        ended = unfold record_trusted_failure in grown.internal;
      }

-- A list that grew by one element, then by some, then by some more.
grown-twice :
    {A : Type 0} {bs cs ds : List A} (start : List A) (x : A) (ms es : List A)
    → bs ≡ start ++ (x ∷ [])
    → cs ≡ bs ++ ms
    → ds ≡ cs ++ es
    → ds ≡ start ++ (x ∷ (ms ++ es))
grown-twice start x ms es e f g =
    g
    ∙ ap (λ c. c ++ es) (f ∙ ap (λ b. b ++ ms) e)
    ∙ ap (λ c. c ++ es) (append_assoc start (x ∷ []) ms)
    ∙ append_assoc start (x ∷ ms) es

module _ {L F : Type 0} ⦃r : Runtime F⦄ ⦃c : Constants⦄ ⦃lib : Library L F⦄ ⦃l : Limits⦄ where
  answer-Answered :
      (exceeded : Bool) (w : Worker F) (drawn : Text) (latency : ℕ) (operation : Text)
      (args : Dict (Wire F)) (b₀ b : Broker L F) (request : Event F)
      → b.journal ≡ b₀.journal ++ (request ∷ [])
      → request.kind ≡ codes "rpc.request"
      → IsAnswered b₀
          (answer exceeded w drawn latency operation args b).0
          (answer exceeded w drawn latency operation args b).1
  unfolding answer conclude note_result note_on
  answer-Answered exceeded w drawn latency operation args b₀ b request before asked =
      go (perform exceeded w drawn operation args b)
        ((perform-Quiet exceeded w drawn operation args).quiet b)
    where
      go :
          (x : Outcome (Answer F) × Broker L F)
          → Grows b x.1
          → IsAnswered b₀
              (conclude exceeded latency operation x).0
              (conclude exceeded latency operation x).1
      go (done result, b') g = record {
        request = request;
        middle = g.events;
        ending = _ ∷ [];
        journal = grown-twice b₀.journal request g.events _ before g.grown refl;
        asked = asked;
        internal = g.internal;
        ended = (_, refl, refl);
      }
      go (raised e, b') g =
          let end = refuse-Ended (audit_operation operation exceeded) latency e b' in
          record {
            request = request;
            middle = g.events;
            ending = end.events;
            journal = grown-twice b₀.journal request g.events end.events before g.grown end.journal;
            asked = asked;
            internal = g.internal;
            ended = end.ended;
          }

  -- Whatever is requested of the broker by its one connection, and whatever the hooks of the bench
  -- record while the library runs, the journal grows by one record of the request, then events of
  -- the operation, none of which starts or ends a request, then one result where the request
  -- returns, one rejection where it is refused, and no rpc event where the simulator failed;
  -- dispatch raises nothing else.
  pub dispatch-IsAnswered :
      (w : Worker F) (drawn : Text) (latency : ℕ) (operation : Text) (args : Dict (Wire F))
      (b : Broker L F)
      → IsAnswered b
          (dispatch w drawn latency operation args b).0
          (dispatch w drawn latency operation args b).1
  unfolding dispatch note_request note_on count_request
  dispatch-IsAnswered w drawn latency operation args b =
      answer-Answered (limit_exceeded (count_request operation args b)) w drawn latency operation
        args b _ _ refl refl
