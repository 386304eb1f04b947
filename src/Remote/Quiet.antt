-- ===== src/Remote/Quiet.antt =====
-- What an operation appends to the journal: events of its own, none that starts or ends a request.
use instrument_benchmark_eva.Prelude.{
  ◌≡◌, refl, sym, ap, ◌∙◌, arith, Bool, true, not, List, [], ◌∷◌, ◌++◌, map, append-nil,
  append_assoc, All, All-append,
}
use instrument_benchmark_eva.Prelude.Text.{Text, codes, starts_with}
use instrument_benchmark_eva.Prelude.Decimal.{ℤ}
use instrument_benchmark_eva.Prelude.Dict.{Dict}
use instrument_benchmark_eva.Liftout.Value.{Entries}
use instrument_benchmark_eva.Remote.Outcome.{
  Raised, Outcome, done, raised, Act, pure, raise, raise_if, gets, modify, ◌>>=◌,
}
use instrument_benchmark_eva.Remote.Wire.{Wire}
use instrument_benchmark_eva.Remote.Broker.{
  Constants, Event, Hook, hook_before, hook_native, hook_dynamic, hook_after, hook_error, hook_kind,
  HookEvent, hook_event, Method, Broker, RemoteSession, note_on, call, update_sessions, exact,
}
use instrument_benchmark_eva.Remote.Invoke.{get, integer_of, at_least, string_of, bytes_of, member}

-- An event that is no part of the protocol of requests and answers.
unfoldable pub is_internal : {F : Type 0} → Event F → Bool
unfolding starts_with
is_internal e = not (starts_with e.kind (codes "rpc."))

hooks-internal :
    {F : Type 0} (es : List (HookEvent F)) → All (λ e. is_internal e ≡ true) (map hook_event es)
unfolding hook_event is_internal starts_with
hooks-internal [] = tt
hooks-internal (e ∷ es) = (hook_kind-internal e.hook, hooks-internal es)
  where
    hook_kind-internal : (k : Hook) → not (starts_with (hook_kind k) (codes "rpc.")) ≡ true
    hook_kind-internal hook_before = refl
    hook_kind-internal hook_native = refl
    hook_kind-internal hook_dynamic = refl
    hook_kind-internal hook_after = refl
    hook_kind-internal hook_error = refl

module _ {L F : Type 0} where
  -- The counters of the requests, of the connection and of the broker.
  abbrev pub SameCounts : Broker L F → Broker L F → Type 0
  SameCounts b b' =
      (b'.state.request_count ≡ b.state.request_count)
      × (b'.request_count ≡ b.request_count)
      × (b'.argument_bytes ≡ b.argument_bytes)

  -- The journal grows by internal events, and no request is counted.
  pub record Grows (b b' : Broker L F) : Type 0 where
    pub events : List (Event F)
    pub grown : b'.journal ≡ b.journal ++ events
    pub internal : All (λ e. is_internal e ≡ true) events
    pub counts : SameCounts b b'

  pub same-Grows : (b b' : Broker L F) → b'.journal ≡ b.journal → SameCounts b b' → Grows b b'
  same-Grows b b' e s = record {
    events = [];
    grown = e ∙ sym (append-nil b.journal);
    internal = tt;
    counts = s;
  }

  pub Grows-trans : (b c d : Broker L F) → Grows b c → Grows c d → Grows b d
  Grows-trans b c d g g' = record {
    events = g.events ++ g'.events;
    grown = g'.grown ∙ ap (λ j. j ++ g'.events) g.grown ∙ append_assoc b.journal g.events g'.events;
    internal = All-append (λ e. is_internal e ≡ true) g.events g'.events g.internal g'.internal;
    counts = (g'.counts.0 ∙ g.counts.0, g'.counts.1 ∙ g.counts.1, g'.counts.2 ∙ g.counts.2);
  }

  pub record Quiet {A : Type 0} (m : Act (Broker L F) A) : Type 0 where
    pub quiet : (b : Broker L F) → Grows b (m b).1

  -- What leaves the journal alone.
  pub still-Quiet :
      {A : Type 0} (m : Act (Broker L F) A)
      → ((b : Broker L F) → ((m b).1.journal ≡ b.journal) × SameCounts b (m b).1)
      → Quiet m
  still-Quiet m e = record { quiet = λ b. same-Grows b (m b).1 (e b).0 (e b).1 }

  pub bind-Quiet :
      {A B : Type 0} (m : Act (Broker L F) A) (f : A → Act (Broker L F) B)
      → Quiet m
      → ((a : A) → Quiet (f a))
      → Quiet (m >>= f)
  bind-Quiet {A = A} {B = B} m f p q = record { quiet = λ b. go b (m b) (p.quiet b) }
    where
      continue : Outcome A × Broker L F → Outcome B × Broker L F
      continue x = elim x.0 [ done a ↦ f a x.1 | raised e ↦ (raised e, x.1) ]

      go : (b : Broker L F) (x : Outcome A × Broker L F) → Grows b x.1 → Grows b (continue x).1
      go b (done a, c) g = Grows-trans b c _ g ((q a).quiet c)
      go b (raised e, c) g = g

  pub gets-Quiet : {A : Type 0} (f : Broker L F → A) → Quiet (gets f)
  gets-Quiet f = still-Quiet _ (λ b. (refl, (refl, refl, refl)))

  pub pure-Quiet : {A : Type 0} (a : A) → Quiet {A = A} (pure a)
  pure-Quiet a = still-Quiet _ (λ b. (refl, (refl, refl, refl)))

  pub raise-Quiet : {A : Type 0} (e : Raised) → Quiet {A = A} (raise e)
  raise-Quiet e = still-Quiet _ (λ b. (refl, (refl, refl, refl)))

  pub raise_if-Quiet : (c : Bool) (e : Raised) → Quiet (raise_if c e)
  raise_if-Quiet c e = still-Quiet _ (λ b. (refl, (refl, refl, refl)))

  pub call-Quiet : {A : Type 0} (m : Method L F A) → Quiet (call m)
  unfolding call
  call-Quiet m = record {
    quiet = λ b. record {
      events = map hook_event (m b.library).1.1;
      grown = refl;
      internal = hooks-internal (m b.library).1.1;
      counts = (refl, refl, refl);
    };
  }

  pub sessions-Quiet :
      (f : Dict RemoteSession → Dict RemoteSession) → Quiet (modify (update_sessions f))
  sessions-Quiet f = still-Quiet _ (λ b. (refl, (refl, refl, refl)))

  pub note_on-Quiet :
      (kind : Text) (es : Entries F)
      → not (starts_with kind (codes "rpc.")) ≡ true
      → Quiet (note_on kind es)
  unfolding note_on is_internal
  note_on-Quiet kind es e = record {
    quiet = λ b. record {
      events = _ ∷ [];
      grown = refl;
      internal = (e, tt);
      counts = (refl, refl, refl);
    };
  }

  pub get-Quiet : (k : Text) (args : Dict (Wire F)) → Quiet (get k args)
  get-Quiet k args = still-Quiet _ (λ b. ground arith)

  pub integer_of-Quiet : (w : Wire F) → Quiet (integer_of w)
  integer_of-Quiet w = still-Quiet _ (λ b. ground arith)

  pub at_least-Quiet : (n : ℤ) (w : Wire F) → Quiet (at_least n w)
  at_least-Quiet n w = still-Quiet _ (λ b. ground arith)

  pub string_of-Quiet : (w : Wire F) → Quiet (string_of w)
  string_of-Quiet w = still-Quiet _ (λ b. ground arith)

  pub bytes_of-Quiet : (w : Wire F) → Quiet (bytes_of w)
  bytes_of-Quiet w = still-Quiet _ (λ b. ground arith)

  pub member-Quiet : (p : ℤ → Bool) (n : ℤ) → Quiet (member p n)
  member-Quiet p n = still-Quiet _ (λ b. (refl, (refl, refl, refl)))

  pub exact-Quiet :
      ⦃c : Constants⦄ → (ks : List Text) (args : Dict (Wire F)) → Quiet (exact ks args)
  unfolding exact
  exact-Quiet ks args = still-Quiet _ (λ b. (refl, (refl, refl, refl)))
