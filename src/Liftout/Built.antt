-- ===== src/Liftout/Built.antt =====
-- Journals that are built by appending, and the records of their events.
use instrument_benchmark_eva.Prelude.{
  ℕ, suc, zero, ◌+◌, ◌≡◌, refl, sym, ap, ◌∙◌, subst, true, false, List, [], ◌∷◌, ◌++◌, length,
  length-append, append-nil, arith, inl, inr, Result, Result-cases, ok,
}
use instrument_benchmark_eva.Prelude.Results.{◌>>=◌}
use instrument_benchmark_eva.Prelude.Text.{Text, non_empty}
use instrument_benchmark_eva.Prelude.Decimal.{ℤ, pos}
use instrument_benchmark_eva.Host.{Host}
use instrument_benchmark_eva.Liftout.Value.{Value, mapping, Entries, no_entries, plain, plain-plain}
use instrument_benchmark_eva.Liftout.Journal.{
  head_hash-append, Codec, JournalEvent, EventJournal, new_journal, head_hash, to_dict, append,
  record_entries, hash_entry, as_entries, canonical_digest, canonical_bytes, check_records,
  is_digest, le_int, genesis_hash, top, validate_records,
}
use instrument_benchmark_eva.Liftout.Chain.{
  Checked, start, next, Checked-continues, check_record-own,
}

-- What the runtime promises: a sha256 is a digest, and the clock is positive and never goes back.
pub record IsSound {F : Type 0} (c : Codec F) : Type 0 where
  pub digest : (t : Text) → is_digest (c.sha256 t) ≡ true
  pub positive : (n : ℕ) → le_int (c.clock n) (pos 0) ≡ false
  pub forward : (n : ℕ) → le_int (c.clock n) (c.clock (suc n)) ≡ true

-- The time of the last record of a journal with so many events.
abbrev last_time : {F : Type 0} → Codec F → ℕ → ℤ
last_time c zero = pos 0
last_time c (suc n) = c.clock (suc n)

module _ {F : Type 0} ⦃c : Codec F⦄ where
  -- A journal that calls of `append` made of a new one.
  pub data Built : EventJournal F → Type 0 where
    created : {j : EventJournal F} (run world : Text) → new_journal run world ≡ ok j → Built j
    appended :
        {j j' : EventJournal F} {e : JournalEvent F} (kind : Text) (fields : Entries F)
        → Built j
        → append kind fields j ≡ ok (e, j')
        → Built j'

  -- `[event.to_dict() for event in self._events]`
  unfoldable pub records_of : List (JournalEvent F) → Result (List (Value F))
  records_of [] = ok []
  records_of (e ∷ es) = do r ← to_dict e; rs ← records_of es; ok (r ∷ rs)

  records_of-snoc :
      (es : List (JournalEvent F)) (rs : List (Value F)) (e : JournalEvent F) (r : Value F)
      → records_of es ≡ ok rs
      → to_dict e ≡ ok r
      → records_of (es ++ (e ∷ [])) ≡ ok (rs ++ (r ∷ []))
  unfolding records_of
  records_of-snoc [] rs e r es_ok e_ok = ground arith
  records_of-snoc (x ∷ es) rs e r es_ok e_ok = elim (Result-cases (to_dict x)) [
    | inr (y, bad) ↦ ground arith
    | inl (x', first) ↦ elim (Result-cases (records_of es)) [
      | inr (y, bad) ↦ ground arith
      | inl (rs', later) ↦ ground (arith, records_of-snoc es rs' e r later e_ok)
    ]
  ]

  -- The entries of the record that an append makes, before and after its hash is added.
  abbrev next_entries : Text → EventJournal F → Entries F → Entries F → Entries F
  next_entries kind j fields rest =
      record_entries (length j.events + 1) j.run_id j.world_id (c.clock (length j.events + 1)) kind
        (mapping fields) (head_hash j) rest

  -- What an append leaves: the new event, whose fields are plain and whose hash is the digest of
  -- its other entries.
  record IsAppended (kind : Text) (j : EventJournal F) (e : JournalEvent F) (j' : EventJournal F)
      : Type 0 where
    named : non_empty kind ≡ true
    fields_plain : plain c.finite top (mapping e.fields) ≡ ok (mapping e.fields)
    exported : to_dict e ≡ ok (mapping (next_entries kind j e.fields (hash_entry e.event_hash)))
    hashed : canonical_digest (mapping (next_entries kind j e.fields no_entries)) ≡ ok e.event_hash
    result : j' ≡ record j { events = j.events ++ (e ∷ []) }

  plain-mapping :
      (es : Entries F) (v : Value F)
      → plain c.finite top (mapping es) ≡ ok v
      → v ≡ mapping (as_entries v)
  unfolding plain
  plain-mapping es v e = ground arith

  append-IsAppended :
      (kind : Text) (fields : Entries F) (j : EventJournal F) (e : JournalEvent F)
      (j' : EventJournal F)
      → append kind fields j ≡ ok (e, j')
      → IsAppended kind j e j'
  unfolding append to_dict
  append-IsAppended kind fields j e j' done =
      elim (Result-cases (plain c.finite top (mapping fields))) [
        | inr (y, bad) ↦ ground arith
        | inl (v, plain_ok) ↦ ground (
          arith,
          plain-mapping fields v plain_ok,
          plain-plain c.finite top top (mapping fields) v plain_ok,
        )
      ]

module _ {F : Type 0} ⦃c : Codec F⦄ ⦃h : Host F⦄ where
  -- The records of the journal check, up to its head.
  record Logged (j : EventJournal F) : Type 0 where
    records : List (Value F)
    exported : records_of j.events ≡ ok records
    checked :
        Checked j.run_id j.world_id
          (length j.events + 1)
          (head_hash j)
          (last_time c (length j.events))
          records
    is_head : is_digest (head_hash j) ≡ true

  digest-canonical :
      IsSound c → (v : Value F) (t : Text) → canonical_digest v ≡ ok t → is_digest t ≡ true
  unfolding canonical_digest
  digest-canonical sound v t e = elim (Result-cases (canonical_bytes v)) [
    | inr (y, bad) ↦ ground arith
    | inl (payload, good) ↦
        let same : c.sha256 payload ≡ t = ground arith in
        subst (λ x. is_digest x ≡ true) same (sound.digest payload)
  ]

  last-forward : IsSound c → (n : ℕ) → le_int (last_time c n) (c.clock (n + 1)) ≡ true
  unfolding le_int
  last-forward sound zero = ground (arith, sound.positive 1)
  last-forward sound (suc n) = ground (arith, sound.forward (suc n))

  Logged-append :
      IsSound c
      → (kind : Text) (j : EventJournal F) (e : JournalEvent F) (j' : EventJournal F)
      → IsAppended kind j e j'
      → Logged j
      → Logged j'
  Logged-append sound kind j e j' a l =
      let n = length j.events in
      let own : is_digest e.event_hash ≡ true = digest-canonical sound _ e.event_hash a.hashed in
      let good =
        check_record-own (n + 1) j.run_id j.world_id (c.clock (n + 1)) (last_time c n) kind e.fields
          (head_hash j) e.event_hash a.fields_plain a.named (sound.positive (n + 1))
          (last-forward sound n) l.is_head own a.hashed in
      let longer : length (j.events ++ (e ∷ [])) ≡ suc n =
        omega (arith, length-append j.events (e ∷ [])) in
      let one : n + 1 ≡ suc n = omega arith in
      let count : suc (n + 1) ≡ suc n + 1 = omega arith in
      subst Logged (sym a.result) (record {
        records =
            l.records ++ (mapping (next_entries kind j e.fields (hash_entry e.event_hash)) ∷ []);
        exported = records_of-snoc j.events l.records e _ l.exported a.exported;
        checked =
            rw (head_hash-append j e, longer)
              (subst
                (λ k.
                  Checked {F = F} ⦃c = c⦄ ⦃h = h⦄ j.run_id j.world_id k e.event_hash
                    (c.clock (suc n))
                    (l.records
                      ++ (mapping (next_entries kind j e.fields (hash_entry e.event_hash)) ∷ [])))
                count (next _ l.checked (good ∙ ap (λ k. ok (e.event_hash, c.clock k)) one) refl));
        is_head = rw (head_hash-append j e) own;
      })

  Built-Logged : IsSound c → (j : EventJournal F) → Built j → Logged j
  Built-Logged sound j (created run world made) =
      let empty : j ≡ record { run_id = run; world_id = world; events = [] } =
        unfold new_journal in ground arith in
      subst Logged (sym empty) (record {
        records = [];
        exported = unfold records_of in refl;
        checked = unfold head_hash in start;
        is_head = unfold head_hash in refl;
      })
  Built-Logged sound j (appended {j = i} {e = e} kind fields b done) =
      Logged-append sound kind i e j (append-IsAppended kind fields i e j done)
        (Built-Logged sound i b)

  -- Where a sha256 is a digest and the clock is positive and never goes back, `to_dict` makes a
  -- record of every event of a journal made by appends to a new one, and the validation of the
  -- records succeeds with the head of the journal.
  pub Built-validates :
      (j : EventJournal F)
      → IsSound c
      → Built j
      → (rs : List (Value F)) × (records_of j.events ≡ ok rs)
        × (validate_records j.run_id j.world_id false rs ≡ ok (head_hash j))
  unfolding validate_records
  Built-validates j sound b =
      let l = Built-Logged sound j b in
      let whole = Checked-continues l.checked [] in
      let checked : check_records j.run_id j.world_id 1 genesis_hash (pos 0) l.records
          ≡ ok (head_hash j) =
        ap (check_records j.run_id j.world_id 1 genesis_hash (pos 0)) (sym (append-nil l.records))
        ∙ whole
        ∙ (unfold check_records in refl) in
      (l.records, l.exported, ground arith)
