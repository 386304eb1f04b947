-- ===== src/Liftout/Journal.antt =====
-- journal.py: the hash-chained journal, and the validation of a list of records.
use instrument_benchmark_eva.Prelude.{
  ◌≡◌, refl, ℕ, suc, ◌+◌, ◌==◌, Bool, true, false, not, ◌&&◌, ◌||◌, none, some, List, [], ◌∷◌, ◌++◌,
  length, leb, all, is_nil, replicate, Exception, if◌then◌else◌, Result, ok, err, value_error,
  key_error,
}
use instrument_benchmark_eva.Prelude.Results.{◌>>=◌, ◌>>◌, guard, or_err}
use instrument_benchmark_eva.Prelude.Text.{Text, codes, contains, text_eq, non_empty}
use instrument_benchmark_eva.Prelude.Decimal.{ℤ, pos, negsuc}
use instrument_benchmark_eva.Host.{Host, eq_float}
use instrument_benchmark_eva.Liftout.Value.{
  Value, boolean, integer, real, text, mapping, Entries, no_entries, entry, has_key, lookup,
  drop_key, plain,
}

-- What the journal takes from the runtime: the test for finite numbers, canonical JSON of a plain
-- value, sha256 in hexadecimal, and the monotonic clock when a record is appended.
pub record Codec (F : Type 0) : Type 0 where
  pub finite : F → Bool
  pub dumps : Value F → Text
  pub sha256 : Text → Text
  pub clock : ℕ → ℤ

abbrev pub zeros : ℕ → Text
zeros n = replicate n b'0'

-- `GENESIS_HASH`
abbrev pub genesis_hash : Text
genesis_hash = zeros 64

-- `MAX_CANONICAL_BYTES`
abbrev pub max_canonical_bytes : ℕ
max_canonical_bytes = 1_048_576

abbrev pub journal_error : Text → Exception
journal_error = value_error

-- `"$"`, the path of a whole value
abbrev pub top : Text
top = codes "$"

module _ {F : Type 0} ⦃c : Codec F⦄ where
  unfoldable pub canonical_bytes : Value F → Result Text
  canonical_bytes v = do
    w ← plain c.finite top v
    guard (leb (length (c.dumps w)) max_canonical_bytes)
        (journal_error (codes "canonical value is too large"))
    ok (c.dumps w)

  unfoldable pub canonical_digest : Value F → Result Text
  canonical_digest v = do payload ← canonical_bytes v; ok (c.sha256 payload)

pub record JournalEvent (F : Type 0) : Type 0 where
  pub sequence : ℕ
  pub run_id : Text
  pub world_id : Text
  pub recorded_ns : ℤ
  pub kind : Text
  pub fields : Entries F
  pub previous_hash : Text
  pub event_hash : Text

pub record EventJournal (F : Type 0) : Type 0 where
  pub run_id : Text
  pub world_id : Text
  pub events : List (JournalEvent F)

-- `EventJournal.__init__`
unfoldable pub new_journal : {F : Type 0} → Text → Text → Result (EventJournal F)
new_journal run_id world_id =
    if is_nil run_id || is_nil world_id
    then err (value_error (codes "journal run and world identities must not be empty"))
    else ok (record { run_id = run_id; world_id = world_id; events = [] })

module _ {F : Type 0} where
  last_hash : Text → List (JournalEvent F) → Text
  last_hash h [] = h
  last_hash h (e ∷ es) = last_hash e.event_hash es

  -- `EventJournal.head_hash`
  unfoldable pub head_hash : EventJournal F → Text
  unfolding last_hash
  head_hash j = last_hash genesis_hash j.events

  last_hash-snoc :
      (h : Text) (es : List (JournalEvent F)) (e : JournalEvent F)
      → last_hash h (es ++ (e ∷ [])) ≡ e.event_hash
  unfolding last_hash
  last_hash-snoc h [] e = refl
  last_hash-snoc h (x ∷ es) e = last_hash-snoc x.event_hash es e

  pub head_hash-append :
      (j : EventJournal F) (e : JournalEvent F)
      → head_hash (record j { events = j.events ++ (e ∷ []) }) ≡ e.event_hash
  unfolding head_hash
  head_hash-append j e = last_hash-snoc genesis_hash j.events e

  -- The entries of a record, before and after its hash is added.
  abbrev pub record_entries : ℕ → Text → Text → ℤ → Text → Value F → Text → Entries F → Entries F
  record_entries n run_id world_id ns kind fields previous rest =
      entry (some (codes "schema_version")) (integer (pos 1)) (
        entry (some (codes "sequence")) (integer (pos n)) (
          entry (some (codes "run_id")) (text run_id) (
            entry (some (codes "world_id")) (text world_id) (
              entry (some (codes "recorded_ns")) (integer ns) (
                entry (some (codes "kind")) (text kind) (
                  entry (some (codes "fields")) fields
                    (entry (some (codes "previous_hash")) (text previous) rest)))))))

  abbrev pub hash_entry : Text → Entries F
  hash_entry h = entry (some (codes "event_hash")) (text h) no_entries

  -- `_plain` of a dictionary
  abbrev pub as_entries : Value F → Entries F
  as_entries (mapping es) = es
  as_entries v = no_entries

module _ {F : Type 0} ⦃c : Codec F⦄ where
  -- `JournalEvent.to_dict`
  unfoldable pub to_dict : JournalEvent F → Result (Value F)
  to_dict e = do
    fields ← plain c.finite top (mapping e.fields)
    ok (
        mapping (
          record_entries e.sequence e.run_id e.world_id e.recorded_ns e.kind fields e.previous_hash
            (hash_entry e.event_hash)))

  -- `EventJournal.append`: the event, and the journal with it.
  unfoldable pub append :
      Text → Entries F → EventJournal F → Result (JournalEvent F × EventJournal F)
  append kind fields j = do
    guard (non_empty kind && leb (length kind) 128)
        (journal_error (codes "journal event kind is invalid"))
    plain_fields ← plain c.finite top (mapping fields)
    let n = length j.events + 1
    digest ← canonical_digest (
        mapping (
          record_entries n j.run_id j.world_id (c.clock n) kind plain_fields (head_hash j)
            no_entries))
    let event : JournalEvent F = record {
      sequence = n;
      run_id = j.run_id;
      world_id = j.world_id;
      recorded_ns = c.clock n;
      kind = kind;
      fields = as_entries plain_fields;
      previous_hash = head_hash j;
      event_hash = digest;
    }
    ok (event, record j { events = j.events ++ (event ∷ []) })

-- `character in "0123456789abcdef"`
abbrev pub is_hex : ℕ → Bool
is_hex ch = (leb 48 ch && leb ch 57) || (leb 97 ch && leb ch 102)

-- `_is_digest` of a text
abbrev pub is_digest : Text → Bool
is_digest t = length t == 64 && all is_hex t

-- The keys of a record.
abbrev pub required : List Text
required =
    codes "schema_version"
    ∷ codes "sequence"
    ∷ codes "run_id"
    ∷ codes "world_id"
    ∷ codes "recorded_ns"
    ∷ codes "kind"
    ∷ codes "fields"
    ∷ codes "previous_hash"
    ∷ codes "event_hash"
    ∷ []

-- `n <= m`
unfoldable pub le_int : ℤ → ℤ → Bool
le_int (pos n) (pos m) = leb n m
le_int (pos n) (negsuc m) = false
le_int (negsuc n) (pos m) = true
le_int (negsuc n) (negsuc m) = leb m n

module _ {F : Type 0} where
  -- Every key is one of the list.
  only_keys : List Text → Entries F → Bool
  only_keys ks no_entries = true
  only_keys ks (entry none v es) = false
  only_keys ks (entry (some k) v es) = contains k ks && only_keys ks es

  -- `set(record) == required`
  unfoldable pub has_exactly : List Text → Entries F → Bool
  unfolding only_keys has_key contains text_eq
  has_exactly ks es = only_keys ks es && all (λ k. has_key k es) ks

  -- `value == t`, for a text `t`
  abbrev pub is_text : Text → Value F → Bool
  is_text t (text u) = text_eq u t
  is_text t v = false

  abbrev pub is_sequence_number : ℕ → Value F → Bool
  is_sequence_number n (integer (pos m)) = m == n
  is_sequence_number n v = false

  -- The time of a record: an integer that is positive and not before the last one.
  abbrev pub timestamp : ℤ → Value F → Result ℤ
  timestamp last (integer n) =
      if le_int n (pos 0) || not (le_int last n)
      then err (journal_error (codes "journal timestamp is invalid"))
      else ok n
  timestamp last v = err (journal_error (codes "journal timestamp is invalid"))

  abbrev pub is_kind : Value F → Bool
  is_kind (text t) = non_empty t
  is_kind v = false

  abbrev pub is_mapping : Value F → Bool
  is_mapping (mapping es) = true
  is_mapping v = false

  abbrev pub digest_of : Value F → Result Text
  digest_of (text t) =
      if is_digest t then ok t else err (journal_error (codes "journal event digest is invalid"))
  digest_of v = err (journal_error (codes "journal event digest is invalid"))

  abbrev pub entries_of : Value F → Result (Entries F)
  entries_of (mapping es) =
      if has_exactly required es
      then ok es
      else err (journal_error (codes "journal event fields are invalid"))
  entries_of v = err (journal_error (codes "journal event fields are invalid"))

  -- `record[key]`
  abbrev pub get_item : Text → Entries F → Result (Value F)
  get_item k es = or_err (lookup k es) key_error

module _ {F : Type 0} ⦃h : Host F⦄ where
  -- `value == n`, where a Boolean is the number 0 or 1, and a float may equal an integer
  abbrev pub is_number : ℕ → Value F → Bool
  is_number n (integer (pos m)) = m == n
  is_number n (boolean b) = (if b then 1 else 0) == n
  is_number n (real x) = eq_float x (h.of_ℕ n)
  is_number n v = false

module _ {F : Type 0} ⦃c : Codec F⦄ ⦃h : Host F⦄ where
  -- One round of the loop of `validate_records`: the hash and the time of the record.
  unfoldable pub check_record : Text → Text → ℕ → Text → ℤ → Value F → Result (Text × ℤ)
  check_record run_id world_id expected previous last source = do
    v ← plain c.finite top source
    es ← entries_of v
    run ← get_item (codes "run_id") es
    world ← get_item (codes "world_id") es
    guard (is_text run_id run && is_text world_id world)
        (journal_error (codes "journal identity mismatch"))
    schema ← get_item (codes "schema_version") es
    guard (is_number 1 schema) (journal_error (codes "journal schema version mismatch"))
    number ← get_item (codes "sequence") es
    guard (is_sequence_number expected number) (journal_error (codes "journal sequence mismatch"))
    time ← get_item (codes "recorded_ns") es
    now ← timestamp last time
    kind ← get_item (codes "kind") es
    guard (is_kind kind) (journal_error (codes "journal event kind is invalid"))
    fields ← get_item (codes "fields") es
    guard (is_mapping fields) (journal_error (codes "journal event fields are invalid"))
    before ← get_item (codes "previous_hash") es
    given ← digest_of before
    own ← get_item (codes "event_hash") es
    claimed ← digest_of own
    guard (text_eq given previous) (journal_error (codes "journal previous hash mismatch"))
    computed ← canonical_digest (mapping (drop_key (codes "event_hash") es))
    guard (text_eq claimed computed) (journal_error (codes "journal event hash mismatch"))
    ok (claimed, now)

  unfoldable pub check_records : Text → Text → ℕ → Text → ℤ → List (Value F) → Result Text
  check_records run_id world_id expected previous last [] = ok previous
  check_records run_id world_id expected previous last (source ∷ sources) = do
    (claimed, now) ← check_record run_id world_id expected previous last source
    check_records run_id world_id (suc expected) claimed now sources

  -- The last record is a terminal one.
  unfoldable pub ends_terminal : List (Value F) → Bool
  ends_terminal [] = false
  ends_terminal (mapping es ∷ []) = elim (lookup (codes "kind") es) [
    | none ↦ false
    | some v ↦ is_text (codes "run.terminal") v
  ]
  ends_terminal (v ∷ []) = false
  ends_terminal (v ∷ w ∷ vs) = ends_terminal (w ∷ vs)

  -- `validate_records`
  unfoldable pub validate_records : Text → Text → Bool → List (Value F) → Result Text
  validate_records run_id world_id require_terminal records = do
    head ← check_records run_id world_id 1 genesis_hash (pos 0) records
    guard (not require_terminal || ends_terminal records)
        (journal_error (codes "journal terminal event is missing"))
    ok head
