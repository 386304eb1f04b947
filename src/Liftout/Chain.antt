-- ===== src/Liftout/Chain.antt =====
-- A journal that was built by appending validates, whatever was appended to it.
use instrument_benchmark_eva.Prelude.{
  ℕ, suc, ◌≡◌, refl, sym, ap, ◌∙◌, subst, true, false, List, [], ◌∷◌, ◌++◌, append-nil,
  append_assoc, arith, inl, inr, Result-cases, ok,
}
use instrument_benchmark_eva.Prelude.Text.{Text, contains, text_eq, text_eq_refl, non_empty}
use instrument_benchmark_eva.Prelude.Decimal.{ℤ, pos}
use instrument_benchmark_eva.Host.{Host}
use instrument_benchmark_eva.Liftout.Value.{
  Value, mapping, Entries, no_entries, plain, plain-plain, lookup, has_key, drop_key,
}
use instrument_benchmark_eva.Liftout.Journal.{
  Codec, record_entries, hash_entry, canonical_digest, check_record, check_records, has_exactly,
  is_digest, le_int, genesis_hash, top,
}

-- The records of a list that check, one after the other, up to a hash and a time.
pub data Checked {F : Type 0} ⦃c : Codec F⦄ ⦃h : Host F⦄ (run world : Text)
    : ℕ → Text → ℤ → List (Value F) → Type 0 where
  start : Checked run world 1 genesis_hash (pos 0) []
  next :
      {n : ℕ} {p q : Text} {l t : ℤ} {rs ss : List (Value F)} (r : Value F)
      → Checked run world n p l rs
      → check_record run world n p l r ≡ ok (q, t)
      → ss ≡ rs ++ (r ∷ [])
      → Checked run world (suc n) q t ss

module _ {F : Type 0} ⦃c : Codec F⦄ ⦃h : Host F⦄ {run world : Text} where
  -- Checking a list goes on where the checked part of it ends.
  pub Checked-continues :
      {n : ℕ} {p : Text} {l : ℤ} {rs : List (Value F)}
      → Checked run world n p l rs
      → (ss : List (Value F))
      → check_records run world 1 genesis_hash (pos 0) (rs ++ ss) ≡ check_records run world n p l ss
  Checked-continues start ss = refl
  Checked-continues (next {n = n} {p = p} {l = l} {rs = rs} r before good e) ss =
      ap (λ xs. check_records run world 1 genesis_hash (pos 0) (xs ++ ss)) e
      ∙ ap (check_records run world 1 genesis_hash (pos 0)) (append_assoc rs (r ∷ []) ss)
      ∙ Checked-continues before (r ∷ ss)
      ∙ (unfold check_records in rw good refl)

  pub check_records-Checked :
      (rs ss all : List (Value F)) {n : ℕ} {p : Text} {l : ℤ} (q : Text)
      → Checked run world n p l ss
      → check_records run world n p l rs ≡ ok q
      → all ≡ ss ++ rs
      → (m : ℕ) × (t : ℤ) × Checked run world m q t all
  unfolding check_records
  check_records-Checked [] ss all {n = n} {p = p} {l = l} q before e whole =
      let same : p ≡ q = ground arith in
      (
        n,
        l,
        subst (λ xs. Checked run world n q l xs) (sym (whole ∙ append-nil ss))
            (subst (λ x. Checked run world n x l ss) same before),
      )
  check_records-Checked (r ∷ rs) ss all {n = n} {p = p} {l = l} q before e whole =
      elim (Result-cases (check_record run world n p l r)) [
        | inr (x, bad) ↦ ground arith
        | inl ((claimed, now), good) ↦
            check_records-Checked rs (ss ++ (r ∷ [])) all q (next r before good refl) (ground arith)
              (whole ∙ sym (append_assoc ss (r ∷ []) rs))
      ]

module _ {F : Type 0} ⦃c : Codec F⦄ where
  plain-record :
      (n : ℕ) (run world : Text) (ns : ℤ) (kind : Text) (fields : Value F) (previous own : Text)
      → plain c.finite top fields ≡ ok fields
      → plain c.finite top
          (mapping (record_entries n run world ns kind fields previous (hash_entry own)))
        ≡ ok (mapping (record_entries n run world ns kind fields previous (hash_entry own)))
  unfolding plain contains text_eq
  plain-record n run world ns kind fields previous own e =
      rw (plain-plain c.finite top _ fields fields e) refl

  -- The digest that a record claims is computed on its other entries.
  pub check_record-own :
      ⦃h : Host F⦄
      → (n : ℕ) (run world : Text) (ns last : ℤ) (kind : Text) (es : Entries F)
        (previous own : Text)
      → plain c.finite top (mapping es) ≡ ok (mapping es)
      → non_empty kind ≡ true
      → le_int ns (pos 0) ≡ false
      → le_int last ns ≡ true
      → is_digest previous ≡ true
      → is_digest own ≡ true
      → canonical_digest
          (mapping (record_entries n run world ns kind (mapping es) previous no_entries))
        ≡ ok own
      → check_record run world n previous last
          (mapping (record_entries n run world ns kind (mapping es) previous (hash_entry own)))
        ≡ ok (own, ns)
  unfolding check_record has_exactly lookup has_key contains text_eq drop_key
  check_record-own n run world ns last kind es previous own fields_plain named positive later given
        claimed hashed =
      rw (plain-record n run world ns kind (mapping es) previous own fields_plain) (
        ground
          (arith, text_eq_refl run, text_eq_refl world, text_eq_refl previous, text_eq_refl own))
