-- ===== src/Liftout/Value.antt =====
-- The Python values that journals hold, and `_plain` of journal.py, which lets through those that
-- JSON can write.
use instrument_benchmark_eva.Prelude.{
  ◌≡◌, ◌||◌, false, List, [], ◌∷◌, inl, inr, Result-cases, arith, Bool, Option, none, some, ◌++◌,
  if◌then◌else◌, Result, ok, err, value_error,
}
use instrument_benchmark_eva.Prelude.Results.{◌>>=◌}
use instrument_benchmark_eva.Prelude.Text.{Text, codes, contains, text_eq}
use instrument_benchmark_eva.Prelude.Decimal.{ℤ}

mutual
  pub data Value (F : Type 0) : Type 0 where
    null : Value F
    boolean : Bool → Value F
    integer : ℤ → Value F
    real : F → Value F
    text : Text → Value F
    sequence : Values F → Value F
    mapping : Entries F → Value F
    -- a value of a type that JSON has no form for, by the type's name
    other : Text → Value F

  pub data Values (F : Type 0) : Type 0 where
    no_values : Values F
    value : Value F → Values F → Values F

  -- A key that is not a text is `none`.
  pub data Entries (F : Type 0) : Type 0 where
    no_entries : Entries F
    entry : Option Text → Value F → Entries F → Entries F

module _ {F : Type 0} where
  -- `key in result`
  unfoldable pub has_key : Text → Entries F → Bool
  has_key k no_entries = false
  has_key k (entry none v es) = has_key k es
  has_key k (entry (some j) v es) = text_eq j k || has_key k es

  -- `mapping.get(key)`
  unfoldable pub lookup : Text → Entries F → Option (Value F)
  lookup k no_entries = none
  lookup k (entry none v es) = lookup k es
  lookup k (entry (some j) v es) = if text_eq j k then some v else lookup k es

  -- `del mapping[key]`
  unfoldable pub drop_key : Text → Entries F → Entries F
  drop_key k no_entries = no_entries
  drop_key k (entry none v es) = entry none v (drop_key k es)
  drop_key k (entry (some j) v es) =
      let rest = drop_key k es in if text_eq j k then rest else entry (some j) v rest

-- A key after the dot of a path.
abbrev pub below : Text → Text → Text
below path key = path ++ (b'.' ∷ key)

abbrev pub bad_key : {A : Type 0} → Text → Result A
bad_key path = err (value_error (codes "invalid object key at " ++ path))

-- `_plain`, given the test for finite numbers; `seen` holds the keys read so far.
unfoldable mutual
  pub plain : {F : Type 0} → (F → Bool) → Text → Value F → Result (Value F)
  plain finite path null = ok null
  plain finite path (boolean b) = ok (boolean b)
  plain finite path (integer n) = ok (integer n)
  plain finite path (text t) = ok (text t)
  plain finite path (real x) =
      if finite x then ok (real x) else err (value_error (codes "non-finite number at " ++ path))
  plain finite path (mapping es) = do es' ← plain_entries finite path [] es; ok (mapping es')
  plain finite path (sequence vs) = do
    vs' ← plain_values finite (path ++ codes "[]") vs
    ok (sequence vs')
  plain finite path (other name) =
      err (value_error (codes "unsupported journal value at " ++ (path ++ (codes ": " ++ name))))

  pub plain_values : {F : Type 0} → (F → Bool) → Text → Values F → Result (Values F)
  plain_values finite path no_values = ok no_values
  plain_values finite path (value v vs) = do
    v' ← plain finite path v
    vs' ← plain_values finite path vs
    ok (value v' vs')

  pub plain_entries : {F : Type 0} → (F → Bool) → Text → List Text → Entries F → Result (Entries F)
  plain_entries finite path seen no_entries = ok no_entries
  plain_entries finite path seen (entry none v es) = bad_key path
  plain_entries finite path seen (entry (some k) v es) =
      if contains k seen then bad_key path else (do
        v' ← plain finite (below path k) v
        es' ← plain_entries finite path (k ∷ seen) es
        ok (entry (some k) v' es'))

-- What `_plain` returns, it returns again unchanged.
mutual
  unfolding plain

  plain_again :
      {F : Type 0} (finite : F → Bool) (p q : Text) (v w : Value F)
      → plain finite p v ≡ ok w
      → plain finite q w ≡ ok w
  plain_again finite p q null w e = ground arith
  plain_again finite p q (boolean b) w e = ground arith
  plain_again finite p q (integer n) w e = ground arith
  plain_again finite p q (text t) w e = ground arith
  plain_again finite p q (real x) w e = ground arith
  plain_again finite p q (other name) w e = ground arith
  plain_again finite p q (mapping es) w e = elim (Result-cases (plain_entries finite p [] es)) [
    | inr (x, bad) ↦ ground arith
    | inl (es', good) ↦ ground (arith, plain_entries_again finite p q [] es es' good)
  ]
  plain_again finite p q (sequence vs) w e =
      elim (Result-cases (plain_values finite (p ++ codes "[]") vs)) [
        | inr (x, bad) ↦ ground arith
        | inl (vs', good) ↦
            ground
              (arith, plain_values_again finite (p ++ codes "[]") (q ++ codes "[]") vs vs' good)
      ]

  plain_values_again :
      {F : Type 0} (finite : F → Bool) (p q : Text) (vs ws : Values F)
      → plain_values finite p vs ≡ ok ws
      → plain_values finite q ws ≡ ok ws
  plain_values_again finite p q no_values ws e = ground arith
  plain_values_again finite p q (value v vs) ws e = elim (Result-cases (plain finite p v)) [
    | inr (x, bad) ↦ ground arith
    | inl (v', first) ↦ elim (Result-cases (plain_values finite p vs)) [
      | inr (x, bad) ↦ ground arith
      | inl (vs', later) ↦
          ground
            (arith, plain_again finite p q v v' first, plain_values_again finite p q vs vs' later)
    ]
  ]

  plain_entries_again :
      {F : Type 0} (finite : F → Bool) (p q : Text) (seen : List Text) (es ws : Entries F)
      → plain_entries finite p seen es ≡ ok ws
      → plain_entries finite q seen ws ≡ ok ws
  plain_entries_again finite p q seen no_entries ws e = ground arith
  plain_entries_again finite p q seen (entry none v es) ws e = ground arith
  plain_entries_again finite p q seen (entry (some k) v es) ws e =
      elim (Result-cases (plain finite (below p k) v)) [
        | inr (x, bad) ↦ ground arith
        | inl (v', first) ↦ elim (Result-cases (plain_entries finite p (k ∷ seen) es)) [
          | inr (x, bad) ↦ ground arith
          | inl (es', later) ↦ ground (
            arith,
            plain_again finite (below p k) (below q k) v v' first,
            plain_entries_again finite p q (k ∷ seen) es es' later,
          )
        ]
      ]

-- `_plain` applied to its own result returns it, at whatever path.
pub plain-plain :
    {F : Type 0} (finite : F → Bool) (p q : Text) (v w : Value F)
    → plain finite p v ≡ ok w
    → plain finite q w ≡ ok w
plain-plain = plain_again
