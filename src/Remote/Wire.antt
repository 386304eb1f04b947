-- ===== src/Remote/Wire.antt =====
-- The values that requests carry, and how broker.py writes them to the journal.
use instrument_benchmark_eva.Prelude.{
  ℕ, Bool, false, Option, some, List, [], ◌∷◌, map, length, if◌then◌else◌,
}
use instrument_benchmark_eva.Prelude.Text.{Text, codes, text_eq}
use instrument_benchmark_eva.Prelude.Decimal.{ℤ, pos}
use instrument_benchmark_eva.Prelude.Dict.{Dict}
use instrument_benchmark_eva.World.Data.{sorted}
use instrument_benchmark_eva.Liftout.Value.{
  Value, null, boolean, integer, real, text, sequence, mapping, Values, no_values, value, Entries,
  no_entries, entry,
}

-- `WireValue`
mutual
  pub data Wire (F : Type 0) : Type 0 where
    wire_none : Wire F
    wire_bool : Bool → Wire F
    wire_int : ℤ → Wire F
    wire_float : F → Wire F
    wire_str : Text → Wire F
    wire_bytes : Text → Wire F
    wire_tuple : Wires F → Wire F

  pub data Wires (F : Type 0) : Type 0 where
    no_wires : Wires F
    wire : Wire F → Wires F → Wires F

-- What the audit takes from the runtime: sha256 in hexadecimal, base64, UTF-8, and the lengths and
-- texts of JSON.
pub record Runtime (F : Type 0) : Type 0 where
  pub sha256 : Text → Text
  pub base64 : Text → Text
  pub utf8 : Text → Text
  pub dumps_length : Entries F → ℕ
  pub dumps_keys : List Text → Text

abbrev pub field : {F : Type 0} → Text → Value F → Entries F → Entries F
field k v es = entry (some k) v es

module _ {F : Type 0} ⦃r : Runtime F⦄ where
  -- `_audit_token`
  unfoldable pub audit_token : Option (Wire F) → Value F
  audit_token (some (wire_str t)) = mapping (
      field (codes "type") (text (codes "token")) (
        field (codes "length") (integer (pos (length t)))
          (field (codes "sha256") (text (r.sha256 (r.utf8 t))) no_entries)))
  audit_token o = mapping (field (codes "type") (text (codes "invalid_token")) no_entries)

  abbrev audit_bytes : Bool → Text → Value F
  audit_bytes redact bs = mapping (
      field (codes "type") (text (codes "bytes")) (
        field (codes "length") (integer (pos (length bs))) (
          field (codes "sha256") (text (r.sha256 bs)) (
            if redact
            then no_entries
            else field (codes "base64") (text (r.base64 bs)) no_entries))))

  abbrev audit_string : Text → Value F
  audit_string t = mapping (
      field (codes "type") (text (codes "string")) (
        field (codes "length") (integer (pos (length t))) (
          field (codes "utf8_length") (integer (pos (length (r.utf8 t))))
            (field (codes "sha256") (text (r.sha256 (r.utf8 t))) no_entries))))

-- `_audit_value`
unfoldable mutual
  pub audit_value : {F : Type 0} → ⦃r : Runtime F⦄ → Bool → Wire F → Value F
  audit_value redact wire_none = null
  audit_value redact (wire_bool b) = boolean b
  audit_value redact (wire_int n) = integer n
  audit_value redact (wire_float x) = real x
  audit_value redact (wire_str t) = if redact then audit_string t else text t
  audit_value redact (wire_bytes bs) = audit_bytes redact bs
  audit_value redact (wire_tuple ws) = sequence (audit_values redact ws)

  pub audit_values : {F : Type 0} → ⦃r : Runtime F⦄ → Bool → Wires F → Values F
  audit_values redact no_wires = no_values
  audit_values redact (wire w ws) = value (audit_value redact w) (audit_values redact ws)

module _ {F : Type 0} ⦃r : Runtime F⦄ where
  -- `_audit_mapping`
  unfoldable pub audit_mapping : Dict (Wire F) → Entries F
  unfolding audit_token audit_value text_eq
  audit_mapping [] = no_entries
  audit_mapping ((k, w) ∷ d) =
      field k (if text_eq k (codes "session") then audit_token (some w) else audit_value false w)
        (audit_mapping d)

  -- `_audit_rejected_mapping`
  unfoldable pub audit_rejected_mapping : Dict (Wire F) → Value F
  audit_rejected_mapping d = mapping (
      field (codes "type") (text (codes "redacted_mapping")) (
        field (codes "entries") (integer (pos (length d))) (
          field (codes "keys_sha256")
            (text (r.sha256 (r.dumps_keys (sorted (map (λ (k, _). k) d))))) no_entries)))
