-- ===== src/Probe/Json.antt =====
-- `record_json` of crates/fingerprint-probe/src/admin.rs: the line of the admin socket for a connection. The
-- library serde_json is the parameter `Json`.
use flux_parsing_daemon.Base.{
  ℕ, ◌%◌, ◌^◌, ◌≡◌, Bool, true, List, [], ◌∷◌, map, Option, none, some, get_elem?, list_eq,
  if◌then◌else◌,
}
use flux_parsing_daemon.Base.Bytes.{codes}
use flux_parsing_daemon.Base.Options.{map_option, unwrap_or}
use flux_parsing_daemon.Tls.Hello.{Span}
use flux_parsing_daemon.Tls.Ja4.{Provenance}
use flux_parsing_daemon.Probe.Base64.{base64}
use flux_parsing_daemon.Probe.Verdict.{Scores}
use flux_parsing_daemon.Probe.Log.{ConnectionRecord}

-- JSON values over the scores `S`, how they are made, read, printed and parsed.
pub record Json (S : Type 0) : Type 1 where
  pub Value : Type 0
  pub Text : Type 0
  pub null : Value
  pub number : ℕ → Value
  pub float : S → Value
  pub bool : Bool → Value
  pub string : List ℕ → Value
  pub array : List Value → Value
  pub object : List (List ℕ × Value) → Value
  -- `v["key"]` and `v[i]`, which are null where there is none
  pub index : Value → List ℕ → Value
  pub elem : Value → ℕ → Value
  pub as_u64 : Value → Option ℕ
  pub as_bool : Value → Option Bool
  -- `as_f64() as f32`, by its bits
  pub as_f32 : Value → Option ℕ
  pub bits : S → ℕ
  pub is_finite : S → Bool
  pub as_str : Value → Option (List ℕ)
  pub as_array : Value → Option (List Value)
  pub to_string : Value → Text
  pub from_str : Text → Option Value

-- The value of a key, of which a later entry replaces an earlier one.
unfoldable pub entry_of {ℓ} : {V : Type ℓ} → V → List (List ℕ × V) → List ℕ → V
entry_of v [] key = v
entry_of v ((k, w) ∷ fields) key = entry_of (if list_eq k key then w else v) fields key

-- What is documented: made values read as what they were made of, and a printed value parses to one that
-- reads the same; a finite `f32` is read back from the digits that are printed.
pub record IsLawful {S : Type 0} (j : Json S) : Type 0 where
  pub index-object :
      (fields : List (List ℕ × j.Value)) (key : List ℕ)
      → j.index (j.object fields) key ≡ entry_of j.null fields key
  pub elem-array :
      (vs : List j.Value) (i : ℕ) → j.elem (j.array vs) i ≡ unwrap_or (get_elem? vs i) j.null
  pub as_u64-number : (n : ℕ) → j.as_u64 (j.number n) ≡ some n
  pub as_bool-bool : (b : Bool) → j.as_bool (j.bool b) ≡ some b
  pub as_str-string : (s : List ℕ) → j.as_str (j.string s) ≡ some s
  pub as_str-null : j.as_str j.null ≡ none
  pub as_array-array : (vs : List j.Value) → j.as_array (j.array vs) ≡ some vs
  pub reread : j.Value → j.Value
  pub from_str-to_string : (v : j.Value) → j.from_str (j.to_string v) ≡ some (reread v)
  pub index-reread : (v : j.Value) (key : List ℕ) → j.index (reread v) key ≡ reread (j.index v key)
  pub elem-reread : (v : j.Value) (i : ℕ) → j.elem (reread v) i ≡ reread (j.elem v i)
  pub as_u64-reread : (v : j.Value) → j.as_u64 (reread v) ≡ j.as_u64 v
  pub as_bool-reread : (v : j.Value) → j.as_bool (reread v) ≡ j.as_bool v
  pub as_f32-reread :
      (x : S) → j.is_finite x ≡ true → j.as_f32 (reread (j.float x)) ≡ some (j.bits x)
  pub as_str-reread : (v : j.Value) → j.as_str (reread v) ≡ j.as_str v
  pub as_array-reread :
      (v : j.Value) → j.as_array (reread v) ≡ map_option (map reread) (j.as_array v)

-- `as_millis() as u64` of a time since the epoch.
unfoldable pub epoch_ms : ℕ → ℕ
epoch_ms at = at % 2 ^ 64

module _ (s : Scores) (j : Json s.Score) where
  open j use {null, number, float, bool, string, array, object}

  unfoldable pub span_json : Span → j.Value
  span_json span = object ((codes "start", number span.start) ∷ (codes "len", number span.len) ∷ [])

  unfoldable pub extension_json : ℕ × Span → j.Value
  extension_json (id, span) = array (number id ∷ span_json span ∷ [])

  -- `json!` of an `Option`
  unfoldable pub optional : Option (List ℕ) → j.Value
  optional none = null
  optional (some text) = string text

  unfoldable pub provenance_fields : Provenance → List (List ℕ × j.Value)
  provenance_fields p =
      (codes "ciphers", span_json p.ciphers)
      ∷ (codes "extensions", span_json p.extensions)
      ∷ (codes "per_extension", array (map extension_json p.per_extension))
      ∷ []

  unfoldable pub record_fields : ConnectionRecord s → List (List ℕ × j.Value)
  record_fields r =
      (codes "type", string (codes "record"))
      ∷ (codes "seq", number r.seq)
      ∷ (codes "at_ms", number (epoch_ms r.at))
      ∷ (codes "ip", string r.ip)
      ∷ (codes "ja4", string r.ja4)
      ∷ (codes "akamai", optional r.akamai)
      ∷ (codes "verdict", string r.verdict)
      ∷ (codes "score", float r.score)
      ∷ (codes "mismatch", bool r.mismatch)
      ∷ (codes "alpn", optional r.alpn)
      ∷ (codes "raw_hello", string (base64 r.raw_hello))
      ∷ (codes "provenance", object (provenance_fields r.provenance))
      ∷ []

  unfoldable pub record_json : ConnectionRecord s → j.Text
  record_json r = j.to_string (object (record_fields r))
