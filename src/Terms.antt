-- ===== src/Terms.antt =====
-- crates/fingerprint-terms: nothing runs before the terms are accepted. gate.rs, record.rs, and `load` of
-- store.rs. HMAC-SHA256 over a text, in hexadecimal, the hash of the terms in the binary, and the reading
-- of the record's file with its JSON are parameters.
pub mod Gate
pub mod Program
use flux_parsing_daemon.Base.{
  ℕ, Bool, true, false, not, ◌&&◌, List, [], ◌∷◌, ◌++◌, Option, none, some, Result, ok, err, any,
  is_empty, list_eq, if◌then◌else◌,
}
use flux_parsing_daemon.Base.Bytes.{codes}
use flux_parsing_daemon.Base.Options.{◌>>=◌}

abbrev pub carve_out_commands : List (List ℕ)
carve_out_commands = codes "terms" ∷ []

abbrev pub carve_out_flags : List (List ℕ)
carve_out_flags = codes "--help" ∷ codes "-h" ∷ codes "--version" ∷ codes "-V" ∷ []

-- `contains`
unfoldable pub has : List (List ℕ) → List ℕ → Bool
has texts text = any (λ t. list_eq t text) texts

unfoldable pub command_applies : List (List ℕ) → Bool
command_applies [] = true
command_applies (first ∷ args) = not (has carve_out_commands first)

unfoldable pub applies_to : List (List ℕ) → Bool
applies_to argv = if any (λ a. has carve_out_flags a) argv then false else command_applies argv

pub data GateRefusal : Type 0 where
  refusal : GateRefusal

pub record AcceptanceRecord : Type 0 where
  pub terms_version : List ℕ
  pub fpd_version : List ℕ
  pub accepted_at : List ℕ
  pub sig : List ℕ

-- `format!("{}|{}|{}", ..)`
unfoldable pub payload : AcceptanceRecord → List ℕ
payload r = r.terms_version ++ (codes "|" ++ (r.fpd_version ++ (codes "|" ++ r.accepted_at)))

-- What the binary and its libraries give: the hash of the terms, and the digest under the record key.
pub record Terms : Type 0 where
  pub terms_hash : List ℕ
  pub hmac_hex : List ℕ → List ℕ

module _ (t : Terms) where
  unfoldable pub compute_sig : AcceptanceRecord → List ℕ
  compute_sig r = codes "hmac-sha256:" ++ t.hmac_hex (payload r)

  -- `AcceptanceRecord::new`, with the clock's text.
  unfoldable pub accept : List ℕ → List ℕ → AcceptanceRecord
  accept fpd_version now =
      let r : AcceptanceRecord = record {
        terms_version = t.terms_hash;
        fpd_version = fpd_version;
        accepted_at = now;
        sig = [];
      } in
      record r { sig = compute_sig r }

  unfoldable pub verify : AcceptanceRecord → Bool
  verify r =
      not (is_empty r.sig)
      && (list_eq r.sig (compute_sig r) && list_eq r.terms_version t.terms_hash)

  -- `load`, from what the file holds: nothing where it cannot be read or is not a record.
  unfoldable pub load : Option AcceptanceRecord → Option AcceptanceRecord
  load stored = do r ← stored; if verify r then some r else none

  unfoldable pub loaded_or_refused : Option AcceptanceRecord → Result GateRefusal (Unit {0})
  loaded_or_refused (some r) = ok tt
  loaded_or_refused none = err refusal

  unfoldable pub check_with : Option AcceptanceRecord → Bool → Result GateRefusal (Unit {0})
  check_with stored env_accepted = if env_accepted then ok tt else loaded_or_refused (load stored)
