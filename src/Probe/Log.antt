-- ===== src/Probe/Log.antt =====
-- crates/fingerprint-probe/src/log.rs: the window over the latest connections. The time of a record is the
-- clock's, the number of `SystemTime::now`.
pub mod Window
use flux_parsing_daemon.Base.{
  ℕ, zero, suc, ◌+◌, ◌-◌, Bool, List, [], ◌∷◌, ◌++◌, Option, none, some, length, pop_front_to,
}
use flux_parsing_daemon.Base.Bytes.{codes}
use flux_parsing_daemon.Base.Options.{map_option, is_some}
use flux_parsing_daemon.Tls.Ja4.{Provenance}
use flux_parsing_daemon.H2.Akamai.{H2Fingerprint}
use flux_parsing_daemon.Probe.Profile.{ClientReport}
use flux_parsing_daemon.Probe.Verdict.{Scores, Candidate, Identification}

module _ (s : Scores) where
  pub record ConnectionRecord : Type 0 where
    pub seq : ℕ
    pub at : ℕ
    pub ip : List ℕ
    pub ja4 : List ℕ
    pub akamai : Option (List ℕ)
    pub verdict : List ℕ
    pub score : s.Score
    pub mismatch : Bool
    pub alpn : Option (List ℕ)
    pub raw_hello : List ℕ
    pub provenance : Provenance

  -- The `match` on the best candidate.
  unfoldable pub verdict_of : Option (Candidate s) → List ℕ × s.Score
  verdict_of (some best) = (best.label, best.value)
  verdict_of none = (codes "unknown", s.zero_score)

  unfoldable pub connection : ClientReport → Identification s → List ℕ → ℕ → ConnectionRecord
  connection report id ip now = record {
    seq = 0;
    at = now;
    ip = ip;
    ja4 = report.tls.ja4;
    akamai = map_option (λ (h : H2Fingerprint). h.akamai) report.h2;
    verdict = (verdict_of id.best).0;
    score = (verdict_of id.best).1;
    mismatch = is_some id.mismatch;
    alpn = report.alpn;
    raw_hello = report.raw_hello;
    provenance = report.tls.provenance;
  }

  pub record ConnectionLog : Type 0 where
    pub records : List ConnectionRecord
    pub capacity : ℕ
    pub next_seq : ℕ

  -- `capacity.max(1)`
  unfoldable pub with_capacity : ℕ → ConnectionLog
  with_capacity zero = record { records = []; capacity = 1; next_seq = 0 }
  with_capacity (suc n) = record { records = []; capacity = suc n; next_seq = 0 }

  -- The sequence number and the log then.
  unfoldable pub push : ConnectionLog → ConnectionRecord → ℕ × ConnectionLog
  push log r =
      let records = log.records ++ (record r { seq = log.next_seq } ∷ []) in
      (
        log.next_seq,
        record {
          records = pop_front_to (length records) log.capacity records;
          capacity = log.capacity;
          next_seq = log.next_seq + 1;
        },
      )

  unfoldable pub snapshot : ConnectionLog → List ConnectionRecord
  snapshot log = log.records
