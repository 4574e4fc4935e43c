-- ===== src/H2/Akamai/Laws.antt =====
-- The whole HTTP/2 fingerprint on any bytes.
use flux_parsing_daemon.Base.{ℕ, List, ◌≢◌, stuck, >>=-ne-stuck, ok-ne-stuck}
use flux_parsing_daemon.H2.Frame.Total.{parse_preamble-ne-stuck}
use flux_parsing_daemon.H2.Akamai.{fingerprint}

-- Fingerprinting a preamble ends in a fingerprint or an error.
pub h2_fingerprint-ne-stuck : (raw : List ℕ) → fingerprint raw ≢ stuck
unfolding fingerprint
h2_fingerprint-ne-stuck raw = >>=-ne-stuck _ _ (parse_preamble-ne-stuck raw) λ frames _. ok-ne-stuck
