-- ===== src/H2/Frame.antt =====
-- crates/fingerprint-h2/src/frame.rs: the connection preface and the walk over the frames.
pub mod Total
pub mod RoundTrip
use flux_parsing_daemon.Base.{
  ℕ, zero, suc, ◌+◌, bit_and, not, List, [], ◌∷◌, ◌++◌, Result, ok, err, stuck, ok_or, ◌>>=◌,
  length, get_elem?, list_eq, leb, ◌==◌, if◌then◌else◌,
}
use flux_parsing_daemon.Base.Bytes.{codes, be32}
use flux_parsing_daemon.Tls.Reader.{ParseError, Reader, new, remaining, take, u8, u24}

-- `b"PRI * HTTP/2.0\r\n\r\nSM\r\n\r\n"`
abbrev pub preface : List ℕ
preface = codes "PRI * HTTP/2.0" ++ (13 ∷ 10 ∷ 13 ∷ 10 ∷ (codes "SM" ++ (13 ∷ 10 ∷ 13 ∷ 10 ∷ [])))

abbrev pub frame_data : ℕ
frame_data = 0

abbrev pub frame_headers : ℕ
frame_headers = 1

abbrev pub frame_priority : ℕ
frame_priority = 2

abbrev pub frame_settings : ℕ
frame_settings = 4

abbrev pub frame_window_update : ℕ
frame_window_update = 8

pub data H2Error : Type 0 where
  no_preface truncated : H2Error

-- `From<ParseError>`, which `?` applies
unfoldable pub read {ℓ} : {A : Type ℓ} → Result ParseError A → Result H2Error A
read (ok a) = ok a
read (err e) = err truncated
read stuck = stuck

pub record Frame : Type 0 where
  pub kind : ℕ
  pub flags : ℕ
  pub stream_id : ℕ
  pub payload : List ℕ

-- `sid.get(i)`, or the error `Truncated`
unfoldable pub octet_at : List ℕ → ℕ → Result H2Error ℕ
octet_at sid i = ok_or (get_elem? sid i) truncated

-- The body of the loop up to the push.
unfoldable pub frame_at : Reader → Result H2Error (Frame × Reader)
frame_at r = do
  (len, r₁) ← read (u24 r)
  (kind, r₂) ← read (u8 r₁)
  (flags, r₃) ← read (u8 r₂)
  (sid, r₄) ← read (take 4 r₃)
  a ← octet_at sid 0
  b ← octet_at sid 1
  c ← octet_at sid 2
  d ← octet_at sid 3
  (payload, r₅) ← read (take len r₄)
  ok (
    record {
      kind = kind;
      flags = flags;
      stream_id = be32 (bit_and a 0x7f) b c d;
      payload = payload;
    },
    r₅,
  )

-- The loop. A frame takes nine bytes at least, so one round more than bytes left is enough.
unfoldable pub frames_from : ℕ → Reader → List Frame → Result H2Error (List Frame)
frames_from zero r frames = stuck
frames_from (suc fuel) r frames =
    if leb 9 (remaining r)
    then (do
      (f, r') ← frame_at r
      if f.kind == frame_headers
          then ok (frames ++ (f ∷ []))
          else frames_from fuel r' (frames ++ (f ∷ [])))
    else ok frames

unfoldable pub parse_preamble : List ℕ → Result H2Error (List Frame)
parse_preamble raw = do
  (p, r) ← read (take (length preface) (new raw))
  if not (list_eq p preface) then err no_preface else frames_from (suc (remaining r)) r []
