-- ===== src/Probe/Streams.antt =====
-- crates/fingerprint-probe/src/recording.rs and replaying.rs: the tee that keeps what was read, and the
-- stream that hands bytes back before the live ones. The inner stream is whatever its reads return.
pub mod Recorded
pub mod Replayed
use flux_parsing_daemon.Base.{
  ℕ, ◌+◌, ◌-◌, ◌*◌, min, Bool, List, [], ◌∷◌, ◌++◌, length, slice, take, is_empty, ltb,
  if◌then◌else◌,
}

-- `64 * 1024`
abbrev pub default_cap : ℕ
default_cap = 65536

-- A read of the inner stream: the bytes put into the caller's buffer, an error, or nothing yet.
pub data Poll : Type 0 where
  ready : List ℕ → Poll
  failed pending : Poll

pub record RecordingStream : Type 0 where
  pub seen : List ℕ
  pub cap : ℕ

unfoldable pub with_cap : ℕ → RecordingStream
with_cap cap = record { seen = []; cap = cap }

-- `RecordingStream::new`, for a buffer that is empty.
unfoldable pub recording : RecordingStream
recording = with_cap default_cap

unfoldable pub keep_bytes : List ℕ → ℕ → List ℕ → List ℕ
keep_bytes seen cap bytes =
    let room = cap - length seen in
    if is_empty bytes
    then seen
    else if ltb 0 room
    then seen ++ take (min room (length bytes)) bytes
    else seen

-- What the caller receives, and the tee then.
unfoldable pub poll_recorded : Poll → RecordingStream → List ℕ × RecordingStream
poll_recorded (ready bytes) s = (bytes, record s { seen = keep_bytes s.seen s.cap bytes })
poll_recorded failed s = ([], s)
poll_recorded pending s = ([], s)

pub record Replaying : Type 0 where
  pub buf : List ℕ
  pub pos : ℕ

unfoldable pub replay : List ℕ → Replaying
replay buf = record { buf = buf; pos = 0 }

unfoldable pub is_replaying : Replaying → Bool
is_replaying s = ltb s.pos (length s.buf)

-- What a read of the inner stream gives.
abbrev pub bytes_of : Poll → List ℕ
bytes_of (ready bytes) = bytes
bytes_of failed = []
bytes_of pending = []

-- A read into a buffer with `room` bytes left. The inner stream is read only where no byte is left to
-- replay; `inner` is its answer then.
unfoldable pub poll_replaying : ℕ → Poll → Replaying → List ℕ × Replaying
poll_replaying room inner s =
    let n = min room (length s.buf - s.pos) in
    if ltb s.pos (length s.buf)
    then (slice s.buf s.pos n, record s { pos = s.pos + n })
    else (bytes_of inner, s)
