-- ===== src/Protocol/Wire.antt =====
-- src/protocol/frame.rs, `read_raw` and `write_raw`: a frame is a four-byte big-endian length that
-- counts the tag and the payload, the tag byte, and the payload. A stream is a list of bytes with
-- what follows them; an asynchronous read that waits is the same read once the bytes are there.
pub mod Bounds
pub mod RoundTrip
use vivarium.Prelude.{
  ℕ, suc, ◌+◌, ◌-◌, ◌*◌, ◌/◌, ◌%◌, ◌^◌, Bool, ◌||◌, not, List, [], ◌∷◌, ◌++◌, Bytes, length, take,
  drop, ltb, leb, ◌==◌, if◌then◌else◌, Result, ok, err, ◌>>=◌, ◌>>◌, guard,
}
use vivarium.Protocol.Message.{
  stream_payload_max, control_payload_max, tag_stdin, tag_stdout, tag_stderr,
}

pub data FrameError : Type 0 where
  eof truncated invalid_length oversized unknown_tag wrong_direction malformed_control io :
      FrameError

-- How a stream goes on behind the bytes that it delivers: it is closed, or a read of it fails.
pub data Ending : Type 0 where
  closed broken : Ending

pub record Reader : Type 0 where
  pub bytes : Bytes
  pub ending : Ending

-- `FrameError::read`, and the failures of `read` itself.
abbrev pub read_error : Ending → FrameError
read_error closed = truncated
read_error broken = io

abbrev pub first_error : Ending → FrameError
first_error closed = eof
first_error broken = io

-- `read` of one byte: no byte is the end of the stream.
unfoldable pub read_first : Reader → Result FrameError (ℕ × Reader)
read_first r = elim r.bytes [
  | [] ↦ err (first_error r.ending)
  | b ∷ bs ↦ ok (b, record r { bytes = bs })
]

unfoldable pub read_exact : ℕ → Reader → Result FrameError (Bytes × Reader)
read_exact n r =
    if leb n (length r.bytes)
    then ok (take n r.bytes, record r { bytes = drop n r.bytes })
    else err (read_error r.ending)

abbrev pub from_be_bytes : ℕ → Bytes → ℕ
from_be_bytes acc [] = acc
from_be_bytes acc (b ∷ bs) = from_be_bytes (acc * 256 + b) bs

abbrev pub to_be_bytes : ℕ → Bytes
to_be_bytes n = n / 2 ^ 24 % 256 ∷ n / 2 ^ 16 % 256 ∷ n / 2 ^ 8 % 256 ∷ n % 256 ∷ []

abbrev pub is_stream_tag : ℕ → Bool
is_stream_tag tag = tag == tag_stdin || tag == tag_stdout || tag == tag_stderr

-- The first byte of the one that `read_exact` filled.
abbrev pub head_or : ℕ → Bytes → ℕ
head_or d [] = d
head_or d (b ∷ bs) = b

-- A frame as it arrived: the tag, the payload and the stream behind it.
pub record Raw : Type 0 where
  pub tag : ℕ
  pub payload : Bytes
  pub rest : Reader

-- The part of `read_raw` behind the length prefix.
unfoldable pub read_body : ℕ → Reader → Result FrameError Raw
read_body len r = do
  guard (not (len == 0)) invalid_length
  guard (leb len (control_payload_max + 1)) oversized
  (tag, r) ← read_exact 1 r
  guard (not (is_stream_tag (head_or 0 tag)) || leb (len - 1) stream_payload_max) oversized
  (payload, r) ← read_exact (len - 1) r
  ok (record { tag = head_or 0 tag; payload = payload; rest = r })

unfoldable pub read_raw : Reader → Result FrameError Raw
read_raw r = do
  (first, r) ← read_first r
  (others, r) ← read_exact 3 r
  read_body (from_be_bytes 0 (first ∷ others)) r

-- A stream that is written: what it took so far, and how many bytes it takes before it fails. A
-- flush adds nothing to it.
pub record Writer : Type 0 where
  pub written : Bytes
  pub room : ℕ

unfoldable pub write_all : Bytes → Writer → Result FrameError Writer
write_all bs w =
    if leb (length bs) w.room
    then ok (record { written = w.written ++ bs; room = w.room - length bs })
    else err io

abbrev pub payload_max : ℕ → ℕ
payload_max tag = if is_stream_tag tag then stream_payload_max else control_payload_max

unfoldable pub write_raw : Writer → ℕ → Bytes → Result FrameError Writer
write_raw w tag payload = do
  guard (leb (length payload) (payload_max tag)) oversized
  guard (ltb (length payload + 1) (2 ^ 32)) oversized
  w ← write_all (to_be_bytes (length payload + 1)) w
  w ← write_all (tag ∷ []) w
  write_all payload w

-- The bytes of a frame.
abbrev pub framed : ℕ → Bytes → Bytes
framed tag payload = to_be_bytes (length payload + 1) ++ (tag ∷ payload)
