-- ===== src/Protocol/Wire/RoundTrip.antt =====
-- src/protocol/frame.rs: raw frames that are written and read.
use mathlib.Core.List.{append_assoc}
use vivarium.Prelude.{
  ℕ, ◌+◌, ◌-◌, ◌≤◌, ◌≡◌, refl, inl, inr, [], ◌∷◌, ◌++◌, Bytes, length, drop, leb, ok, arith,
  length-append, take-append, drop-append, Bool-cases,
}
use vivarium.Protocol.Wire.{
  Ending, read_first, read_exact, read_raw, read_body, Writer, write_all, write_raw, payload_max,
  framed, to_be_bytes,
}

pub read_exact-append :
    (bs rest : Bytes) (n : ℕ) (e : Ending)
    → length bs ≡ n
    → read_exact n (record { bytes = bs ++ rest; ending = e })
      ≡ ok (bs, record { bytes = rest; ending = e })
unfolding read_exact
read_exact-append bs rest n e h = elim (Bool-cases (leb n (length (bs ++ rest)))) [
  | inl enough ↦ rw (enough, ← h, take-append, drop-append)
  | inr short ↦ absurd (ground (arith, length-append bs rest))
]

-- `write_raw` succeeds only on a payload within its bound, and then appends the frame and nothing
-- else.
pub write_raw-framed :
    (w w' : Writer) (tag : ℕ) (payload : Bytes)
    → write_raw w tag payload ≡ ok w'
    → (w'.written ≡ w.written ++ framed tag payload) × (length payload ≤ payload_max tag)
unfolding write_raw write_all
write_raw-framed w w' tag payload h =
    let prefix = to_be_bytes (length payload + 1) in
    ground (
      arith,
      append_assoc (w.written ++ prefix) (tag ∷ []) payload,
      append_assoc w.written prefix (tag ∷ payload),
    )

pub read_body-framed :
    (tag len : ℕ) (payload rest : Bytes) (e : Ending)
    → length payload ≤ payload_max tag
    → len ≡ length payload + 1
    → read_body len (record { bytes = tag ∷ payload ++ rest; ending = e })
      ≡ ok (record { tag = tag; payload = payload; rest = record { bytes = rest; ending = e } })
unfolding read_body
read_body-framed tag len payload rest e h k = ground (
  arith,
  read_exact-append (tag ∷ []) (payload ++ rest) 1 e refl,
  read_exact-append payload rest (len - 1) e (omega arith),
)

pub read_raw-framed :
    (tag : ℕ) (payload rest : Bytes) (e : Ending)
    → length payload ≤ payload_max tag
    → read_raw (record { bytes = framed tag payload ++ rest; ending = e })
      ≡ ok (record { tag = tag; payload = payload; rest = record { bytes = rest; ending = e } })
unfolding read_raw read_first
read_raw-framed tag payload rest e h =
    let small : length payload ≤ 1048576 = ground arith in
    rw
      (read_exact-append (drop 1 (to_be_bytes (length payload + 1))) (tag ∷ payload ++ rest) 3 e
        refl)
      (read_body-framed tag _ payload rest e h (omega arith))
