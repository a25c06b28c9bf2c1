-- ===== src/Protocol/Wire/Bounds.antt =====
-- src/protocol/frame.rs: the bounds of a frame that is read, and frames that are cut short.
use vivarium.Prelude.{
  ℕ, ◌+◌, ◌-◌, ◌≤◌, ◌<◌, ◌≡◌, refl, ap, ◌≢◌, [], ◌∷◌, ◌++◌, Bytes, length, ok, err, arith,
  length-append, length-take_of_le, take-append-drop,
}
use vivarium.Protocol.Wire.{
  Ending, Reader, read_error, read_first, read_exact, read_raw, read_body, Raw, payload_max, framed,
  from_be_bytes,
}
use vivarium.Protocol.Wire.RoundTrip.{read_exact-append}

-- A full read takes just what was asked for, from the front.
read_exact-eq-ok :
    (n : ℕ) (r r' : Reader) (bs : Bytes)
    → read_exact n r ≡ ok (bs, r')
    → (length bs ≡ n) × (r.bytes ≡ bs ++ r'.bytes) × (r'.ending ≡ r.ending)
unfolding read_exact
read_exact-eq-ok n r r' bs h =
    ground (arith, length-take_of_le n r.bytes, take-append-drop n r.bytes)

read_exact_short :
    (n : ℕ) (r : Reader) → length r.bytes < n → read_exact n r ≡ err (read_error r.ending)
unfolding read_exact
read_exact_short n r h = ground arith

read_exact-one :
    (t : ℕ) (bs : Bytes) (e : Ending)
    → read_exact 1 (record { bytes = t ∷ bs; ending = e })
      ≡ ok (t ∷ [], record { bytes = bs; ending = e })
unfolding read_exact
read_exact-one t bs e = ground arith

-- The two parts of a bounded frame that `read_body` leaves.
read_body_bounds :
    (len : ℕ) (bs : Bytes) (e : Ending) (raw : Raw)
    → read_body len (record { bytes = bs; ending = e }) ≡ ok raw
    → (length raw.payload ≤ payload_max raw.tag)
      × (bs ≡ raw.tag ∷ raw.payload ++ raw.rest.bytes)
      × (len ≡ length raw.payload + 1)
unfolding read_body
read_body_bounds len [] e raw h =
    ground (arith, read_exact_short 1 (record { bytes = []; ending = e }) (omega arith))
read_body_bounds len (t ∷ bs) e raw h = ground (
  arith,
  read_exact-one t bs e,
  read_exact-eq-ok (len - 1) (record { bytes = bs; ending = e }) raw.rest raw.payload,
)

-- A frame that is read lies within the bound of its tag and was taken from the front of the
-- stream: four bytes that spell its length, its tag, its payload, and nothing of what follows.
pub read_raw_bounds :
    (bs : Bytes) (e : Ending) (raw : Raw)
    → read_raw (record { bytes = bs; ending = e }) ≡ ok raw
    → (length raw.payload ≤ payload_max raw.tag)
      × ((prefix : Bytes) × (length prefix ≡ 4)
          × (from_be_bytes 0 prefix ≡ length raw.payload + 1)
          × (bs ≡ prefix ++ (raw.tag ∷ raw.payload ++ raw.rest.bytes)))
unfolding read_raw read_first
read_raw_bounds [] e raw h = cc
read_raw_bounds (a ∷ []) e raw h =
    ground (arith, read_exact_short 3 (record { bytes = []; ending = e }) (omega arith))
read_raw_bounds (a ∷ b ∷ []) e raw h =
    ground (arith, read_exact_short 3 (record { bytes = b ∷ []; ending = e }) (omega arith))
read_raw_bounds (a ∷ b ∷ c ∷ []) e raw h =
    ground (arith, read_exact_short 3 (record { bytes = b ∷ c ∷ []; ending = e }) (omega arith))
read_raw_bounds (a ∷ b ∷ c ∷ d ∷ bs) e raw h =
    let body = read_body_bounds (from_be_bytes 0 (a ∷ b ∷ c ∷ d ∷ [])) bs e raw (rw head at h) in
    (body.0, (a ∷ b ∷ c ∷ d ∷ [], refl, body.2, ap (λ t. a ∷ b ∷ c ∷ d ∷ t) body.1))
  where
    head :
        read_exact 3 (record { bytes = b ∷ c ∷ d ∷ bs; ending = e })
        ≡ ok (b ∷ c ∷ d ∷ [], record { bytes = bs; ending = e })
    head = read_exact-append (b ∷ c ∷ d ∷ []) bs 3 e refl

-- The same body one byte or more too short.
read_body_short :
    (tag : ℕ) (payload bs more : Bytes) (e : Ending)
    → length payload ≤ payload_max tag
    → more ≢ []
    → bs ++ more ≡ tag ∷ payload
    → read_body (length payload + 1) (record { bytes = bs; ending = e }) ≡ err (read_error e)
unfolding read_body
read_body_short tag payload [] more e h k eq =
    ground (arith, read_exact_short 1 (record { bytes = []; ending = e }) (omega arith))
read_body_short tag payload (t ∷ bs) [] e h k eq = absurd (k refl)
read_body_short tag payload (t ∷ bs) (m ∷ more) e h k eq = ground (
  arith,
  read_exact-one t bs e,
  ap length eq,
  length-append bs (m ∷ more),
  read_exact_short (length payload + 1 - 1) (record { bytes = bs; ending = e }),
)

-- A frame within its bound that is cut short after at least one byte never passes for a frame:
-- `truncated` where the stream is closed behind the cut, `io` where it breaks.
pub read_raw_short :
    (tag : ℕ) (payload bs more : Bytes) (e : Ending)
    → length payload ≤ payload_max tag
    → bs ≢ []
    → more ≢ []
    → bs ++ more ≡ framed tag payload
    → read_raw (record { bytes = bs; ending = e }) ≡ err (read_error e)
unfolding read_raw read_first
read_raw_short tag payload [] more e h nonempty k eq = absurd (nonempty refl)
read_raw_short tag payload (a ∷ []) more e h nonempty k eq =
    ground (arith, read_exact_short 3 (record { bytes = []; ending = e }) (omega arith))
read_raw_short tag payload (a ∷ b ∷ []) more e h nonempty k eq =
    ground (arith, read_exact_short 3 (record { bytes = b ∷ []; ending = e }) (omega arith))
read_raw_short tag payload (a ∷ b ∷ c ∷ []) more e h nonempty k eq =
    ground (arith, read_exact_short 3 (record { bytes = b ∷ c ∷ []; ending = e }) (omega arith))
read_raw_short tag payload (a ∷ b ∷ c ∷ d ∷ bs) more e h nonempty k eq =
    let small : length payload ≤ 1048576 = ground arith in
    let len : from_be_bytes 0 (a ∷ b ∷ c ∷ d ∷ []) ≡ length payload + 1 = ground arith in
    let tail : bs ++ more ≡ tag ∷ payload = ground arith in
    rw (read_exact-append (b ∷ c ∷ d ∷ []) bs 3 e refl, len)
      (read_body_short tag payload bs more e h k tail)
