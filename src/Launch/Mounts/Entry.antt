-- ===== src/Launch/Mounts/Entry.antt =====
-- src/launch/mounts.rs: the encoding of an entry, and a decoding of it.
use vivarium.Prelude.{
  ℕ, ◌+◌, ◌-◌, ◌*◌, ◌/◌, ◌%◌, ◌<◌, ◌≡◌, refl, ◌∙◌, ap, Bool, true, ◌&&◌, ◌||◌, Option, none, some,
  [], ◌∷◌, ◌++◌, Bytes, leb, ◌==◌, if◌then◌else◌, all, all-append, All, arith, Bool-cases, inl, inr,
}
use vivarium.Launch.Mounts.{unreserved, hex_digit, encode_byte, encode_entry}

-- The decoding of percent escapes, byte by byte, that an entry is meant for.
pub data Decoder : Type 0 where
  plain escaped : Decoder
  high : ℕ → Decoder

abbrev is_hex : ℕ → Bool
is_hex c = (leb b'0' c && leb c b'9') || (leb b'A' c && leb c b'F')

abbrev pub hex_value : ℕ → ℕ
hex_value c = if leb c b'9' then c - b'0' else c - b'A' + 10

abbrev cons_some : ℕ → Option Bytes → Option Bytes
cons_some b none = none
cons_some b (some bs) = some (b ∷ bs)

unfoldable pub decode_from : Decoder → Bytes → Option Bytes
decode_from plain [] = some []
decode_from escaped [] = none
decode_from (high h) [] = none
decode_from plain (b ∷ bs) =
    let text = decode_from plain bs in
    let escape = decode_from escaped bs in
    if b == b'%' then escape else if unreserved b then cons_some b text else none
decode_from escaped (b ∷ bs) =
    let rest = decode_from (high (hex_value b)) bs in if is_hex b then rest else none
decode_from (high h) (b ∷ bs) =
    let rest = decode_from plain bs in
    if is_hex b then cons_some (h * 16 + hex_value b) rest else none

hex_digit-is_hex : (n : ℕ) → n < 16 → (is_hex (hex_digit n) ≡ true) × (hex_value (hex_digit n) ≡ n)
hex_digit-is_hex n h = ground arith

decode_from-encode_byte :
    (b : ℕ) (rest : Bytes)
    → b < 256
    → decode_from plain (encode_byte b ++ rest) ≡ cons_some b (decode_from plain rest)
unfolding decode_from encode_byte
decode_from-encode_byte b rest h = elim (Bool-cases (unreserved b)) [
  | inl safe ↦ ground arith
  | inr other ↦
      let top = hex_digit-is_hex (b / 16) (omega arith) in
      let low = hex_digit-is_hex (b % 16) (omega arith) in
      rw (other, top.0, top.1, low.0, low.1)
        (ap (λ n. cons_some n (decode_from plain rest)) (omega arith))
]

-- The characters of an encoded entry.
abbrev pub entry_char : ℕ → Bool
entry_char c = unreserved c || c == b'%'

encode_byte-entry_char : (b : ℕ) → b < 256 → all entry_char (encode_byte b) ≡ true
unfolding encode_byte
encode_byte-entry_char b h = elim (Bool-cases (unreserved b)) [
  | inl safe ↦ ground arith
  | inr other ↦ rw other (ground arith)
]

-- The encoding of a name of bytes decodes to that very name, and has no character but unreserved
-- ones and the percent sign.
pub encode_entry-decode_from :
    (name : Bytes)
    → All (λ b. b < 256) name
    → (decode_from plain (encode_entry name) ≡ some name)
      × (all entry_char (encode_entry name) ≡ true)
unfolding encode_entry decode_from
encode_entry-decode_from [] h = (refl, refl)
encode_entry-decode_from (b ∷ bs) (h, hs) =
    let (decoded, clean) = encode_entry-decode_from bs hs in
    (
      decode_from-encode_byte b (encode_entry bs) h ∙ ap (cons_some b) decoded,
      rw
          (
            all-append entry_char (encode_byte b) (encode_entry bs),
            encode_byte-entry_char b h,
            clean,
          )
          refl,
    )
