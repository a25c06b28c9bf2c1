-- ===== src/Launch/Checks/Entries.antt =====
-- src/launch/spec.rs, `is_encoded_entry`, with src/launch/mounts.rs: the entry of a file.
use mathlib.Core.Option.{some-injective}
use vivarium.Prelude.{
  ℕ, zero, suc, ◌+◌, ◌*◌, ◌<◌, ◌≡◌, refl, sym, ◌∙◌, ◌≢◌, ◌↔◌, ap, true, false, ◌&&◌, ◌||◌, some, [],
  ◌∷◌, ◌++◌, Bytes, codes, ◌==◌, bytes_eq, bytes_eq_sound, leb, All, arith, Bool-cases, inl, inr,
  ◌/◌, ◌%◌,
}
use vivarium.Net.Text.{is_empty}
use vivarium.Launch.Mounts.{unreserved, encode_byte, encode_entry, hex_digit}
use vivarium.Launch.Mounts.Entry.{
  hex_value, encode_entry-decode_from, decode_from, plain, escaped, high, Decoder,
}
use vivarium.Launch.Checks.{is_digit, encoded_from, is_encoded_entry}

-- The pending digits of an escape, for the decoding.
abbrev state : ℕ → ℕ → Decoder
state zero h = plain
state (suc zero) h = high h
state (suc (suc n)) h = escaped

encoded_from-decodes :
    (n h : ℕ) (entry : Bytes)
    → n < 3
    → encoded_from n entry ≡ true
    → (name : Bytes) × (decode_from (state n h) entry ≡ some name)
unfolding encoded_from decode_from
encoded_from-decodes zero h [] bound e = ([], refl)
encoded_from-decodes (suc n) h [] bound e = absurd (ground (arith, e))
encoded_from-decodes zero h (b ∷ bs) bound e = elim (Bool-cases (b == b'%')) [
  | inl sign ↦
      let (name, f) = encoded_from-decodes 2 h bs (omega arith) (ground (arith, sign, e)) in
      (name, ground (arith, sign, f))
  | inr other ↦
      let (name, f) = encoded_from-decodes 0 h bs (omega arith) (ground (arith, other, e)) in
      (b ∷ name, ground (arith, other, e, f))
]
encoded_from-decodes (suc zero) h (b ∷ bs) bound e =
    let (name, f) = encoded_from-decodes 0 h bs (omega arith) (ground (arith, e)) in
    ((h * 16 + hex_value b) ∷ name, ground (arith, e, f))
encoded_from-decodes (suc (suc zero)) h (b ∷ bs) bound e =
    let (name, f) = encoded_from-decodes 1 (hex_value b) bs (omega arith) (ground (arith, e)) in
    (name, ground (arith, e, f))
encoded_from-decodes (suc (suc (suc n))) h (b ∷ bs) bound e = absurd (omega arith)

hex_digit-hex :
    (n : ℕ)
    → n < 16
    → (is_digit (hex_digit n) || (leb b'A' (hex_digit n) && leb (hex_digit n) b'F')) ≡ true
hex_digit-hex n h = ground arith

encoded_from-encode_byte :
    (b : ℕ) (rest : Bytes)
    → b < 256
    → encoded_from zero (encode_byte b ++ rest) ≡ encoded_from zero rest
unfolding encoded_from encode_byte
encoded_from-encode_byte b rest h = elim (Bool-cases (unreserved b)) [
  | inl safe ↦ ground (arith, safe)
  | inr other ↦
      rw (other, hex_digit-hex (b / 16) (omega arith), hex_digit-hex (b % 16) (omega arith)) refl
]

encoded_from-encode_entry :
    (name : Bytes) → All (λ b. b < 256) name → encoded_from zero (encode_entry name) ≡ true
unfolding encoded_from encode_entry
encoded_from-encode_entry [] h = refl
encoded_from-encode_entry (b ∷ bs) h =
    encoded_from-encode_byte b (encode_entry bs) h.0 ∙ encoded_from-encode_entry bs h.1

-- An entry that the validation takes decodes to some name.
pub is_encoded_entry-decodes :
    (entry : Bytes)
    → is_encoded_entry entry ≡ true
    → (name : Bytes) × (decode_from plain entry ≡ some name)
unfolding is_encoded_entry
is_encoded_entry-decodes entry h =
    encoded_from-decodes zero 0 entry (omega arith) (ground (arith, h))

-- Names of the same encoding are the same.
encode_entry-ne :
    (name word : Bytes)
    → All (λ b. b < 256) name
    → All (λ b. b < 256) word
    → name ≢ word
    → bytes_eq (encode_entry name) (encode_entry word) ≡ false
encode_entry-ne name word h k apart =
    elim (Bool-cases (bytes_eq (encode_entry name) (encode_entry word))) [
      | inr e ↦ e
      | inl e ↦
          let same = bytes_eq_sound (encode_entry name) (encode_entry word) e in
          let first = (encode_entry-decode_from name h).0 in
          let second = (encode_entry-decode_from word k).0 in
          absurd
            (apart (some-injective name word (sym first ∙ ap (decode_from plain) same ∙ second)))
    ]

is_empty-eq : (text : Bytes) → is_empty text ≡ bytes_eq text []
unfolding bytes_eq
is_empty-eq [] = refl
is_empty-eq (b ∷ bs) = refl

dotted :
    (name : Bytes)
    → All (λ b. b < 256) name
    → name ≢ []
    → name ≢ codes "."
    → name ≢ codes ".."
    → is_encoded_entry (encode_entry name) ≡ true
unfolding is_encoded_entry encode_entry encode_byte
dotted name h full one two =
    rw
      (
        is_empty-eq (encode_entry name),
        encode_entry-ne name [] h tt full,
        encode_entry-ne name (codes ".") h (omega arith, tt) one,
        encode_entry-ne name (codes "..") h (omega arith, (omega arith, tt)) two,
        encoded_from-encode_entry name h,
      )
      refl

words_refused :
    (is_encoded_entry (encode_entry []) ≡ false)
    × (is_encoded_entry (encode_entry (codes ".")) ≡ false)
    × (is_encoded_entry (encode_entry (codes "..")) ≡ false)
unfolding is_encoded_entry encode_entry encode_byte bytes_eq
words_refused = (refl, refl, refl)

-- The encoding of a name of bytes is an entry that the validation takes, exactly where the name is
-- not empty, nor one of the two names of directories.
pub is_encoded_entry-encode_entry :
    (name : Bytes)
    → All (λ b. b < 256) name
    → (is_encoded_entry (encode_entry name) ≡ true)
      ↔ ((name ≢ []) × (name ≢ codes ".") × (name ≢ codes ".."))
is_encoded_entry-encode_entry name h = (
  λ k. (
    λ e. clash [] e k words_refused.0,
    λ e. clash (codes ".") e k words_refused.1,
    λ e. clash (codes "..") e k words_refused.2,
  ),
  λ apart. dotted name h apart.0 apart.1 apart.2,
)
  where
    clash :
        (word : Bytes)
        → name ≡ word
        → is_encoded_entry (encode_entry name) ≡ true
        → is_encoded_entry (encode_entry word) ≡ false
        → ⊥
    clash word e k refused = cc
