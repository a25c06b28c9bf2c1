-- ===== src/Net/Text.antt =====
-- The searches and splits of `str` that src/net uses, over the bytes of a text.
pub mod Laws
use vivarium.Prelude.{
  ℕ, ◌+◌, ◌-◌, Bool, true, false, ◌&&◌, ◌||◌, Option, none, some, List, [], ◌∷◌, ◌++◌, Bytes,
  length, take, drop, leb, ◌==◌, if◌then◌else◌, bytes_eq,
}

-- `strip_prefix`.
unfoldable pub strip_prefix : Bytes → Bytes → Option Bytes
strip_prefix [] bs = some bs
strip_prefix (p ∷ ps) [] = none
strip_prefix (p ∷ ps) (b ∷ bs) = if p == b then strip_prefix ps bs else none

-- `strip_suffix`.
unfoldable pub strip_suffix : Bytes → Bytes → Option Bytes
unfolding bytes_eq
strip_suffix s bs =
    let k = length bs - length s in
    if leb (length s) (length bs) && bytes_eq (drop k bs) s then some (take k bs) else none

-- `contains` of one byte.
unfoldable pub has : ℕ → Bytes → Bool
has c [] = false
has c (b ∷ bs) = b == c || has c bs

abbrev pub is_empty {ℓ} : {A : Type ℓ} → List A → Bool
is_empty [] = true
is_empty (x ∷ xs) = false

abbrev pub starts_with : ℕ → Bytes → Bool
starts_with c [] = false
starts_with c (b ∷ bs) = b == c

unfoldable pub ends_with : ℕ → Bytes → Bool
ends_with c [] = false
ends_with c (b ∷ []) = b == c
ends_with c (b ∷ d ∷ bs) = ends_with c (d ∷ bs)

abbrev pub cons_head : ℕ → List Bytes → List Bytes
cons_head b [] = (b ∷ []) ∷ []
cons_head b (l ∷ ls) = (b ∷ l) ∷ ls

-- `split` at one byte: never empty.
unfoldable pub split : ℕ → Bytes → List Bytes
split c [] = [] ∷ []
split c (b ∷ bs) = let rest = split c bs in if b == c then [] ∷ rest else cons_head b rest

-- `to_ascii_lowercase` of one byte.
unfoldable pub lower : ℕ → ℕ
lower b = if leb b'A' b && leb b b'Z' then b + 32 else b
