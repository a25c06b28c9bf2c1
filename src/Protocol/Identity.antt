-- ===== src/Protocol/Identity.antt =====
-- src/protocol/message.rs, `validate_boot_identity`: the shape of a boot identity.
use vivarium.Prelude.{
  ℕ, zero, suc, Bool, true, ◌&&◌, ◌||◌, not, List, [], ◌∷◌, Bytes, length, leb, ◌==◌, any, all,
  if◌then◌else◌, Result, ok, err,
}
use vivarium.Protocol.Message.{ProtocolValueError, boot_identity}

abbrev pub dashes : List ℕ
dashes = 8 ∷ 13 ∷ 18 ∷ 23 ∷ []

abbrev pub lower_hex : ℕ → Bool
lower_hex b = (leb b'0' b && leb b b'9') || (leb b'a' b && leb b b'f')

-- `enumerate`: no byte from an index on is out of place.
unfoldable pub in_place : ℕ → Bytes → Bool
in_place index [] = true
in_place index (b ∷ bs) =
    let rest = in_place (suc index) bs in
    (any (λ dash. dash == index) dashes || lower_hex b) && rest

abbrev pub at : ℕ → Bytes → ℕ
at n [] = 0
at zero (b ∷ bs) = b
at (suc n) (b ∷ bs) = at n bs

unfoldable pub validate_boot_identity : Bytes → Result ProtocolValueError (Unit {0})
unfolding in_place
validate_boot_identity value =
    if not (length value == 36)
      || not (all (λ index. at index value == b'-') dashes)
      || not (in_place 0 value)
    then err boot_identity
    else ok tt
