-- ===== src/Launch/Contract/Held.antt =====
-- src/launch/spec.rs, `LaunchSpec::validate`: what it asks of a free argument, told of the texts of
-- flags.
use vivarium.Prelude.{
  ◌≡◌, refl, ap, ◌∙◌, ◌≢◌, false, ◌||◌, some, List, [], ◌∷◌, ◌++◌, Bytes, codes, bytes_eq,
  bytes_eq_refl, any, All, arith, is_some,
}
use vivarium.Net.Text.{strip_prefix}
use vivarium.Launch.Contract.Shares.{fixed_flags, is_override}

-- An argument that is not the flag, alone or with a value behind the equals sign.
abbrev pub IsOther : (arg flag : Bytes) → Type 0
IsOther arg flag = (arg ≢ flag) × ((value : Bytes) → arg ≢ (flag ++ codes "=") ++ value)

abbrev pub IsFree : Bytes → Type 0
IsFree arg = All (IsOther arg) fixed_flags

strip_prefix-append : (p bs : Bytes) → strip_prefix p (p ++ bs) ≡ some bs
unfolding strip_prefix
strip_prefix-append [] bs = refl
strip_prefix-append (c ∷ p) bs = ground (arith, strip_prefix-append p bs)

flag-IsOther :
    (arg flag : Bytes)
    → (bytes_eq arg flag || is_some (strip_prefix (flag ++ codes "=") arg)) ≡ false
    → IsOther arg flag
flag-IsOther arg flag h = (
  λ e.
      let same = ap (λ b. bytes_eq b flag) e ∙ bytes_eq_refl flag in
      absurd (ground (arith, same, h)),
  λ value e.
      let set =
        ap (strip_prefix (flag ++ codes "=")) e ∙ strip_prefix-append (flag ++ codes "=") value in
      absurd (ground (arith, set, h)),
)

flags-IsOther :
    (arg : Bytes) (flags : List Bytes)
    → any (λ flag. bytes_eq arg flag || is_some (strip_prefix (flag ++ codes "=") arg)) flags
      ≡ false
    → All (IsOther arg) flags
flags-IsOther arg [] h = tt
flags-IsOther arg (flag ∷ flags) h =
    (flag-IsOther arg flag (ground (arith, h)), flags-IsOther arg flags (ground (arith, h)))

pub any-IsFree : (args : List Bytes) → any is_override args ≡ false → All IsFree args
any-IsFree [] h = tt
any-IsFree (arg ∷ args) h =
    (flags-IsOther arg fixed_flags (ground (arith, h)), any-IsFree args (ground (arith, h)))
