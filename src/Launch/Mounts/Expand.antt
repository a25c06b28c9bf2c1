-- ===== src/Launch/Mounts/Expand.antt =====
-- src/launch/mounts.rs, `expand_source`: the `${VAR}` references of a declared source. The loop is
-- on fuel; as much as the text is long is enough.
pub mod References
use vivarium.Prelude.{
  ℕ, zero, suc, ◌+◌, ◌≤◌, ◌<◌, ◌≡◌, refl, ◌∙◌, sym, ap, Bool, true, false, ◌&&◌, ◌||◌, not, Option,
  none, some, List, [], ◌∷◌, ◌++◌, Bytes, codes, ◌==◌, if◌then◌else◌, all, length, length-append,
  arith, Bool-cases, Option-cases, inl, inr, Result, ok, err,
}
use vivarium.Net.Text.{is_empty, starts_with, has}
use vivarium.Net.Allowlist.{is_ascii_alphanumeric}
use vivarium.Launch.Mounts.{MountSourceDefect, unset_variable}

abbrev pub cons_front : ℕ → Option (Bytes × Bytes) → Option (Bytes × Bytes)
cons_front b none = none
cons_front b (some (front, after)) = some (b ∷ front, after)

abbrev pub tail : Bytes → Bytes
tail [] = []
tail (b ∷ bs) = bs

-- `find("${")`: what is in front of it and what is behind it.
unfoldable pub find_open : Bytes → Option (Bytes × Bytes)
find_open [] = none
find_open (b ∷ bs) =
    let later = find_open bs in
    if b == b'$' && starts_with b'{' bs then some ([], tail bs) else cons_front b later

-- `find('}')`.
unfoldable pub find_close : Bytes → Option (Bytes × Bytes)
find_close [] = none
find_close (b ∷ bs) =
    let later = find_close bs in if b == b'}' then some ([], bs) else cons_front b later

abbrev pub is_variable : Bytes → Bool
is_variable variable =
    not (is_empty variable) && all (λ byte. is_ascii_alphanumeric byte || byte == b'_') variable

-- One turn of the loop: it ends, or pushes a text and goes on with the rest.
pub data Turn : Type 0 where
  done : Result MountSourceDefect Bytes → Turn
  pushed : Bytes → Bytes → Turn

abbrev pub prepend : Bytes → Result MountSourceDefect Bytes → Result MountSourceDefect Bytes
prepend text (ok rest) = ok (text ++ rest)
prepend text (err e) = err e

abbrev pub push :
    Bytes → Option (Result MountSourceDefect Bytes) → Option (Result MountSourceDefect Bytes)
push text none = none
push text (some r) = some (prepend text r)

module _ (lookup : Bytes → Option Bytes) where
  unfoldable pub reference : Bytes → Bytes → Bytes → Turn
  reference front variable rest =
      if is_variable variable
      then elim (lookup variable) [
        | some value ↦ pushed (front ++ value) rest
        | none ↦ done (err (unset_variable variable))
      ]
      else pushed (front ++ (codes "${" ++ (variable ++ codes "}"))) rest

  unfoldable pub turn : Bytes → Turn
  unfolding find_open find_close reference
  turn rest = elim (find_open rest) [
    | none ↦ done (ok rest)
    | some (front, after) ↦ elim (find_close after) [
      | none ↦ done (ok rest)
      | some (variable, more) ↦ reference front variable more
    ]
  ]

  unfoldable pub expand : ℕ → Bytes → Option (Result MountSourceDefect Bytes)
  unfolding turn
  expand zero rest = none
  expand (suc n) rest = elim (turn rest) [
    | done r ↦ some r
    | pushed text more ↦ push text (expand n more)
  ]

  unfoldable pub expand_source : Bytes → Option (Result MountSourceDefect Bytes)
  unfolding expand
  expand_source declared = expand (suc (length declared)) declared

pub find_open-length :
    (bs front after : Bytes) → find_open bs ≡ some (front, after) → length after < length bs
unfolding find_open
find_open-length [] front after h = absurd (cc h)
find_open-length (b ∷ []) front after h = absurd (ground arith)
find_open-length (b ∷ c ∷ bs) front after h = elim (Option-cases (find_open (c ∷ bs))) [
  | inl e ↦ ground arith
  | inr ((f, a), e) ↦ let shorter = find_open-length (c ∷ bs) f a e in ground arith
]

pub find_close-length :
    (bs front after : Bytes) → find_close bs ≡ some (front, after) → length after < length bs
unfolding find_close
find_close-length [] front after h = absurd (cc h)
find_close-length (b ∷ bs) front after h = elim (Option-cases (find_close bs)) [
  | inl e ↦ ground arith
  | inr ((f, a), e) ↦ let shorter = find_close-length bs f a e in ground arith
]
