-- ===== src/Launch/Workspace/Blame.antt =====
-- src/launch/workspace.rs, `resolve`: the declared source that the refusal of a pair names.
use vivarium.Prelude.{
  ◌≡◌, refl, Option, none, some, List, [], ◌∷◌, ◌++◌, Bytes, All, arith, Option-cases, Result-cases,
  inl, inr, Bool-cases, ok, err,
}
use vivarium.Launch.Mounts.{overlaps, Filesystem, MountSourceDefect}
use vivarium.Launch.Workspace.{
  first_overlap, nested_pair, last_declared, resolve_source, resolve_each, resolve, nested,
}
use vivarium.Launch.Workspace.Pairs.{IsApart}

first_overlap-append :
    (left right extra : Bytes) (more : List Bytes)
    → first_overlap left more ≡ some right
    → first_overlap left (more ++ (extra ∷ [])) ≡ some right
first_overlap-append left right extra [] h = absurd (ground arith)
first_overlap-append left right extra (p ∷ more) h = elim (Bool-cases (overlaps left p)) [
  | inl e ↦ ground (arith, e, h)
  | inr e ↦ ground (arith, e, h, first_overlap-append left right extra more)
]

first_overlap-apart :
    (left extra : Bytes) (more : List Bytes)
    → IsApart left extra
    → first_overlap left more ≡ none
    → first_overlap left (more ++ (extra ∷ [])) ≡ none
first_overlap-apart left extra [] a h = ground (arith, a)
first_overlap-apart left extra (p ∷ more) a h = elim (Bool-cases (overlaps left p)) [
  | inl e ↦ absurd (ground (arith, e, h))
  | inr e ↦ ground (arith, e, h, first_overlap-apart left extra more a)
]

nested_pair-append :
    (extra : Bytes) (paths : List Bytes) (pair : Bytes × Bytes)
    → All (λ p. IsApart p extra) paths
    → nested_pair paths ≡ some pair
    → nested_pair (paths ++ (extra ∷ [])) ≡ some pair
unfolding nested_pair
nested_pair-append extra [] pair a h = absurd (ground arith)
nested_pair-append extra (left ∷ more) pair a h = elim (Option-cases (first_overlap left more)) [
  | inl e ↦ ground (
    arith,
    e,
    h,
    first_overlap-apart left extra more a.0 e,
    nested_pair-append extra more pair a.1,
  )
  | inr (right, e) ↦ ground (arith, e, h, first_overlap-append left right extra more e)
]

last_declared-append :
    (declared : List Bytes) (extra : Bytes) → last_declared (declared ++ (extra ∷ [])) ≡ extra
last_declared-append [] extra = refl
last_declared-append (d ∷ []) extra = refl
last_declared-append (d ∷ e ∷ es) extra = last_declared-append (e ∷ es) extra

module _ (debug : MountSourceDefect → Bytes) (fs : Filesystem) (lookup : Bytes → Option Bytes) where
  resolve_each-append :
      (declared resolved : List Bytes) (extra path : Bytes)
      → resolve_each debug fs lookup declared ≡ ok resolved
      → resolve_source debug fs lookup extra ≡ ok path
      → resolve_each debug fs lookup (declared ++ (extra ∷ [])) ≡ ok (resolved ++ (path ∷ []))
  unfolding resolve_each
  resolve_each-append [] resolved extra path h k = ground (arith, h, k)
  resolve_each-append (source ∷ more) resolved extra path h k =
      elim (Result-cases (resolve_source debug fs lookup source)) [
        | inr (why, e) ↦ absurd (ground (arith, e, h))
        | inl (first, e) ↦ elim (Result-cases (resolve_each debug fs lookup more)) [
          | inr (why, f) ↦ absurd (ground (arith, e, f, h))
          | inl (paths, f) ↦ ground (arith, e, f, h, resolve_each-append more paths extra path f k)
        ]
      ]

  -- Where two of the declared sources overlap and one more, apart from all of them, is declared
  -- last, the refusal carries the overlapping pair and names the last one.
  pub resolve-blames_last :
      (declared resolved : List Bytes) (extra path left right : Bytes)
      → resolve_each debug fs lookup declared ≡ ok resolved
      → resolve_source debug fs lookup extra ≡ ok path
      → nested_pair resolved ≡ some (left, right)
      → All (λ p. IsApart p path) resolved
      → resolve debug fs lookup (declared ++ (extra ∷ []))
        ≡ err (record { declared = extra; kind = nested left right })
  unfolding resolve
  resolve-blames_last declared resolved extra path left right h k f a = ground (
    arith,
    resolve_each-append declared resolved extra path h k,
    nested_pair-append path resolved (left, right) a f,
    last_declared-append declared extra,
  )
