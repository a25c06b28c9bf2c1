-- ===== src/Launch/Workspace/Unowned.antt =====
-- src/launch/workspace.rs: paths apart from one another, and the paths that a workspace may have,
-- told of the components of paths.
use vivarium.Prelude.{
  ◌≡◌, refl, ap, ◌∙◌, ◌≢◌, true, false, none, List, [], ◌∷◌, ◌++◌, Bytes, bytes_eq_refl, any, All,
  arith, Bool-cases, inl, inr,
}
use vivarium.Launch.Mounts.{
  anchored, components, is_absolute, is_prefix, overlaps, path_starts_with,
}
use vivarium.Launch.Paths.{parent, without_last}
use vivarium.Launch.Workspace.{guest_owned_collision, guest_owned_paths, has_parent}
use vivarium.Launch.Workspace.Pairs.{Pairwise, IsApart}

-- The components of a path go on from those of another.
abbrev pub IsUnder : (outer inner : Bytes) → Type 0
IsUnder outer inner = (rest : List Bytes) × (anchored inner ≡ anchored outer ++ rest)

-- Neither path is the other, in it or around it.
abbrev pub IsSeparate : Bytes → Bytes → Type 0
IsSeparate a b = (¬ IsUnder a b) × (¬ IsUnder b a)

-- A path that a workspace may have.
pub record IsUnowned (source : Bytes) : Type 0 where
  pub absolute : is_absolute source ≡ true
  pub below_root : components source ≢ []
  pub separate : All (IsSeparate source) guest_owned_paths

is_prefix-append : (xs rest : List Bytes) → is_prefix xs (xs ++ rest) ≡ true
is_prefix-append [] rest = refl
is_prefix-append (x ∷ xs) rest = rw (bytes_eq_refl x) (is_prefix-append xs rest)

IsUnder-path_starts_with :
    (outer inner : Bytes) → IsUnder outer inner → path_starts_with inner outer ≡ true
unfolding path_starts_with
IsUnder-path_starts_with outer inner (rest, e) =
    ap (is_prefix (anchored outer)) e ∙ is_prefix-append (anchored outer) rest

pub IsApart→IsSeparate : (a b : Bytes) → IsApart a b → IsSeparate a b
IsApart→IsSeparate a b h = (
  λ under. let starts = IsUnder-path_starts_with a b under in absurd (ground (arith, h, starts)),
  λ under. let starts = IsUnder-path_starts_with b a under in absurd (ground (arith, h, starts)),
)

pub any-IsSeparate :
    (path : Bytes) (roots : List Bytes)
    → any (overlaps path) roots ≡ false
    → All (IsSeparate path) roots
any-IsSeparate path [] h = tt
any-IsSeparate path (root ∷ roots) h = (
  IsApart→IsSeparate path root (ground (arith, h)),
  any-IsSeparate path roots (ground (arith, h)),
)

All-IsSeparate : (a : Bytes) (bs : List Bytes) → All (IsApart a) bs → All (IsSeparate a) bs
All-IsSeparate a [] h = tt
All-IsSeparate a (b ∷ bs) h = (IsApart→IsSeparate a b h.0, All-IsSeparate a bs h.1)

pub Pairwise-IsSeparate : (paths : List Bytes) → Pairwise IsApart paths → Pairwise IsSeparate paths
Pairwise-IsSeparate [] h = tt
Pairwise-IsSeparate (a ∷ paths) h = (All-IsSeparate a paths h.0, Pairwise-IsSeparate paths h.1)

has_parent-ne : (parts : List Bytes) → has_parent (without_last parts) ≡ true → parts ≢ []
has_parent-ne [] h e = absurd (cc h)
has_parent-ne (part ∷ parts) h e = cc e

pub guest_owned_collision-IsUnowned :
    (source : Bytes) → guest_owned_collision source ≡ none → IsUnowned source
unfolding guest_owned_collision parent
guest_owned_collision-IsUnowned source h = elim (Bool-cases (is_absolute source)) [
  | inr e ↦ absurd (cc (rw (guest_owned_collision, e) at h))
  | inl e ↦ elim (Bool-cases (has_parent (parent source))) [
    | inr f ↦ absurd (cc (rw (guest_owned_collision, e, f) at h))
    | inl f ↦ elim (Bool-cases (any (overlaps source) guest_owned_paths)) [
      | inl g ↦ absurd (cc (rw (guest_owned_collision, e, f, g) at h))
      | inr g ↦ record {
        absolute = e;
        below_root = has_parent-ne (components source) f;
        separate = any-IsSeparate source guest_owned_paths g;
      }
    ]
  ]
]
