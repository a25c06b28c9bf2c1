-- ===== src/Launch/Workspace/Pairs.antt =====
-- src/launch/workspace.rs: what `nested_pair` and `canonicalize_set` make of a list.
use vivarium.Prelude.{
  ◌≡◌, refl, ◌↔◌, false, none, List, [], ◌∷◌, Bytes, All, arith, Bool-cases, Option-cases, inl, inr,
}
use vivarium.Launch.Mounts.{overlaps}
use vivarium.Launch.Workspace.{first_overlap, nested_pair}

-- Every two of a list, the earlier one first.
abbrev pub Pairwise : (Bytes → Bytes → Type 0) → List Bytes → Type 0
Pairwise R [] = Unit
Pairwise R (x ∷ xs) = All (R x) xs × Pairwise R xs

abbrev pub IsApart : Bytes → Bytes → Type 0
IsApart left right = overlaps left right ≡ false

first_overlap→All :
    (left : Bytes) (more : List Bytes) → first_overlap left more ≡ none → All (IsApart left) more
first_overlap→All left [] h = tt
first_overlap→All left (right ∷ more) h = elim (Bool-cases (overlaps left right)) [
  | inl e ↦ absurd (ground (arith, e, h))
  | inr e ↦ (e, first_overlap→All left more (ground (arith, e, h)))
]

All→first_overlap :
    (left : Bytes) (more : List Bytes) → All (IsApart left) more → first_overlap left more ≡ none
All→first_overlap left [] h = refl
All→first_overlap left (right ∷ more) h = rw (h.0) (All→first_overlap left more h.1)

pub nested_pair→Pairwise : (paths : List Bytes) → nested_pair paths ≡ none → Pairwise IsApart paths
unfolding nested_pair
nested_pair→Pairwise [] h = tt
nested_pair→Pairwise (left ∷ more) h = elim (Option-cases (first_overlap left more)) [
  | inl e ↦ (first_overlap→All left more e, nested_pair→Pairwise more (ground (arith, e, h)))
  | inr (right, e) ↦ absurd (ground (arith, e, h))
]

Pairwise→nested_pair : (paths : List Bytes) → Pairwise IsApart paths → nested_pair paths ≡ none
unfolding nested_pair
Pairwise→nested_pair [] h = refl
Pairwise→nested_pair (left ∷ more) h =
    rw (nested_pair, All→first_overlap left more h.0) (Pairwise→nested_pair more h.1)

pub nested_pair_iff : (paths : List Bytes) → (nested_pair paths ≡ none) ↔ Pairwise IsApart paths
nested_pair_iff paths = (nested_pair→Pairwise paths, Pairwise→nested_pair paths)
