-- ===== src/Config/Generations/Numbers.antt =====
-- src/config/generations.rs: the numbers of a profile.
use vivarium.Prelude.{
  ℕ, ◌+◌, ◌^◌, ◌≤◌, ◌<◌, ◌≡◌, refl, true, false, ◌||◌, none, some, List, [], ◌∷◌, arith, Bool-cases,
  Option-cases, inl, inr,
}
use vivarium.Config.Files.{
  lookup, keys, holds, insert_all, last, ascending, holds-keys, holds-insert_all,
  ascending-insert_all, holds-le-last,
}
use vivarium.Config.Generations.{Profile, numbers, next_number}

pub numbers-ascending : (p : Profile) → ascending (numbers p) ≡ true
unfolding numbers
numbers-ascending p =
    ascending-insert_all (keys p.records) (insert_all (keys p.links) [])
      (ascending-insert_all (keys p.links) [] refl)

pub holds-numbers :
    (k : ℕ) (p : Profile)
    → holds k (numbers p) ≡ (holds k (keys p.records) || holds k (keys p.links))
unfolding numbers
holds-numbers k p = ground (
  arith,
  holds-insert_all k (keys p.records) (insert_all (keys p.links) []),
  holds-insert_all k (keys p.links) [],
)

last-none : (k : ℕ) (set : List ℕ) → last set ≡ none → holds k set ≡ false
unfolding last
last-none k [] h = refl
last-none k (n ∷ []) h = absurd (ground arith)
last-none k (n ∷ m ∷ ms) h = absurd (ground (arith, last-none m (m ∷ ms)))

-- No number that either half of the profile knows is the largest of a `u64`.
abbrev pub IsNumbered : Profile → Type 0
IsNumbered p = (k : ℕ) → holds k (numbers p) ≡ true → k + 1 < 2 ^ 64

pub last-holds : (top : ℕ) (set : List ℕ) → last set ≡ some top → holds top set ≡ true
unfolding last
last-holds top [] h = absurd (cc h)
last-holds top (n ∷ []) h = ground arith
last-holds top (n ∷ m ∷ ms) h = ground (arith, last-holds top (m ∷ ms))

over-numbers :
    (p : Profile) (k : ℕ) → IsNumbered p → next_number p ≤ k → holds k (numbers p) ≡ false
unfolding next_number
over-numbers p k small h = elim (Option-cases (last (numbers p))) [
  | inl e ↦ last-none k (numbers p) e
  | inr (top, e) ↦ elim (Bool-cases (holds k (numbers p))) [
    | inr no_such ↦ no_such
    | inl known ↦
        let below = holds-le-last k top (numbers p) (numbers-ascending p) e known in
        let fits = small top (last-holds top (numbers p) e) in absurd (ground arith)
  ]
]

-- Where none is the largest, from the next number on there is neither a link nor a record.
pub next_number-free :
    (p : Profile) (k : ℕ)
    → IsNumbered p
    → next_number p ≤ k
    → (lookup k p.links ≡ none) × (lookup k p.records ≡ none)
next_number-free p k small h =
    let free = over-numbers p k small h in
    let both = holds-numbers k p in
    (holds-keys k p.links (ground arith), holds-keys k p.records (ground arith))
