-- ===== src/Cli/Generations/Switched.antt =====
-- src/cli/generations.rs, `activate`: the generation that a rollback steps back to.
use vivarium.Prelude.{
  ℕ, ◌≡◌, refl, sym, ap, ◌∙◌, ◌<◌, ◌≤◌, inl, inr, Bool, true, false, Option, none, some, List, [],
  ◌∷◌, ◌++◌, ◌==◌, ltb, Bytes, map, filter, find, reverse, find-eq-none, any, any-append, all,
  arith, ok, Option-cases, Result-cases, Bool-cases,
}
use vivarium.Config.Files.{holds, ascending, ascending-head}
use vivarium.Config.Generations.Numbers.{numbers-ascending}
use vivarium.Config.Generations.{
  Profile, Generation, Disk, Publication, unpublished, unflushed, published, list, numbers,
  set_current,
}
use vivarium.Cli.Generations.{retained, rollback_target, target_of, activate}

abbrev under : ℕ → ℕ → Bool
under current n = ltb n current

all-holds : (n k : ℕ) (ms : List ℕ) → all (ltb n) ms ≡ true → holds k ms ≡ true → n < k
all-holds n k [] h i = absurd (cc i)
all-holds n k (m ∷ ms) h i = ground (arith, all-holds n k ms)

cons-ascending :
    (n : ℕ) (ms : List ℕ) → all (ltb n) ms ≡ true → ascending ms ≡ true → ascending (n ∷ ms) ≡ true
cons-ascending n [] h i = refl
cons-ascending n (m ∷ ms) h i = ground arith

find-append : (p : ℕ → Bool) (xs ys : List ℕ) → find p xs ≡ none → find p (xs ++ ys) ≡ find p ys
find-append p [] ys h = refl
find-append p (x ∷ xs) ys h = ground (arith, find-append p xs ys)

find-append_some :
    (p : ℕ → Bool) (xs ys : List ℕ) (t : ℕ) → find p xs ≡ some t → find p (xs ++ ys) ≡ some t
find-append_some p [] ys t h = absurd (cc h)
find-append_some p (x ∷ xs) ys t h = ground (arith, find-append_some p xs ys t)

holds-find :
    (p : ℕ → Bool) (xs : List ℕ) (t : ℕ) → find p xs ≡ some t → (p t ≡ true) × (holds t xs ≡ true)
holds-find p [] t h = absurd (cc h)
holds-find p (x ∷ xs) t h = ground (arith, holds-find p xs t)

any-reverse : (p : ℕ → Bool) (xs : List ℕ) → any p (reverse xs) ≡ any p xs
any-reverse p [] = refl
any-reverse p (x ∷ xs) = ground (arith, any-reverse p xs, any-append p (reverse xs) (x ∷ []))

holds-any : (p : ℕ → Bool) (k : ℕ) (xs : List ℕ) → holds k xs ≡ true → p k ≡ true → any p xs ≡ true
holds-any p k [] h i = absurd (cc h)
holds-any p k (x ∷ xs) h i = elim (Bool-cases (k == x)) [
  | inl e ↦ let same : k ≡ x = ground arith in ground (arith, rw same at i)
  | inr e ↦ ground (arith, holds-any p k xs)
]

-- The last number under another is the greatest that is.
find-greatest :
    (c t : ℕ) (xs : List ℕ)
    → ascending xs ≡ true
    → find (under c) (reverse xs) ≡ some t
    → (k : ℕ) → holds k xs ≡ true
    → k < c
    → k ≤ t
find-greatest c t [] a h k i l = absurd (cc h)
find-greatest c t (x ∷ xs) a h k i l =
    let (over, rest) = ascending-head x xs a in
    elim (Option-cases (find (under c) (reverse xs))) [
      | inl e ↦
          let empty : any (under c) xs ≡ false =
            sym (any-reverse (under c) xs) ∙ find-eq-none (under c) (reverse xs) e in
          let here = sym (find-append (under c) (reverse xs) (x ∷ []) e) ∙ h in
          ground (arith, here, empty, holds-any (under c) k xs)
      | inr (s, e) ↦
          let same = sym (find-append_some (under c) (reverse xs) (x ∷ []) s e) ∙ h in
          let held = (holds-find (under c) (reverse xs) s e).1 in
          let inside : holds s xs ≡ true = sym (any-reverse (◌==◌ s) xs) ∙ held in
          ground (arith, same, find-greatest c s xs rest e k, all-holds x s xs over inside)
    ]

module _ (row_of : ℕ → Generation) (number : (n : ℕ) → (row_of n).number ≡ n) where
  module _ (test : Generation → Bool) where
    passing : List ℕ → List ℕ
    passing ns = map (λ row. row.number) (filter test (map row_of ns))

    passing-all : (n : ℕ) (ns : List ℕ) → all (ltb n) ns ≡ true → all (ltb n) (passing ns) ≡ true
    unfolding passing
    passing-all n [] h = refl
    passing-all n (m ∷ ms) h = elim (Bool-cases (test (row_of m))) [
      | inl e ↦ rw e (ground (arith, number m, passing-all n ms))
      | inr e ↦ rw e (ground (arith, passing-all n ms))
    ]

    passing-ascending : (ns : List ℕ) → ascending ns ≡ true → ascending (passing ns) ≡ true
    unfolding passing
    passing-ascending [] h = refl
    passing-ascending (m ∷ ms) h =
        let (over, rest) = ascending-head m ms h in
        elim (Bool-cases (test (row_of m))) [
          | inl e ↦ rw e (
              cons-ascending (row_of m).number (passing ms) (rw (number m) (passing-all m ms over))
                (passing-ascending ms rest))
          | inr e ↦ rw e (passing-ascending ms rest)
        ]

retained-ascending :
    (exists : Bytes → Bool) (disk : Disk) (p : Profile) → ascending (retained exists disk p) ≡ true
unfolding retained list passing
retained-ascending exists disk p =
    passing-ascending _ (λ n. refl) _ (numbers p) (numbers-ascending p)

-- What an older generation to step back to is.
pub record IsPrevious (retained : List ℕ) (current target : ℕ) : Type 0 where
  pub older : target < current
  pub kept : holds target retained ≡ true
  pub greatest : (k : ℕ) → holds k retained ≡ true → k < current → k ≤ target

set_current-ok :
    (outcome : Publication) (p : Profile) (n : ℕ) {u : Unit}
    → (set_current outcome p n).0 ≡ ok u
    → (set_current outcome p n).1 ≡ record p { current = some n }
unfolding set_current
set_current-ok unpublished p n h = absurd (cc h)
set_current-ok unflushed p n h = absurd (cc h)
set_current-ok published p n h = refl

-- A switch that succeeds moved `current`, and nothing else, to its target.
activate-ok :
    (exists : Bytes → Bool) (disk : Disk) (number : Option ℕ) (p : Profile)
    → {target : ℕ} {previous : Option ℕ} → (activate exists disk number p).0 ≡ ok (target, previous)
    → ((activate exists disk number p).1 ≡ record p { current = some target })
      × (previous ≡ p.current)
      × (target_of (retained exists disk p) number p.current ≡ some target)
unfolding activate
activate-ok exists disk number p {target = target} {previous = previous} h =
    elim (Option-cases (target_of (retained exists disk p) number p.current)) [
      | inl e ↦ absurd (cc (rw (activate, e) at h))
      | inr (t, e) ↦ elim (Result-cases (set_current disk.pointer p t).0) [
        | inr (why, f) ↦ absurd (cc (rw (activate, e, f) at h))
        | inl (u, f) ↦
            let answer = rw (activate, e, f) at h in
            let same : (t ≡ target) × (p.current ≡ previous) = ground (arith, answer) in
            let moved = set_current-ok disk.pointer p t f in
            rw (activate, e, f)
              (moved ∙ ap (λ n. record p { current = some n }) same.0, sym same.1, ap some same.0)
      ]
    ]

rollback_target-IsPrevious :
    (xs : List ℕ) (previous : Option ℕ) (t : ℕ)
    → ascending xs ≡ true
    → rollback_target xs previous ≡ some t
    → (current : ℕ) × (previous ≡ some current) × IsPrevious xs current t
rollback_target-IsPrevious xs none t a h = absurd (cc h)
rollback_target-IsPrevious xs (some c) t a h =
    let (passes, inside) = holds-find (under c) (reverse xs) t h in
    (
      c,
      refl,
      record {
        older = ground arith;
        kept = sym (any-reverse (◌==◌ t) xs) ∙ inside;
        greatest = find-greatest c t xs a h;
      },
    )

-- A rollback that succeeds moves `current`, and nothing else, to the greatest of the retained
-- generations that are older than the one that was current.
pub rollback-ok :
    (exists : Bytes → Bool) (disk : Disk) (p : Profile) {target : ℕ} {previous : Option ℕ}
    → (activate exists disk none p).0 ≡ ok (target, previous)
    → ((activate exists disk none p).1 ≡ record p { current = some target })
      × (previous ≡ p.current)
      × ((current : ℕ) × (p.current ≡ some current)
          × IsPrevious (retained exists disk p) current target)
rollback-ok exists disk p h =
    let (after, same, found) = activate-ok exists disk none p h in
    (
      after,
      same,
      rollback_target-IsPrevious (retained exists disk p) p.current _
          (retained-ascending exists disk p) found,
    )
