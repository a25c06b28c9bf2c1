-- ===== src/Cli/Generations/Spared.antt =====
-- src/cli/generations.rs, `prune`: what a retention argument leaves.
use vivarium.Prelude.{
  ℕ, ◌≡◌, ◌≢◌, ◌⊎◌, ◌≤◌, ◌<◌, ◌+◌, refl, ap, ◌∙◌, ◌-◌, inl, inr, Bool, true, false, ◌&&◌, ◌||◌, not,
  Option, none, some, List, [], ◌∷◌, ◌==◌, ltb, Bytes, if◌then◌else◌, map, filter, any, any-filter,
  arith, ok, Result-cases, Option-cases, Bool-cases,
}
use vivarium.Config.Files.{lookup, holds, holds-keys}
use vivarium.Config.Generations.Numbers.{numbers-ascending, holds-numbers}
use vivarium.Config.Timestamps.{parse_rfc3339_utc}
use vivarium.Config.Generations.{
  Profile, Generation, GenerationRecord, Disk, Removal, list, numbers, is_number, parsed,
}
use vivarium.Cli.Generations.{
  is_candidate, newest, built_before, select, in_use, unlink_all, prune_selected, prune,
}
use vivarium.Cli.Generations.Selected.{has_number, unlink_all-other, unlink_all-ok}
use vivarium.Cli.Generations.Newest.{count_over, holds-newest}
use vivarium.Cli.Generations.Pruned.{prune_selected-links}

abbrev is_spared : Disk → Profile → (keep older_than_seconds : Option ℕ) (now : ℕ) → ℕ → Bool
is_spared disk p (some keep) none now k =
    is_number p.current k || ltb (count_over k (numbers p)) keep
is_spared disk p none (some age) now k =
    is_number p.current k || not (built_before (now - age) (parsed disk (lookup k p.records)))
is_spared disk p _ _ now k = true

-- The record of the number can be read, and so can its instant, which is longer ago than the age.
abbrev pub IsAged : Disk → Profile → (age now : ℕ) → ℕ → Type 0
IsAged disk p age now k =
    (bytes : Bytes) × (build : GenerationRecord) × (built : ℕ) × (lookup k p.records ≡ some bytes)
    × (disk.from_slice bytes ≡ some build)
    × (parse_rfc3339_utc build.built_at ≡ some built)
    × (built + age < now)

-- What a retention argument is for: the numbers that at least `keep` others are over, or those of
-- an age.
abbrev pub IsRetired : Disk → Profile → (keep older_than_seconds : Option ℕ) (now : ℕ) → ℕ → Type 0
IsRetired disk p (some keep) none now k = keep ≤ count_over k (numbers p)
IsRetired disk p none (some age) now k = IsAged disk p age now k
IsRetired disk p _ _ now k = ⊥

abbrev pub IsRemoved : Disk → Profile → (keep older_than_seconds : Option ℕ) (now : ℕ) → ℕ → Type 0
IsRemoved disk p keep older_than_seconds now k =
    (p.current ≢ some k) × IsRetired disk p keep older_than_seconds now k

aged :
    (disk : Disk) (p : Profile) (age now k : ℕ)
    → built_before (now - age) (parsed disk (lookup k p.records)) ≡ true
    → IsAged disk p age now k
aged disk p age now k h = elim (Option-cases (lookup k p.records)) [
  | inl e ↦ absurd (ground (arith, e, h))
  | inr (bytes, e) ↦ elim (Option-cases (disk.from_slice bytes)) [
    | inl f ↦ absurd (cc (rw (e, f, built_before) at h))
    | inr (build, f) ↦ elim (Option-cases (parse_rfc3339_utc build.built_at)) [
      | inl g ↦ absurd (cc (rw (e, f, built_before, g) at h))
      | inr (built, g) ↦
          let under = rw (e, f, built_before, g) at h in
          (bytes, build, built, e, f, g, ground (arith, under))
    ]
  ]
]

IsAged-built_before :
    (disk : Disk) (p : Profile) (age now k : ℕ)
    → IsAged disk p age now k
    → built_before (now - age) (parsed disk (lookup k p.records)) ≡ true
IsAged-built_before disk p age now k (bytes, build, built, e, f, g, over) =
    rw (e, f, built_before, g) (ground (arith, over))

is_number-eq : (current : Option ℕ) (k : ℕ) → is_number current k ≡ true → current ≡ some k
is_number-eq none k h = absurd (cc h)
is_number-eq (some c) k h = let same : c ≡ k = ground arith in ap some same

is_number-ne : (current : Option ℕ) (k : ℕ) → is_number current k ≡ false → current ≢ some k
is_number-ne none k h e = cc e
is_number-ne (some c) k h e = let same : c ≡ k = ground (arith, e) in ground (arith, same, h)

spared-kept :
    (disk : Disk) (p : Profile) (keep older : Option ℕ) (now k : ℕ)
    → is_spared disk p keep older now k ≡ true
    → ¬ IsRemoved disk p keep older now k
spared-kept disk p (some keep) none now k h (apart, over) =
    elim (Bool-cases (is_number p.current k)) [
      | inl e ↦ apart (is_number-eq p.current k e)
      | inr e ↦ ground (arith, e, h, over)
    ]
spared-kept disk p none (some age) now k h (apart, old) =
    elim (Bool-cases (is_number p.current k)) [
      | inl e ↦ apart (is_number-eq p.current k e)
      | inr e ↦
          let before = IsAged-built_before disk p age now k old in ground (arith, e, h, before)
    ]
spared-kept disk p none none now k h (apart, none_retired) = none_retired
spared-kept disk p (some keep) (some age) now k h (apart, none_retired) = none_retired

not_spared-IsRemoved :
    (disk : Disk) (p : Profile) (keep older : Option ℕ) (now k : ℕ)
    → is_spared disk p keep older now k ≡ false
    → IsRemoved disk p keep older now k
not_spared-IsRemoved disk p (some keep) none now k h =
    (is_number-ne p.current k (ground (arith, h)), ground (arith, h))
not_spared-IsRemoved disk p none (some age) now k h =
    (is_number-ne p.current k (ground (arith, h)), aged disk p age now k (ground (arith, h)))
not_spared-IsRemoved disk p none none now k h = absurd (cc h)
not_spared-IsRemoved disk p (some keep) (some age) now k h = absurd (cc h)

told :
    (disk : Disk) (p : Profile) (keep older : Option ℕ) (now k : ℕ) (after : Option Bytes)
    → after ≡ (if is_spared disk p keep older now k then lookup k p.links else none)
    → (IsRemoved disk p keep older now k × (after ≡ none))
      ⊎ ((¬ IsRemoved disk p keep older now k) × (after ≡ lookup k p.links))
told disk p keep older now k after h = elim (Bool-cases (is_spared disk p keep older now k)) [
  | inl e ↦ inr (spared-kept disk p keep older now k e, rw e at h)
  | inr e ↦ inl (not_spared-IsRemoved disk p keep older now k e, rw e at h)
]

module _ (row_of : ℕ → Generation) (number : (n : ℕ) → (row_of n).number ≡ n) where
  any-selected :
      (f : Generation → Bool) (k : ℕ) (ns : List ℕ)
      → any (λ row. is_candidate row && (f row && has_number k row)) (map row_of ns)
        ≡ (holds k ns && (is_candidate (row_of k) && f (row_of k)))
  any-selected f k [] = refl
  any-selected f k (n ∷ ns) = elim (Bool-cases (k == n)) [
    | inl e ↦
        let same : n ≡ k = ground arith in rw same (ground (arith, number k, any-selected f k ns))
    | inr e ↦ ground (arith, any-selected f k ns, number n)
  ]

numbers-lookup : (p : Profile) (k : ℕ) → holds k (numbers p) ≡ false → lookup k p.links ≡ none
numbers-lookup p k h = ground (arith, holds-numbers k p, holds-keys k p.links)

abbrev row_of : Disk → Profile → ℕ → Generation
row_of disk p n = record {
  number = n;
  store_path = lookup n p.links;
  record_of = parsed disk (lookup n p.records);
  current = is_number p.current n;
}

filtered-any :
    (disk : Disk) (p : Profile) (f : Generation → Bool) (k : ℕ)
    → any (has_number k) (filter f (filter is_candidate (list disk p)))
      ≡ (holds k (numbers p) && (is_candidate (row_of disk p k) && f (row_of disk p k)))
unfolding list
filtered-any disk p f k =
    any-filter (has_number k) f (filter is_candidate (list disk p))
    ∙ any-filter (λ row. f row && has_number k row) is_candidate (list disk p)
    ∙ any-selected (row_of disk p) (λ n. refl) f k (numbers p)

listed-newest :
    (disk : Disk) (p : Profile) (k keep : ℕ)
    → holds k (numbers p) ≡ true
    → holds k (newest keep (list disk p)) ≡ ltb (count_over k (numbers p)) keep
unfolding list
listed-newest disk p k keep =
    holds-newest (row_of disk p) (λ n. refl) k keep (numbers p) (numbers-ascending p)

-- Whether some selected row has the number.
select-any :
    (disk : Disk) (p : Profile) (keep older : Option ℕ) (now k : ℕ)
    → any (has_number k) (select (list disk p) keep older now)
      ≡ (holds k (numbers p) && not (is_spared disk p keep older now k))
unfolding select
select-any disk p (some keep) none now k =
    filtered-any disk p (λ row. not (holds row.number (newest keep (list disk p)))) k
    ∙ ground (arith, listed-newest disk p k keep)
select-any disk p none (some age) now k =
    filtered-any disk p (λ row. built_before (now - age) row.record_of) k ∙ ground arith
select-any disk p none none now k = ground arith
select-any disk p (some keep) (some age) now k = ground arith

module _ (link metadata lock : ℕ → Removal) where
  prune_selected-ok :
      (rows selected : List Generation) (p : Profile) {result : List Generation × ℕ}
      → (prune_selected link metadata lock rows selected p).0 ≡ ok result
      → (unlink_all link metadata lock selected p).0 ≡ ok tt
  prune_selected-ok rows selected p h =
      elim (Result-cases (unlink_all link metadata lock selected p).0) [
        | inl (tt, e) ↦ e
        | inr (why, e) ↦ absurd (cc (rw (prune_selected, e) at h))
      ]

  unlinked-selected :
      (selected : List Generation) (p : Profile) (k : ℕ) (spared : Bool)
      → any (has_number k) selected ≡ (holds k (numbers p) && not spared)
      → (unlink_all link metadata lock selected p).0 ≡ ok tt
      → lookup k (unlink_all link metadata lock selected p).1.links
        ≡ (if spared then lookup k p.links else none)
  unlinked-selected selected p k spared chosen done =
      elim (Bool-cases (any (has_number k) selected)) [
        | inl e ↦ unlink_all-ok link metadata lock k selected p done e ∙ ground (arith, chosen, e)
        | inr e ↦
            unlink_all-other link metadata lock k selected p e
            ∙ ground (arith, chosen, e, numbers-lookup p k)
      ]

  -- Behind a prune that succeeds a number has no link, if the retention argument retires it and
  -- `current` does not name it, and the link that it had otherwise. `keep` retires a number that
  -- at least so many numbers of the profile are over; an age retires one whose record can be read,
  -- with an instant that can be read and is longer ago than the age. Without exactly one argument
  -- nothing is retired.
  pub prune-ok :
      (disk : Disk) (running : Bool) (booted : Option Bytes) (now : ℕ)
      → (keep older_than_seconds : Option ℕ) (p : Profile) (k : ℕ) → {result : List Generation × ℕ}
      → let run = prune link metadata lock disk running booted now keep older_than_seconds p in
        run.0 ≡ ok result
        → (IsRemoved disk p keep older_than_seconds now k × (lookup k run.1.links ≡ none))
          ⊎ ((¬ IsRemoved disk p keep older_than_seconds now k)
              × (lookup k run.1.links ≡ lookup k p.links))
  unfolding prune
  prune-ok disk running booted now keep older_than_seconds p k h =
      let rows = list disk p in
      let selected = select rows keep older_than_seconds now in
      elim (Option-cases (in_use running booted selected)) [
        | inr (generation, e) ↦ absurd (cc (rw (prune, e) at h))
        | inl e ↦
            rw (prune, e, prune_selected-links link metadata lock rows selected p)
              (told disk p keep older_than_seconds now k _ (
                unlinked-selected selected p k (is_spared disk p keep older_than_seconds now k)
                  (select-any disk p keep older_than_seconds now k)
                  (prune_selected-ok rows selected p (rw (prune, e) at h))))
      ]
