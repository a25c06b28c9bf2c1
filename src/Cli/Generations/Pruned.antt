-- ===== src/Cli/Generations/Pruned.antt =====
-- src/cli/generations.rs, `prune`: the profile behind it.
use vivarium.Prelude.{
  ℕ, ◌≡◌, refl, sym, ap, ◌∙◌, ◌⊎◌, inl, inr, Bool, true, false, Option, none, some, List, [], ◌∷◌,
  ◌==◌, Bytes, find-eq-none, any, All, All-filter, All-filter-test, arith, Result-cases,
  Option-cases, Bool-cases, bytes_eq_refl,
}
use vivarium.Config.Files.{lookup}
use vivarium.Config.Generations.{Profile, Generation, Disk, Removal, list, is_number}
use vivarium.Cli.Generations.{
  is_candidate, select, boots, in_use, unlink_all, prune_selected, prune,
}
use vivarium.Cli.Generations.Selected.{
  IsRow, has_number, list-IsRow, select-All, unlink_all-other, unlink_all-current,
}

-- What a generation is kept for: `current` names it, or the running machine booted from it.
abbrev pub IsPinned : (running : Bool) (booted : Option Bytes) → Profile → ℕ → Type 0
IsPinned running booted p k =
    (is_number p.current k ≡ true)
    ⊎ ((running ≡ true)
        × ((target : Bytes) × (booted ≡ some target) × (lookup k p.links ≡ some target)))

select-IsCandidate :
    (rows : List Generation) (keep older : Option ℕ) (now : ℕ)
    → All (λ row. is_candidate row ≡ true) (select rows keep older now)
unfolding select
select-IsCandidate rows (some keep) none now = All-filter _ _ _ (All-filter-test is_candidate rows)
select-IsCandidate rows none (some age) now = All-filter _ _ _ (All-filter-test is_candidate rows)
select-IsCandidate rows none none now = tt
select-IsCandidate rows (some keep) (some age) now = tt

is_number-apart :
    (current : Option ℕ) (k n : ℕ)
    → is_number current k ≡ true
    → is_number current n ≡ false
    → (k == n) ≡ false
is_number-apart none k n h i = cc
is_number-apart (some c) k n h i = ground arith

current-unselected :
    (p : Profile) (k : ℕ) (rows : List Generation)
    → is_number p.current k ≡ true
    → All (IsRow p) rows
    → All (λ row. is_candidate row ≡ true) rows
    → any (has_number k) rows ≡ false
current-unselected p k [] h r c = refl
current-unselected p k (row ∷ rows) h r c = ground (
  arith,
  current-unselected p k rows h r.1 c.1,
  is_number-apart p.current k row.number h (sym r.0.pointed ∙ ground (arith, c)),
)

boots-apart :
    (p : Profile) (k : ℕ) (target : Bytes) (row : Generation)
    → lookup k p.links ≡ some target
    → IsRow p row
    → boots target row ≡ false
    → (k == row.number) ≡ false
boots-apart p k target row h r b = elim (Bool-cases (k == row.number)) [
  | inr e ↦ e
  | inl e ↦
      let number : row.number ≡ k = ground arith in
      let same = ap (λ n. lookup n p.links) number in
      absurd (cc (rw (r.path ∙ same ∙ h, bytes_eq_refl target) at b))
]

booted-unselected :
    (p : Profile) (k : ℕ) (target : Bytes) (rows : List Generation)
    → lookup k p.links ≡ some target
    → All (IsRow p) rows
    → any (boots target) rows ≡ false
    → any (has_number k) rows ≡ false
booted-unselected p k target [] h r b = refl
booted-unselected p k target (row ∷ rows) h r b =
    ground (arith, booted-unselected p k target rows h r.1, boots-apart p k target row h r.0)

unselected :
    (running : Bool) (booted : Option Bytes) (p : Profile) (k : ℕ) (rows : List Generation)
    → IsPinned running booted p k
    → All (IsRow p) rows
    → All (λ row. is_candidate row ≡ true) rows
    → in_use running booted rows ≡ none
    → any (has_number k) rows ≡ false
unselected running booted p k rows (inl h) r c f = current-unselected p k rows h r c
unselected running booted p k rows (inr (e, (target, b, h))) r c f =
    booted-unselected p k target rows h r (find-eq-none (boots target) rows (rw (e, b) at f))

module _ (link metadata lock : ℕ → Removal) where
  pub prune_selected-links :
      (rows selected : List Generation) (p : Profile)
      → (prune_selected link metadata lock rows selected p).1
        ≡ (unlink_all link metadata lock selected p).1
  prune_selected-links rows selected p =
      elim (Result-cases (unlink_all link metadata lock selected p).0) [
        | inl (u, e) ↦ rw (prune_selected, e) refl
        | inr (why, e) ↦ rw (prune_selected, e) refl
      ]

  -- However a prune ends, `current` is as it was, and so is the link of every generation that
  -- `current` names or that the running machine booted from.
  pub prune-pinned :
      (disk : Disk) (running : Bool) (booted : Option Bytes) (now : ℕ)
      → (keep older_than_seconds : Option ℕ) (p : Profile) (k : ℕ) → IsPinned running booted p k
      → let after =
          (prune link metadata lock disk running booted now keep older_than_seconds p).1 in
        (after.current ≡ p.current) × (lookup k after.links ≡ lookup k p.links)
  unfolding prune
  prune-pinned disk running booted now keep older_than_seconds p k h =
      let rows = list disk p in
      let selected = select rows keep older_than_seconds now in
      elim (Option-cases (in_use running booted selected)) [
        | inl e ↦
            let apart =
              unselected running booted p k selected h
                (select-All (IsRow p) rows keep older_than_seconds now (list-IsRow disk p))
                (select-IsCandidate rows keep older_than_seconds now) e in
            rw (prune, e, prune_selected-links rows selected p)
              (
                unlink_all-current link metadata lock selected p,
                unlink_all-other link metadata lock k selected p apart,
              )
        | inr (generation, e) ↦ rw (prune, e) (refl, refl)
      ]
