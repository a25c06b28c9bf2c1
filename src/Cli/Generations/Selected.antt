-- ===== src/Cli/Generations/Selected.antt =====
-- src/cli/generations.rs: the rows that a retention argument selects, and the loop over them.
use vivarium.Prelude.{
  ℕ, ◌≡◌, refl, ◌∙◌, ap, Bool, true, false, Option, none, some, List, [], ◌∷◌, ◌==◌, map, any, All,
  All-filter, arith, ok, Result-cases, Bool-cases, inl, inr,
}
use vivarium.Config.Files.{lookup, remove, lookup-remove_same, lookup-remove_other}
use vivarium.Config.Generations.{
  Profile, Generation, Disk, Removal, gone, kept, unlink, list, numbers, is_number, parsed,
}
use vivarium.Cli.Generations.{is_candidate, select, unlink_all}

-- What a listed row says of its own number.
pub record IsRow (p : Profile) (row : Generation) : Type 0 where
  pub path : row.store_path ≡ lookup row.number p.links
  pub pointed : row.current ≡ is_number p.current row.number

map-IsRow :
    (disk : Disk) (p : Profile) (ns : List ℕ)
    → All (IsRow p) (
        map
          (λ n. record {
            number = n;
            store_path = lookup n p.links;
            record_of = parsed disk (lookup n p.records);
            current = is_number p.current n;
          })
          ns)
map-IsRow disk p [] = tt
map-IsRow disk p (n ∷ ns) = (record { path = refl; pointed = refl }, map-IsRow disk p ns)

pub list-IsRow : (disk : Disk) (p : Profile) → All (IsRow p) (list disk p)
unfolding list
list-IsRow disk p = map-IsRow disk p (numbers p)

pub select-All :
    (P : Generation → Type 0) (rows : List Generation) (keep older : Option ℕ) (now : ℕ)
    → All P rows
    → All P (select rows keep older now)
unfolding select
select-All P rows (some keep) none now h = All-filter P _ _ (All-filter P is_candidate rows h)
select-All P rows none (some age) now h = All-filter P _ _ (All-filter P is_candidate rows h)
select-All P rows none none now h = tt
select-All P rows (some keep) (some age) now h = tt

module _ (p : Profile) (n : ℕ) where
  unlink-other :
      (l m c : Removal) (k : ℕ)
      → (k == n) ≡ false
      → lookup k (unlink l m c p n).1.links ≡ lookup k p.links
  unfolding unlink
  unlink-other kept m c k h = refl
  unlink-other gone kept c k h = lookup-remove_other n k p.links h
  unlink-other gone gone kept k h = lookup-remove_other n k p.links h
  unlink-other gone gone gone k h = lookup-remove_other n k p.links h

  unlink-ok :
      (l m c : Removal) {u : Unit}
      → (unlink l m c p n).0 ≡ ok u
      → (unlink l m c p n).1.links ≡ remove n p.links
  unfolding unlink
  unlink-ok kept m c e = absurd (cc e)
  unlink-ok gone kept c e = absurd (cc e)
  unlink-ok gone gone kept e = absurd (cc e)
  unlink-ok gone gone gone e = refl

  unlink-current : (l m c : Removal) → (unlink l m c p n).1.current ≡ p.current
  unfolding unlink
  unlink-current kept m c = refl
  unlink-current gone kept c = refl
  unlink-current gone gone kept = refl
  unlink-current gone gone gone = refl

abbrev pub has_number : ℕ → Generation → Bool
has_number k row = k == row.number

module _ (link metadata lock : ℕ → Removal) where
  -- The loop leaves the link of a number that none of its rows has.
  pub unlink_all-other :
      (k : ℕ) (rows : List Generation) (p : Profile)
      → any (has_number k) rows ≡ false
      → lookup k (unlink_all link metadata lock rows p).1.links ≡ lookup k p.links
  unfolding unlink_all
  unlink_all-other k [] p h = refl
  unlink_all-other k (row ∷ rows) p h =
      let n = row.number in
      let q = (unlink (link n) (metadata n) (lock n) p n).1 in
      let one = unlink-other p n (link n) (metadata n) (lock n) k (ground arith) in
      elim (Result-cases (unlink (link n) (metadata n) (lock n) p n).0) [
        | inl (u, e) ↦ rw (unlink_all, e) (unlink_all-other k rows q (ground arith) ∙ one)
        | inr (why, e) ↦ rw (unlink_all, e) one
      ]

  pub unlink_all-current :
      (rows : List Generation) (p : Profile)
      → (unlink_all link metadata lock rows p).1.current ≡ p.current
  unfolding unlink_all
  unlink_all-current [] p = refl
  unlink_all-current (row ∷ rows) p =
      let n = row.number in
      let q = (unlink (link n) (metadata n) (lock n) p n).1 in
      let one = unlink-current p n (link n) (metadata n) (lock n) in
      elim (Result-cases (unlink (link n) (metadata n) (lock n) p n).0) [
        | inl (u, e) ↦ rw (unlink_all, e) (unlink_all-current rows q ∙ one)
        | inr (why, e) ↦ rw (unlink_all, e) one
      ]

  -- A loop that ends well leaves no link of a number that one of its rows has.
  pub unlink_all-ok :
      (k : ℕ) (rows : List Generation) (p : Profile) {u : Unit}
      → (unlink_all link metadata lock rows p).0 ≡ ok u
      → any (has_number k) rows ≡ true
      → lookup k (unlink_all link metadata lock rows p).1.links ≡ none
  unfolding unlink_all
  unlink_all-ok k [] p e h = absurd (cc h)
  unlink_all-ok k (row ∷ rows) p e h =
      let n = row.number in
      let q = (unlink (link n) (metadata n) (lock n) p n).1 in
      elim (Result-cases (unlink (link n) (metadata n) (lock n) p n).0) [
        | inr (why, f) ↦ absurd (cc (rw (unlink_all, f) at e))
        | inl (v, f) ↦ elim (Bool-cases (any (has_number k) rows)) [
          | inl more ↦ rw (unlink_all, f) (unlink_all-ok k rows q (rw (unlink_all, f) at e) more)
          | inr none_left ↦
              let same = ap (lookup k) (unlink-ok p n (link n) (metadata n) (lock n) f) in
              rw (unlink_all, f)
                (unlink_all-other k rows q none_left
                  ∙ same
                  ∙ ground (arith, lookup-remove_same n p.links))
        ]
      ]
