-- ===== src/Config/Generations/Labels.antt =====
-- src/config/generations.rs: root links, and the records and snapshots beside them.
use vivarium.Prelude.{
  ℕ, ◌≡◌, refl, ◌≢◌, Bool, true, false, none, List, Bytes, ◌==◌, is_some, arith, Bool-cases,
  Option-cases, inl, inr, Result, ok, err, ◌⊎◌,
}
use vivarium.Config.Files.{
  lookup, put, lookup-remove_same, lookup-remove_other, lookup-put_same, lookup-put_other,
}
use vivarium.Config.Generations.Numbers.{IsNumbered, next_number-free}
use vivarium.Config.Generations.{
  GenerationRecord, Profile, Publication, unpublished, unflushed, published, Registration,
  registered, refused, Disk, RegistryError, next_number, publish, try_remove, set_current,
  returning, with_link, take_back, append_root, append_record, append_digest, append, Removal, gone,
  kept, unlink,
}

-- Every root link has its record and its lock snapshot beside it.
abbrev pub IsLabelled : Profile → Type 0
IsLabelled p =
    (k : ℕ)
    → is_some (lookup k p.links) ≡ true
    → (is_some (lookup k p.records) ≡ true) × (is_some (lookup k p.locks) ≡ true)

-- An unlinking, wherever it is denied, leaves no root link without its record and its lock
-- snapshot, if there was none before.
pub unlink-IsLabelled :
    (link metadata lock : Removal) (p : Profile) (n : ℕ)
    → IsLabelled p
    → IsLabelled (unlink link metadata lock p n).1
unfolding unlink
unlink-IsLabelled kept metadata lock p n h k i = h k i
unlink-IsLabelled gone kept lock p n h k i =
    ground (arith, h k, lookup-remove_same n p.links, lookup-remove_other n k p.links)
unlink-IsLabelled gone gone kept p n h k i = ground (
  arith,
  h k,
  lookup-remove_same n p.links,
  lookup-remove_other n k p.links,
  lookup-remove_other n k p.records,
)
unlink-IsLabelled gone gone gone p n h k i = ground (
  arith,
  h k,
  lookup-remove_same n p.links,
  lookup-remove_other n k p.links,
  lookup-remove_other n k p.records,
  lookup-remove_other n k p.locks,
)

-- Files of one number, put or removed, say nothing of another.
abbrev Apart : {A : Type 0} → ℕ → List (ℕ × A) → List (ℕ × A) → Type 0
Apart n before after = (k : ℕ) → (k == n) ≡ false → lookup k after ≡ lookup k before

abbrev Unlinked : ℕ → Profile → Type 0
Unlinked n p = lookup n p.links ≡ none

-- What does not touch the links, and nothing of the other numbers.
Unlinked-IsLabelled :
    (n : ℕ) (p q : Profile)
    → IsLabelled p
    → Unlinked n p
    → q.links ≡ p.links
    → Apart n p.records q.records
    → Apart n p.locks q.locks
    → IsLabelled q
Unlinked-IsLabelled n p q h free same records locks k i = ground (arith, h k, records k, locks k)

linked-IsLabelled :
    (n : ℕ) (target : Bytes) (p q : Profile)
    → IsLabelled p
    → is_some (lookup n p.records) ≡ true
    → is_some (lookup n p.locks) ≡ true
    → q.links ≡ put n target p.links
    → q.records ≡ p.records
    → q.locks ≡ p.locks
    → IsLabelled q
linked-IsLabelled n target p q h r l links records locks k i =
    ground (arith, h k, lookup-put_other n k target p.links)

try_remove-Apart :
    {A : Type 0} (b : Bool) (n : ℕ) (files : List (ℕ × A)) → Apart n files (try_remove b n files)
try_remove-Apart true n files k h = lookup-remove_other n k files h
try_remove-Apart false n files k h = refl

publish-Apart :
    {A : Type 0} (outcome : Publication) (n : ℕ) (a : A) (files : List (ℕ × A))
    → Apart n files (publish outcome n a files).1
publish-Apart unpublished n a files k h = refl
publish-Apart unflushed n a files k h = lookup-put_other n k a files h
publish-Apart published n a files k h = lookup-put_other n k a files h

pub Registration-cases :
    (r : Registration) → (r ≡ registered) ⊎ ((left : Bool) × (r ≡ refused left))
Registration-cases registered = inl refl
Registration-cases (refused left) = inr (left, refl)

-- The pointer alone moves.
set_current-files :
    (outcome : Publication) (p : Profile) (n : ℕ)
    → ((set_current outcome p n).1.links ≡ p.links)
      × ((set_current outcome p n).1.records ≡ p.records)
      × ((set_current outcome p n).1.locks ≡ p.locks)
unfolding set_current
set_current-files unpublished p n = (refl, refl, refl)
set_current-files unflushed p n = (refl, refl, refl)
set_current-files published p n = (refl, refl, refl)

returning-profile :
    {A : Type 0} (a : A) (x : Result RegistryError (Unit {0}) × Profile) → (returning a x).1 ≡ x.1
returning-profile a (ok u, p) = refl
returning-profile a (err e, p) = refl

module _ (disk : Disk) (clean : disk.registration ≢ refused true) where
  append_root-IsLabelled :
      (n : ℕ) (target : Bytes) (p : Profile)
      → IsLabelled p
      → Unlinked n p
      → is_some (lookup n p.records) ≡ true
      → is_some (lookup n p.locks) ≡ true
      → IsLabelled (append_root disk n target p).1
  unfolding append_root
  append_root-IsLabelled n target p h free r l = elim (Registration-cases disk.registration) [
    | inl e ↦
        let linked = with_link registered n target p in
        let (links, records, locks) = set_current-files disk.pointer linked n in
        rw (append_root, e, returning-profile n (set_current disk.pointer linked n))
          (linked-IsLabelled n target p (set_current disk.pointer linked n).1 h r l links records
            locks)
    | inr (true, e) ↦ absurd (clean e)
    | inr (false, e) ↦
        rw (append_root, e)
          (Unlinked-IsLabelled n p (take_back disk n p) h free refl
            (try_remove-Apart disk.record_removed n p.records)
            (try_remove-Apart disk.lock_removed n p.locks))
  ]

  published-known :
      {A : Type 0} (outcome : Publication) (n : ℕ) (a : A) (files : List (ℕ × A))
      → (publish outcome n a files).0 ≡ true
      → is_some (lookup n (publish outcome n a files).1) ≡ true
  published-known unpublished n a files h = absurd (cc h)
  published-known unflushed n a files h = absurd (cc h)
  published-known published n a files h = rw (lookup-put_same n a files) refl

  append_record-IsLabelled :
      (n : ℕ) (r : GenerationRecord) (p : Profile)
      → IsLabelled p
      → Unlinked n p
      → is_some (lookup n p.locks) ≡ true
      → IsLabelled (append_record disk n r p).1
  unfolding append_record
  append_record-IsLabelled n r p h free l = elim (Option-cases (disk.to_vec r)) [
    | inl e ↦ rw (append_record, e) h
    | inr (rendered, e) ↦
        let step = publish disk.record_publication n rendered p.records in
        let q : Profile = record p { records = step.1 } in
        let next =
          Unlinked-IsLabelled n p q h free refl
            (publish-Apart disk.record_publication n rendered p.records) (λ k i. refl) in
        elim (Bool-cases step.0) [
          | inl good ↦
              rw (append_record, e, good)
                (append_root-IsLabelled n r.store_path q next free
                  (published-known disk.record_publication n rendered p.records good) l)
          | inr failed ↦ rw (append_record, e, failed) next
        ]
  ]

  append_digest-IsLabelled :
      (n : ℕ) (r : GenerationRecord) (lock : Bytes) (p : Profile)
      → IsLabelled p
      → Unlinked n p
      → is_some (lookup n p.locks) ≡ true
      → IsLabelled (append_digest disk n r lock p).1
  unfolding append_digest
  append_digest-IsLabelled n r lock p h free l = elim (Option-cases (disk.digest lock)) [
    | inl e ↦
        rw (append_digest, e)
          (Unlinked-IsLabelled n p (record p { locks = try_remove disk.lock_removed n p.locks }) h
            free refl (λ k i. refl) (try_remove-Apart disk.lock_removed n p.locks))
    | inr (lock_digest, e) ↦
        rw (append_digest, e)
          (append_record-IsLabelled n (record r { lock_digest = lock_digest }) p h free l)
  ]

  -- Where no known number is the largest of a `u64`, wherever an append fails, and where it does
  -- not, every root link has its record and its lock snapshot if that was so before, as long as a
  -- registration that fails leaves no link behind.
  pub append-IsLabelled :
      (p : Profile) (r : GenerationRecord) (lock : Bytes)
      → IsNumbered p
      → IsLabelled p
      → IsLabelled (append disk p r lock).1
  unfolding append
  append-IsLabelled p r lock small h =
      let n = next_number p in
      let free = (next_number-free p n small (omega arith)).0 in
      let step = publish disk.lock_publication n lock p.locks in
      let q : Profile = record p { locks = step.1 } in
      let next =
        Unlinked-IsLabelled n p q h free refl (λ k i. refl)
          (publish-Apart disk.lock_publication n lock p.locks) in
      elim (Bool-cases disk.directories) [
        | inr none_made ↦ rw none_made h
        | inl made ↦ elim (Bool-cases step.0) [
          | inl good ↦
              rw (made, good)
                (append_digest-IsLabelled n r lock q next free
                  (published-known disk.lock_publication n lock p.locks good))
          | inr failed ↦ rw (made, failed) next
        ]
      ]
