-- ===== src/Config/Generations.antt =====
-- src/config/generations.rs: the profile of retained builds of one project target. A profile is its
-- files, each under its generation's number: the root links, the records, the lock snapshots, and
-- the number that `current` names. A path that the scan cannot read is not in the model. A number is
-- a `u64`: the one after the largest wraps to 0, as a release build does.
pub mod Numbers
pub mod Append
pub mod Labels
use vivarium.Prelude.{
  ℕ, ◌+◌, ◌%◌, ◌^◌, Bool, true, false, Option, none, some, List, [], ◌∷◌, ◌++◌, Bytes, ◌==◌,
  if◌then◌else◌, map, Result, ok, err,
}
use vivarium.Config.Files.{lookup, remove, put, keys, insert_all, last}

pub record GenerationRecord : Type 0 where
  pub store_path : Bytes
  pub lock_digest : Bytes
  pub manifest : Bytes
  pub backend : Bytes
  pub built_at : Bytes

pub record Profile : Type 0 where
  pub links : List (ℕ × Bytes)
  pub records : List (ℕ × Bytes)
  pub locks : List (ℕ × Bytes)
  pub current : Option ℕ

pub record Generation : Type 0 where
  pub number : ℕ
  pub store_path : Option Bytes
  pub record_of : Option GenerationRecord
  pub current : Bool

-- The staged rename of one file, and that of the pointer: it fails in front of the rename, or
-- behind it where the directory is flushed, or not.
pub data Publication : Type 0 where
  unpublished unflushed published : Publication

-- `register_root`: it may leave a link also where it fails.
pub data Registration : Type 0 where
  registered : Registration
  refused : (left : Bool) → Registration

-- serde_json, the digest of a lock, and what each step meets. A removal whose result is ignored may
-- fail.
pub record Disk : Type 0 where
  pub to_vec : GenerationRecord → Option Bytes
  pub from_slice : Bytes → Option GenerationRecord
  pub directories : Bool
  pub lock_publication : Publication
  pub digest : Bytes → Option Bytes
  pub record_publication : Publication
  pub registration : Registration
  pub pointer : Publication
  pub lock_removed : Bool
  pub record_removed : Bool

pub data RegistryError : Type 0 where
  directory stage digest record_render root current_pointer denied : RegistryError

-- The numbers that either half of the profile knows, ascending.
unfoldable pub numbers : Profile → List ℕ
numbers p = insert_all (keys p.records) (insert_all (keys p.links) [])

abbrev pub after_highest : Option ℕ → ℕ
after_highest none = 1
after_highest (some highest) = (highest + 1) % 2 ^ 64

unfoldable pub next_number : Profile → ℕ
unfolding numbers
next_number p = after_highest (last (numbers p))

abbrev pub is_number : Option ℕ → ℕ → Bool
is_number none n = false
is_number (some k) n = k == n

abbrev pub parsed : Disk → Option Bytes → Option GenerationRecord
parsed disk none = none
parsed disk (some bytes) = disk.from_slice bytes

unfoldable pub list : Disk → Profile → List Generation
unfolding numbers
list disk p =
    map
      (λ n. record {
        number = n;
        store_path = lookup n p.links;
        record_of = parsed disk (lookup n p.records);
        current = is_number p.current n;
      })
      (numbers p)

-- `publish` of one file: whether it worked, and the files behind it.
abbrev pub publish {ℓ} : {A : Type ℓ} → Publication → ℕ → A → List (ℕ × A) → Bool × List (ℕ × A)
publish unpublished n a files = (false, files)
publish unflushed n a files = (false, put n a files)
publish published n a files = (true, put n a files)

-- `let _ = fs::remove_file(..)`.
abbrev pub try_remove {ℓ} : {A : Type ℓ} → Bool → ℕ → List (ℕ × A) → List (ℕ × A)
try_remove true n files = remove n files
try_remove false n files = files

unfoldable pub set_current : Publication → Profile → ℕ → Result RegistryError (Unit {0}) × Profile
set_current unpublished p n = (err current_pointer, p)
set_current unflushed p n = (err current_pointer, record p { current = some n })
set_current published p n = (ok tt, record p { current = some n })

abbrev pub returning {ℓ} :
    {A : Type ℓ} → A → Result RegistryError (Unit {0}) × Profile → Result RegistryError A × Profile
returning a (ok u, p) = (ok a, p)
returning a (err e, p) = (err e, p)

abbrev pub with_link : Registration → ℕ → Bytes → Profile → Profile
with_link registered n target p = record p { links = put n target p.links }
with_link (refused true) n target p = record p { links = put n target p.links }
with_link (refused false) n target p = p

module _ (disk : Disk) where
  -- The undo of a registration that was refused.
  abbrev pub take_back : ℕ → Profile → Profile
  take_back n p = record p {
    records = try_remove disk.record_removed n p.records;
    locks = try_remove disk.lock_removed n p.locks;
  }

  -- `append` behind the publication of the record.
  unfoldable pub append_root : ℕ → Bytes → Profile → Result RegistryError ℕ × Profile
  unfolding set_current
  append_root n target p = elim disk.registration [
    | registered ↦ returning n (set_current disk.pointer (with_link registered n target p) n)
    | refused left ↦ (err root, take_back n (with_link (refused left) n target p))
  ]

  unfoldable pub append_record : ℕ → GenerationRecord → Profile → Result RegistryError ℕ × Profile
  unfolding append_root
  append_record n r p = elim (disk.to_vec r) [
    | none ↦ (err record_render, p)
    | some rendered ↦
        let (good, records) = publish disk.record_publication n rendered p.records in
        let p = record p { records = records } in
        if good then append_root n r.store_path p else (err stage, p)
  ]

  unfoldable pub append_digest :
      ℕ → GenerationRecord → Bytes → Profile → Result RegistryError ℕ × Profile
  unfolding append_record
  append_digest n r lock p = elim (disk.digest lock) [
    | none ↦ (err digest, record p { locks = try_remove disk.lock_removed n p.locks })
    | some lock_digest ↦ append_record n (record r { lock_digest = lock_digest }) p
  ]

  unfoldable pub append : Profile → GenerationRecord → Bytes → Result RegistryError ℕ × Profile
  unfolding append_digest next_number
  append p r lock =
      if disk.directories
      then (let n = next_number p in
          let (good, locks) = publish disk.lock_publication n lock p.locks in
          let p = record p { locks = locks } in
          if good then append_digest n r lock p else (err stage, p))
      else (err directory, p)

-- What the removal of one file meets: it went or was not there, or it was denied.
pub data Removal : Type 0 where
  gone kept : Removal

-- `unlink`: the root first, then the record and the lock; the first denial ends it.
unfoldable pub unlink :
    (link metadata lock : Removal) → Profile → ℕ → Result RegistryError (Unit {0}) × Profile
unlink kept metadata lock p n = (err denied, p)
unlink gone kept lock p n = (err denied, record p { links = remove n p.links })
unlink gone gone kept p n =
    (err denied, record p { links = remove n p.links; records = remove n p.records })
unlink gone gone gone p n = (
  ok tt,
  record p { links = remove n p.links; records = remove n p.records; locks = remove n p.locks },
)
