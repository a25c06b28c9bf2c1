-- ===== src/Cli/Generations.antt =====
-- src/cli/generations.rs: the verbs that change the retained builds. The manifest, the runtime
-- directory, the lock of the target and the clock answer in front of this; what the running machine
-- booted from is a parameter.
pub mod Selected
pub mod Newest
pub mod Pruned
pub mod Spared
pub mod Switched
use vivarium.Prelude.{
  ℕ, ◌-◌, Bool, true, false, ◌&&◌, not, Option, none, some, List, [], ◌∷◌, Bytes, bytes_eq, length,
  take, filter, find, reverse, map, ltb, if◌then◌else◌, is_some, Result, ok, err,
}
use vivarium.Config.Files.{lookup, holds}
use vivarium.Config.Generations.{
  Profile, Generation, GenerationRecord, Disk, RegistryError, Removal, Publication, unlink,
  set_current, list,
}
use vivarium.Config.Timestamps.{parse_rfc3339_utc}

pub data Failure : Type 0 where
  generation_in_use : ℕ → Failure
  registry : RegistryError → Failure
  unknown_generation : Failure

abbrev pub is_candidate : Generation → Bool
is_candidate row = not row.current

-- The numbers of the newest rows: the rows arrive oldest first.
abbrev pub newest : ℕ → List Generation → List ℕ
newest keep rows = map (λ row. row.number) (take keep (reverse rows))

-- An age that cannot be read is not under the threshold.
abbrev pub built_before : ℕ → Option GenerationRecord → Bool
built_before threshold none = false
built_before threshold (some build) = elim (parse_rfc3339_utc build.built_at) [
  | none ↦ false
  | some built ↦ ltb built threshold
]

unfoldable pub select : List Generation → (keep older_than_seconds : Option ℕ) → ℕ → List Generation
select rows (some keep) none now =
    filter (λ row. not (holds row.number (newest keep rows))) (filter is_candidate rows)
select rows none (some age) now =
    filter (λ row. built_before (now - age) row.record_of) (filter is_candidate rows)
select rows none none now = []
select rows (some keep) (some age) now = []

abbrev pub boots : Bytes → Generation → Bool
boots booted row = elim row.store_path [
  | none ↦ false
  | some store_path ↦ bytes_eq store_path booted
]

-- The selected row that the running machine booted from.
abbrev pub in_use : (running : Bool) (booted : Option Bytes) → List Generation → Option Generation
in_use false booted selected = none
in_use true none selected = none
in_use true (some booted) selected = find (boots booted) selected

module _ (link metadata lock : ℕ → Removal) where
  -- The loop: the first denial ends it.
  unfoldable pub unlink_all : List Generation → Profile → Result RegistryError (Unit {0}) × Profile
  unlink_all [] p = (ok tt, p)
  unlink_all (row ∷ rows) p =
      let n = row.number in
      let (done, q) = unlink (link n) (metadata n) (lock n) p n in
      let rest = unlink_all rows q in elim done [ ok u ↦ rest | err e ↦ (err e, q) ]

  -- The rows that went, and how many are left.
  abbrev pub prune_selected :
      List Generation → List Generation → Profile → Result Failure (List Generation × ℕ) × Profile
  prune_selected rows selected p =
      let (done, q) = unlink_all selected p in
      elim done [
        | ok u ↦ (ok (selected, length rows - length selected), q)
        | err e ↦ (err (registry e), q)
      ]

  unfoldable pub prune :
      Disk
      → (running : Bool) (booted : Option Bytes) (now : ℕ) → (keep older_than_seconds : Option ℕ)
      → Profile
      → Result Failure (List Generation × ℕ) × Profile
  unfolding select list unlink_all
  prune disk running booted now keep older_than_seconds p =
      let rows = list disk p in
      let selected = select rows keep older_than_seconds now in
      elim (in_use running booted selected) [
        | some generation ↦ (err (generation_in_use generation.number), p)
        | none ↦ prune_selected rows selected p
      ]

-- The generations whose link names what is still there.
unfoldable pub retained : (exists : Bytes → Bool) → Disk → Profile → List ℕ
unfolding list
retained exists disk p =
    map (λ row. row.number)
      (filter
        (λ row. elim (lookup row.number p.links) [ none ↦ false | some target ↦ exists target ])
        (list disk p))

abbrev pub rollback_target : List ℕ → Option ℕ → Option ℕ
rollback_target retained none = none
rollback_target retained (some current) = find (λ n. ltb n current) (reverse retained)

abbrev pub target_of : List ℕ → Option ℕ → Option ℕ → Option ℕ
target_of retained (some number) previous = if holds number retained then some number else none
target_of retained none previous = rollback_target retained previous

-- `activate`, and `rollback` where there is no number: the target, and what was current.
unfoldable pub activate :
    (exists : Bytes → Bool) → Disk → Option ℕ → Profile → Result Failure (ℕ × Option ℕ) × Profile
unfolding retained set_current
activate exists disk number p = elim (target_of (retained exists disk p) number p.current) [
  | none ↦ (err unknown_generation, p)
  | some target ↦
      let (done, q) = set_current disk.pointer p target in
      elim done [ ok u ↦ (ok (target, p.current), q) | err e ↦ (err (registry e), q) ]
]
