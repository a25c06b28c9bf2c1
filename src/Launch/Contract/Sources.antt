-- ===== src/Launch/Contract/Sources.antt =====
-- src/launch/spec.rs, `LaunchSpec::validate`: what a validated contract serves.
use mathlib.Core.Path.{subst}
use vivarium.Prelude.{
  ◌≡◌, refl, sym, ap, ◌≢◌, if◌then◌else◌, ◌⊎◌, inl, inr, Bool, true, false, not, Option, none, some,
  List, [], ◌∷◌, Bytes, codes, bytes_eq_sound, any, map, All, All-drop, arith, Option-cases,
  is_some, ok, >>-eq-ok,
}
use vivarium.Net.Address.{Addresses}
use vivarium.Launch.Spec.{MountPlanKind, MountPlan, ShareSpec, LaunchSpec}
use vivarium.Launch.Mounts.{
  Answer, FileKind, found, not_found, failed, regular, directory, special, file_name, encode_entry,
}
use vivarium.Launch.Workspace.{guest_owned_collision, nested_pair}
use vivarium.Launch.Workspace.Pairs.{Pairwise, nested_pair→Pairwise}
use vivarium.Launch.Checks.{reject_session_source}
use vivarium.Launch.Checks.Facts.{Passes, all_ok-All}
use vivarium.Launch.Contract.{HostDisk, refuse_if}
use vivarium.Launch.Contract.Shares.{
  is_tree, is_staged, source_check, entry_check, file_entry_check, tree_check, entry_eq,
  encoded_name, kind_is_file, is_override, share_checks, shares_ok,
}
use vivarium.Launch.Workspace.Unowned.{
  IsSeparate, IsUnowned, any-IsSeparate, guest_owned_collision-IsUnowned, Pairwise-IsSeparate,
}
use vivarium.Launch.Contract.Held.{IsFree, any-IsFree}
use vivarium.Launch.Contract.Trees.{trees, trees-workspace_shares}
use vivarium.Launch.Contract.Distinct.{refuse_if-false}
use vivarium.Launch.Contract.Validate.{workspace_shares, row_checks, validate}

-- The entry that a plan of one file carries is the encoding of the name of the source.
abbrev pub IsNamed : Bytes → MountPlan → Type 0
IsNamed source plan =
    (name : Bytes) × (file_name source ≡ some name) × (plan.entry ≡ some (encode_entry name))

abbrev pub IsPlanned : Bytes → Option MountPlan → Type 0
IsPlanned source none = Unit
IsPlanned source (some plan) =
    ((plan.kind ≡ MountPlanKind.file) × IsNamed source plan)
    ⊎ ((plan.kind ≢ MountPlanKind.file) × (plan.entry ≡ none))

-- The kind that a source has on disk, by its plan.
abbrev pub served_kind : Option MountPlan → FileKind
served_kind none = directory
served_kind (some plan) = elim plan.kind [
  | MountPlanKind.file ↦ regular
  | MountPlanKind.dir ↦ directory
  | MountPlanKind.tree ↦ directory
]

-- A plan of a tree is a workspace.
abbrev pub IsPlaced : Bytes → Option MountPlan → Type 0
IsPlaced source none = Unit
IsPlaced source (some plan) = elim plan.kind [
  | MountPlanKind.file ↦ Unit
  | MountPlanKind.dir ↦ Unit
  | MountPlanKind.tree ↦ IsUnowned source
]

-- What holds of a share, in a runtime directory.
pub record IsHeld (disk : HostDisk) (root : Bytes) (share : ShareSpec) : Type 0 where
  pub apart : All (IsSeparate share.source) (codes "/tmp" ∷ codes "/var/tmp" ∷ root ∷ [])
  pub kind : disk.metadata share.source ≡ found (served_kind share.mount_plan)
  pub planned : IsPlanned share.source share.mount_plan
  pub placed : IsPlaced share.source share.mount_plan
  pub kept : All IsFree share.extra_args

refuse_if-not :
    (passed : Bool) (message : Bytes) → Passes (refuse_if (not passed) message) → passed ≡ true
refuse_if-not true message h = refl
refuse_if-not false message h = cc

source-kind :
    (staged : Bool) (answer : Answer FileKind)
    → Passes (source_check staged answer)
    → ((staged ≡ true) × (answer ≡ found regular)) ⊎ ((staged ≡ false) × (answer ≡ found directory))
source-kind true (found regular) h = inl (refl, refl)
source-kind true (found directory) h = cc
source-kind true (found special) h = cc
source-kind true not_found h = cc
source-kind true failed h = cc
source-kind false (found directory) h = inr (refl, refl)
source-kind false (found regular) h = cc
source-kind false (found special) h = cc
source-kind false not_found h = cc
source-kind false failed h = cc

-- The two spellings of a file's name, where they are equal.
same-names :
    (spelled entry : Option Bytes)
    → entry_eq (encoded_name spelled) entry ≡ true
    → entry ≢ none
    → (name : Bytes) × (spelled ≡ some name) × (entry ≡ some (encode_entry name))
same-names none none h k = absurd (k refl)
same-names none (some entry) h k = absurd (ground (arith, h))
same-names (some name) none h k = absurd (k refl)
same-names (some name) (some entry) h k =
    (name, refl, ap some (sym (bytes_eq_sound (encode_entry name) entry h)))

file-IsNamed :
    (source : Bytes) (entry : Option Bytes)
    → Passes (file_entry_check entry source)
    → (name : Bytes) × (file_name source ≡ some name) × (entry ≡ some (encode_entry name))
file-IsNamed source none h = absurd (cc h)
file-IsNamed source (some entry) h =
    same-names (file_name source) (some entry)
      (refuse_if-not (entry_eq (encoded_name (file_name source)) (some entry)) _ (>>-eq-ok _ _ h).1)
      (λ e. cc e)

no_entry :
    (entry : Option Bytes) (message : Bytes)
    → Passes (refuse_if (is_some entry) message)
    → entry ≡ none
no_entry none message h = refl
no_entry (some entry) message h = cc

kind-IsPlanned :
    (source : Bytes) (kind : MountPlanKind) (entry : Option Bytes) (message : Bytes)
    → Passes (
        if kind_is_file kind
        then file_entry_check entry source
        else refuse_if (is_some entry) message)
    → ((kind ≡ MountPlanKind.file)
        × ((name : Bytes) × (file_name source ≡ some name) × (entry ≡ some (encode_entry name))))
      ⊎ ((kind ≢ MountPlanKind.file) × (entry ≡ none))
kind-IsPlanned source MountPlanKind.file entry message h = inl (refl, file-IsNamed source entry h)
kind-IsPlanned source MountPlanKind.dir entry message h =
    inr ((λ e. cc e), no_entry entry message h)
kind-IsPlanned source MountPlanKind.tree entry message h =
    inr ((λ e. cc e), no_entry entry message h)

plan-IsPlanned :
    (source : Bytes) (plan : Option MountPlan)
    → Passes (entry_check plan source)
    → IsPlanned source plan
plan-IsPlanned source none h = tt
plan-IsPlanned source (some plan) h = kind-IsPlanned source plan.kind plan.entry _ h

tree-unowned :
    (source : Bytes) (plan : Option MountPlan)
    → Passes (tree_check plan source)
    → is_tree plan ≡ true
    → guest_owned_collision source ≡ none
tree-unowned source plan h e = elim (Option-cases (guest_owned_collision source)) [
  | inl f ↦ f
  | inr (reason, f) ↦ absurd (ground (arith, e, f, h))
]

kind-IsPlaced :
    (source : Bytes) (plan : MountPlan) (kind : MountPlanKind)
    → plan.kind ≡ kind
    → (is_tree (some plan) ≡ true → guest_owned_collision source ≡ none)
    → IsPlaced source (some plan)
kind-IsPlaced source plan MountPlanKind.file e h = rw e tt
kind-IsPlaced source plan MountPlanKind.dir e h = rw e tt
kind-IsPlaced source plan MountPlanKind.tree e h =
    rw e (guest_owned_collision-IsUnowned source (h (rw e refl)))

plan-IsPlaced :
    (source : Bytes) (plan : Option MountPlan)
    → Passes (tree_check plan source)
    → IsPlaced source plan
plan-IsPlaced source none h = tt
plan-IsPlaced source (some plan) h =
    kind-IsPlaced source plan plan.kind refl (tree-unowned source (some plan) h)

kind-served :
    (kind : MountPlanKind) (answer : Answer FileKind)
    → ((kind_is_file kind ≡ true) × (answer ≡ found regular))
      ⊎ ((kind_is_file kind ≡ false) × (answer ≡ found directory))
    → answer
      ≡ found (elim kind [
        | MountPlanKind.file ↦ regular
        | MountPlanKind.dir ↦ directory
        | MountPlanKind.tree ↦ directory
      ])
kind-served MountPlanKind.file answer (inl (staged, e)) = e
kind-served MountPlanKind.file answer (inr (staged, e)) = absurd (cc staged)
kind-served MountPlanKind.dir answer (inl (staged, e)) = absurd (cc staged)
kind-served MountPlanKind.dir answer (inr (staged, e)) = e
kind-served MountPlanKind.tree answer (inl (staged, e)) = absurd (cc staged)
kind-served MountPlanKind.tree answer (inr (staged, e)) = e

plan-kind :
    (plan : Option MountPlan) (answer : Answer FileKind)
    → ((is_staged plan ≡ true) × (answer ≡ found regular))
      ⊎ ((is_staged plan ≡ false) × (answer ≡ found directory))
    → answer ≡ found (served_kind plan)
plan-kind none answer (inl (staged, e)) = absurd (cc staged)
plan-kind none answer (inr (staged, e)) = e
plan-kind (some plan) answer h = kind-served plan.kind answer h

module _ (disk : HostDisk) (root : Bytes) where
  share-IsHeld :
      (tags sockets : List Bytes) (share : ShareSpec)
      → All Passes (share_checks disk root tags sockets share)
      → IsHeld disk root share
  unfolding share_checks reject_session_source
  share-IsHeld tags sockets share h =
      let late = All-drop Passes 7 (share_checks disk root tags sockets share) h in
      record {
        apart =
            any-IsSeparate share.source (codes "/tmp" ∷ codes "/var/tmp" ∷ root ∷ [])
              (refuse_if-false _ _ late.0);
        placed = plan-IsPlaced share.source share.mount_plan late.1.0;
        kind =
            plan-kind share.mount_plan (disk.metadata share.source)
              (source-kind (is_staged share.mount_plan) (disk.metadata share.source) late.1.1.0);
        planned = plan-IsPlanned share.source share.mount_plan late.1.1.1.1.0;
        kept =
            any-IsFree share.extra_args
              (refuse_if-false (any is_override share.extra_args) _ late.1.1.1.1.1.1.0);
      }

  shares-IsHeld :
      (tags sockets : List Bytes) (list : List ShareSpec)
      → Passes (shares_ok disk root tags sockets list)
      → All (IsHeld disk root) list
  unfolding shares_ok
  shares-IsHeld tags sockets [] h = tt
  shares-IsHeld tags sockets (s ∷ more) h =
      let (row, after) =
        >>-eq-ok _ (shares_ok disk root (s.tag ∷ tags) (s.socket ∷ sockets) more) h in
      (
        share-IsHeld tags sockets s (all_ok-All _ row),
        shares-IsHeld (s.tag ∷ tags) (s.socket ∷ sockets) more after,
      )

no_pair :
    (pair : Option (Bytes × Bytes)) (message : Bytes)
    → Passes (refuse_if (is_some pair) message)
    → pair ≡ none
no_pair none message h = refl
no_pair (some pair) message h = cc

-- The source of every share of a validated contract is not in a session directory or around one,
-- and is a file or a directory as its plan says; a plan of a file carries the encoding of the
-- source's own name and no other plan has an entry; a workspace is absolute, not the root of the
-- filesystem, and not in a path of the guest or around one; no free argument is a flag of the
-- policy, alone or with a value behind an equals sign; and no two workspaces contain one another.
-- One path is in another where its components go on from the other's.
pub validate-IsHeld :
    (lib : Addresses) (disk : HostDisk) (spec : LaunchSpec)
    → validate lib disk spec ≡ ok tt
    → All (IsHeld disk spec.runtime_paths.root) spec.shares
      × Pairwise IsSeparate (trees spec.shares)
unfolding validate row_checks
validate-IsHeld lib disk spec h =
    let parts = all_ok-All _ h in
    let rows = all_ok-All (row_checks lib disk spec) parts.1.1.1.1.0 in
    (
      shares-IsHeld disk spec.runtime_paths.root _ _ spec.shares rows.1.1.0,
      subst (Pairwise IsSeparate) (sym (trees-workspace_shares spec.shares)) (
          Pairwise-IsSeparate (map (λ share. share.source) (workspace_shares spec.shares))
            (nested_pair→Pairwise _ (no_pair (nested_pair _) _ rows.1.1.1.0))),
    )
