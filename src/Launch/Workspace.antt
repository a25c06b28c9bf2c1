-- ===== src/Launch/Workspace.antt =====
-- src/launch/workspace.rs: which host paths may be workspaces, and the set a manifest declares.
pub mod Pairs
pub mod Unowned
pub mod Ordered
pub mod Resolved
pub mod Blame
use vivarium.Prelude.{
  Bool, true, false, not, ◌||◌, Option, none, some, List, [], ◌∷◌, Bytes, codes, any, map,
  if◌then◌else◌, Result, ok, err, ◌>>=◌, ◌>>◌, guard,
}
use vivarium.Launch.Mounts.{
  Filesystem, Answer, FileKind, found, not_found, failed, directory, is_absolute, overlaps,
  MountSourceDefect,
}
use vivarium.Launch.Mounts.Expand.{expand_source}
use vivarium.Launch.Paths.{path_eq, path_le, parent}

abbrev pub guest_owned_paths : List Bytes
guest_owned_paths =
    codes "/nix"
    ∷ codes "/proc"
    ∷ codes "/sys"
    ∷ codes "/dev"
    ∷ codes "/etc"
    ∷ codes "/boot"
    ∷ codes "/usr"
    ∷ codes "/bin"
    ∷ codes "/sbin"
    ∷ codes "/lib"
    ∷ codes "/lib64"
    ∷ codes "/root"
    ∷ codes "/tmp"
    ∷ codes "/var/lib"
    ∷ codes "/var/log"
    ∷ codes "/var/tmp"
    ∷ codes "/var/empty"
    ∷ codes "/run/vivarium"
    ∷ codes "/run/vivarium-mounts"
    ∷ codes "/run/user"
    ∷ codes "/run/current-system"
    ∷ codes "/run/booted-system"
    ∷ codes "/run/wrappers"
    ∷ codes "/run/systemd"
    ∷ codes "/run/udev"
    ∷ codes "/run/dbus"
    ∷ codes "/run/lock"
    ∷ codes "/run/log"
    ∷ codes "/run/keys"
    ∷ codes "/run/credentials"
    ∷ codes "/run/binfmt"
    ∷ codes "/run/nscd"
    ∷ codes "/run/opengl-driver"
    ∷ codes "/home/vivarium"
    ∷ []

abbrev pub has_parent : Option (List Bytes) → Bool
has_parent none = false
has_parent (some front) = true

-- Why a path cannot be a workspace.
pub data GuestOwned : Type 0 where
  not_absolute filesystem_root collides : GuestOwned

unfoldable pub guest_owned_collision : Bytes → Option GuestOwned
unfolding parent
guest_owned_collision path =
    if not (is_absolute path)
    then some GuestOwned.not_absolute
    else if not (has_parent (parent path))
    then some filesystem_root
    else if any (overlaps path) guest_owned_paths
    then some collides
    else none

abbrev pub first_overlap : Bytes → List Bytes → Option Bytes
first_overlap left [] = none
first_overlap left (right ∷ more) =
    let rest = first_overlap left more in if overlaps left right then some right else rest

-- The first pair one of which contains the other.
unfoldable pub nested_pair : List Bytes → Option (Bytes × Bytes)
nested_pair [] = none
nested_pair (left ∷ more) =
    let rest = nested_pair more in
    elim (first_overlap left more) [ none ↦ rest | some right ↦ some (left, right) ]

pub data WorkspaceDefectKind : Type 0 where
  unset_variable not_absolute missing unreadable not_directory : Bytes → WorkspaceDefectKind
  guest_owned : Bytes → GuestOwned → WorkspaceDefectKind
  nested : (left right : Bytes) → WorkspaceDefectKind

pub record WorkspaceDefect : Type 0 where
  pub declared : Bytes
  pub kind : WorkspaceDefectKind

-- `paths.sort(); paths.dedup()`.
abbrev pub insert_path : Bytes → List Bytes → List Bytes
insert_path p [] = p ∷ []
insert_path p (q ∷ qs) = let rest = insert_path p qs in if path_le p q then p ∷ q ∷ qs else q ∷ rest

abbrev pub sort : List Bytes → List Bytes
sort [] = []
sort (p ∷ ps) = insert_path p (sort ps)

abbrev pub dedup_from : Bytes → List Bytes → List Bytes
dedup_from p [] = p ∷ []
dedup_from p (q ∷ qs) =
    let kept = dedup_from p qs in
    let next = dedup_from q qs in if path_eq p q then kept else p ∷ next

abbrev pub dedup : List Bytes → List Bytes
dedup [] = []
dedup (p ∷ ps) = dedup_from p ps

unfoldable pub canonicalize_set : List Bytes → List Bytes
unfolding path_le path_eq
canonicalize_set paths = dedup (sort paths)

abbrev pub last_declared : List Bytes → Bytes
last_declared [] = []
last_declared (d ∷ []) = d
last_declared (d ∷ e ∷ es) = last_declared (e ∷ es)

-- `debug` is the derived `Debug` of a defect, which `expand_source` never asks for.
module _ (debug : MountSourceDefect → Bytes) (fs : Filesystem) (lookup : Bytes → Option Bytes) where
  abbrev pub expansion_defect : MountSourceDefect → WorkspaceDefectKind
  expansion_defect (MountSourceDefect.unset_variable variable) =
      WorkspaceDefectKind.unset_variable variable
  expansion_defect other = WorkspaceDefectKind.not_absolute (debug other)

  -- Nothing is the expansion out of fuel, which does not happen.
  abbrev pub expanded : Option (Result MountSourceDefect Bytes) → Result WorkspaceDefectKind Bytes
  expanded (some (ok path)) = ok path
  expanded (some (err why)) = err (expansion_defect why)
  expanded none = err (WorkspaceDefectKind.not_absolute [])

  abbrev pub inspected : Bytes → Answer FileKind → Result WorkspaceDefectKind (Unit {0})
  inspected path (found directory) = ok tt
  inspected path (found other) = err (not_directory path)
  inspected path not_found = err (WorkspaceDefectKind.missing path)
  inspected path failed = err (WorkspaceDefectKind.unreadable path)

  abbrev pub canonical : Bytes → Answer Bytes → Result WorkspaceDefectKind Bytes
  canonical path (found resolved) = ok resolved
  canonical path other = err (WorkspaceDefectKind.unreadable path)

  abbrev pub unowned : Bytes → Option GuestOwned → Result WorkspaceDefectKind (Unit {0})
  unowned path none = ok tt
  unowned path (some reason) = err (guest_owned path reason)

  -- One turn of `resolve`'s loop.
  unfoldable pub resolve_source : Bytes → Result WorkspaceDefectKind Bytes
  unfolding expand_source guest_owned_collision
  resolve_source source = do
    path ← expanded (expand_source lookup source)
    guard (is_absolute path) (WorkspaceDefectKind.not_absolute path)
    inspected path (fs.metadata path)
    resolved ← canonical path (fs.canonicalize path)
    unowned resolved (guest_owned_collision resolved)
    ok resolved

  abbrev pub blamed : {A : Type 0} → Bytes → Result WorkspaceDefectKind A → Result WorkspaceDefect A
  blamed source (ok a) = ok a
  blamed source (err why) = err (record { declared = source; kind = why })

  unfoldable pub resolve_each : List Bytes → Result WorkspaceDefect (List Bytes)
  unfolding resolve_source
  resolve_each [] = ok []
  resolve_each (source ∷ more) = do
    path ← blamed source (resolve_source source)
    paths ← resolve_each more
    ok (path ∷ paths)

  abbrev pub disjoint :
      List Bytes → List Bytes → Option (Bytes × Bytes) → Result WorkspaceDefect (List Bytes)
  disjoint declared resolved none = ok (canonicalize_set resolved)
  disjoint declared resolved (some (left, right)) =
      err (record { declared = last_declared declared; kind = nested left right })

  unfoldable pub resolve : List Bytes → Result WorkspaceDefect (List Bytes)
  unfolding resolve_each nested_pair
  resolve declared = do
    resolved ← resolve_each declared
    disjoint declared resolved (nested_pair resolved)
