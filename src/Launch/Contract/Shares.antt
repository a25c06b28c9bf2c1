-- ===== src/Launch/Contract/Shares.antt =====
-- src/launch/spec.rs, `LaunchSpec::validate`: the shares and the volumes.
use vivarium.Prelude.{
  Bool, true, false, ◌&&◌, ◌||◌, not, Option, none, some, List, [], ◌∷◌, ◌++◌, Bytes, codes,
  bytes_eq, any, is_some, ok, err, ◌>>◌, if◌then◌else◌,
}
use vivarium.Net.Text.{is_empty, strip_prefix}
use vivarium.Launch.Spec.{MountPlanKind, MountPlan, ShareSpec, VolumeSpec, stage_dir}
use vivarium.Launch.Mounts.{
  Answer, FileKind, found, directory, regular, special, file_name, encode_entry,
}
use vivarium.Launch.Paths.{path_eq}
use vivarium.Launch.Workspace.{GuestOwned, guest_owned_collision}
use vivarium.Launch.Checks.{
  invalid_spec, io, Check, all_ok, require_absolute_resolved, is_mount_tag, require_exact_child,
  is_encoded_entry, reject_session_source,
}
use vivarium.Launch.Contract.{HostDisk, refuse_if, unseen, duplicate_socket}

abbrev pub kind_is_tree : MountPlanKind → Bool
kind_is_tree MountPlanKind.tree = true
kind_is_tree MountPlanKind.dir = false
kind_is_tree MountPlanKind.file = false

abbrev pub is_tree : Option MountPlan → Bool
is_tree none = false
is_tree (some plan) = kind_is_tree plan.kind

abbrev pub stage_check : Bytes → Option Bytes → Check
stage_check root none = ok tt
stage_check root (some stage) = require_exact_child stage root

-- The message stands for its reason, which `guest_owned_collision` gives.
abbrev pub reason_text : GuestOwned → Bytes
reason_text GuestOwned.not_absolute =
    codes "workspace path must be absolute to be mounted into the guest"
reason_text GuestOwned.filesystem_root =
    codes "the filesystem root cannot be mounted into the guest"
reason_text GuestOwned.collides = codes "workspace path collides with a path the guest owns"

abbrev pub unowned_check : Option GuestOwned → Check
unowned_check none = ok tt
unowned_check (some reason) = err (invalid_spec (reason_text reason))

abbrev pub tree_check : Option MountPlan → Bytes → Check
tree_check plan source =
    if is_tree plan then unowned_check (guest_owned_collision source) else ok tt

-- Whether a share of the plan is staged, and so serves one file.
abbrev pub kind_is_file : MountPlanKind → Bool
kind_is_file MountPlanKind.file = true
kind_is_file MountPlanKind.dir = false
kind_is_file MountPlanKind.tree = false

abbrev pub is_staged : Option MountPlan → Bool
is_staged none = false
is_staged (some plan) = kind_is_file plan.kind

abbrev pub is_regular : FileKind → Bool
is_regular regular = true
is_regular directory = false
is_regular special = false

abbrev pub is_directory : FileKind → Bool
is_directory directory = true
is_directory regular = false
is_directory special = false

abbrev pub source_check : Bool → Answer FileKind → Check
source_check true (found kind) =
    refuse_if (not (is_regular kind))
      (codes "a file mount plan's share source is not a regular file")
source_check false (found kind) =
    refuse_if (not (is_directory kind)) (codes "share source is not a directory")
source_check staged _ = err (io (codes "inspect share source"))

abbrev pub target_check : Option MountPlan → Bytes → Check
target_check none source = ok tt
target_check (some plan) source =
    require_absolute_resolved plan.target
    >> refuse_if (kind_is_tree plan.kind && not (path_eq plan.target source))
        (codes "a workspace plan must bind the share at its own source")

abbrev pub entry_eq : Option Bytes → Option Bytes → Bool
entry_eq none none = true
entry_eq (some a) (some b) = bytes_eq a b
entry_eq _ _ = false

abbrev pub well_formed : Option Bytes → Bool
well_formed none = false
well_formed (some entry) = is_encoded_entry entry

abbrev pub encoded_name : Option Bytes → Option Bytes
encoded_name none = none
encoded_name (some name) = some (encode_entry name)

abbrev pub file_entry_check : Option Bytes → Bytes → Check
file_entry_check entry source =
    refuse_if (not (well_formed entry))
      (codes "a file mount plan needs a well-formed encoded entry")
    >> refuse_if (not (entry_eq (encoded_name (file_name source)) entry))
        (codes "a file mount plan's entry does not name its source")

abbrev pub entry_check : Option MountPlan → Bytes → Check
entry_check none source = ok tt
entry_check (some plan) source =
    if kind_is_file plan.kind
    then file_entry_check plan.entry source
    else refuse_if (is_some plan.entry) (codes "a directory mount plan carries no entry")

abbrev pub caches : List Bytes
caches = codes "auto" ∷ codes "always" ∷ codes "metadata" ∷ codes "never" ∷ []

abbrev pub fixed_flags : List Bytes
fixed_flags =
    codes "--socket-path"
    ∷ codes "--shared-dir"
    ∷ codes "--sandbox"
    ∷ codes "--seccomp"
    ∷ codes "--rlimit-nofile"
    ∷ codes "--thread-pool-size"
    ∷ codes "--inode-file-handles"
    ∷ []

abbrev pub is_override : Bytes → Bool
is_override arg =
    any (λ fixed. bytes_eq arg fixed || is_some (strip_prefix (fixed ++ codes "=") arg)) fixed_flags

module _ (disk : HostDisk) (root : Bytes) where
  -- The body of the loop, behind the tags and the sockets met so far.
  unfoldable pub share_checks : List Bytes → List Bytes → ShareSpec → List Check
  share_checks tags sockets share =
      unseen bytes_eq (codes "duplicate share tag") tags share.tag
      ∷ refuse_if (not (bytes_eq share.tag (codes "store") || is_mount_tag share.tag))
          (codes "share tag is outside the build families")
      ∷ require_absolute_resolved share.source
      ∷ require_absolute_resolved share.mount_point
      ∷ require_exact_child share.socket root
      ∷ stage_check root (stage_dir share root)
      ∷ unseen path_eq duplicate_socket sockets share.socket
      ∷ reject_session_source share.source root
      ∷ tree_check share.mount_plan share.source
      ∷ source_check (is_staged share.mount_plan) (disk.metadata share.source)
      ∷ target_check share.mount_plan share.source
      ∷ entry_check share.mount_plan share.source
      ∷ refuse_if (not (any (bytes_eq share.cache) caches)) (codes "unsupported share cache")
      ∷ refuse_if (any is_override share.extra_args)
          (codes "extra share argument overrides mandatory policy")
      ∷ []

  unfoldable pub shares_ok : List Bytes → List Bytes → List ShareSpec → Check
  unfolding share_checks
  shares_ok tags sockets [] = ok tt
  shares_ok tags sockets (share ∷ more) =
      all_ok (share_checks tags sockets share)
      >> shares_ok (share.tag ∷ tags) (share.socket ∷ sockets) more

-- The volumes, behind the labels and the images met so far.
unfoldable pub volumes_ok : List Bytes → List Bytes → List VolumeSpec → Check
volumes_ok labels images [] = ok tt
volumes_ok labels images (volume ∷ more) =
    all_ok (
      require_absolute_resolved volume.path
      ∷ refuse_if (is_empty volume.label) (codes "volume label is empty")
      ∷ unseen bytes_eq (codes "duplicate volume label") labels volume.label
      ∷ unseen path_eq (codes "duplicate volume image path") images volume.path
      ∷ [])
    >> volumes_ok (volume.label ∷ labels) (volume.path ∷ images) more
