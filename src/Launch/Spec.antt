-- ===== src/Launch/Spec.antt =====
-- src/launch/spec.rs and src/launch/command.rs: what the confinement profile reads of a launch
-- contract, and a command. A path is its bytes.
use vivarium.Prelude.{
  ℕ, Bool, ◌||◌, Option, none, some, List, ◌∷◌, ◌++◌, Bytes, codes, if◌then◌else◌,
}
use vivarium.Protocol.Message.{CredentialId}
use vivarium.Net.Address.{IpAddr}
use vivarium.Net.Text.{is_empty, starts_with, ends_with}

pub record CommandSpec : Type 0 where
  pub program : Bytes
  pub args : List Bytes

unfoldable pub rendered : CommandSpec → List Bytes
rendered c = c.program ∷ c.args

pub data MountPlanKind : Type 0 where
  dir file tree : MountPlanKind

pub record MountPlan : Type 0 where
  pub kind : MountPlanKind
  pub entry : Option Bytes
  pub target : Bytes

pub record ShareSpec : Type 0 where
  pub tag : Bytes
  pub source : Bytes
  pub mount_point : Bytes
  pub socket : Bytes
  pub cache : Bytes
  pub read_only : Bool
  pub mount_plan : Option MountPlan
  pub extra_args : List Bytes

pub record IdentityTranslation : Type 0 where
  pub guest_uid : ℕ
  pub guest_gid : ℕ
  pub host_uid : ℕ
  pub host_gid : ℕ
  pub overflow_uid : ℕ
  pub overflow_gid : ℕ
  pub id_max : ℕ

pub record DescriptorBudget : Type 0 where
  pub limit : ℕ
  pub worker_pool_size : ℕ

pub record BackendPrograms : Type 0 where
  pub cloud_hypervisor : Bytes
  pub ch_remote : Bytes
  pub virtiofsd : Bytes
  pub setpriv : Bytes
  pub truncate : Bytes
  pub mkfs_ext4 : Bytes
  pub systemd_run : Bytes
  pub supervisor : Bytes
  pub unshare : Bytes
  pub nsenter : Bytes
  pub ip : Bytes
  pub nft : Bytes
  pub pasta : Bytes
  pub sleep : Bytes

pub data LaunchEgressMode : Type 0 where
  open_mode allowlist_mode : LaunchEgressMode

pub record EgressSpec : Type 0 where
  pub mode : LaunchEgressMode
  pub allow : List Bytes

pub record NetworkSpec : Type 0 where
  pub tap_name : Bytes
  pub gateway_address : IpAddr
  pub prefix_length : ℕ
  pub guest_address : IpAddr
  pub dns_forward_address : IpAddr
  pub guest_mac : Bytes
  pub resolver_port : ℕ

pub record RuntimePaths : Type 0 where
  pub root : Bytes
  pub launch_spec : Bytes
  pub lock : Bytes
  pub ready_socket : Bytes
  pub api_socket : Bytes
  pub console_socket : Bytes
  pub console_log : Bytes
  pub control_socket : Bytes
  pub vm_pid : Bytes
  pub boot_json : Bytes
  pub vm_create_json : Bytes

pub record CredentialSpec : Type 0 where
  pub id : CredentialId
  pub host_socket : Bytes

pub record SocketLegs : Type 0 where
  pub api : Bytes
  pub console : Bytes
  pub credentials : List CredentialSpec

pub record VolumeSpec : Type 0 where
  pub label : Bytes
  pub path : Bytes
  pub size_mib : ℕ
  pub image_type : Bytes
  pub inode_ratio : Option ℕ

pub record GuestSession : Type 0 where
  pub user : Bytes
  pub home : Bytes
  pub shell : Bytes
  pub path : Bytes

-- Without `resources`, `vm_create`, `landlock_available` and `console_log_enabled`, which neither
-- the validation nor the profile reads.
pub record LaunchSpec : Type 0 where
  pub schema_version : ℕ
  pub sandbox_id : Bytes
  pub target : Bytes
  pub runtime_paths : RuntimePaths
  pub backend_programs : BackendPrograms
  pub socket_legs : SocketLegs
  pub descriptor_budget : DescriptorBudget
  pub identity_translation : IdentityTranslation
  pub guest_session : GuestSession
  pub egress : EgressSpec
  pub network : NetworkSpec
  pub shares : List ShareSpec
  pub volumes : List VolumeSpec

-- `Path::join`: an absolute part stands by itself.
unfoldable pub join : Bytes → Bytes → Bytes
unfolding ends_with
join base part =
    if starts_with b'/' part
    then part
    else if is_empty base || ends_with b'/' base
    then base ++ part
    else base ++ (b'/' ∷ part)

abbrev pub staged_kind : MountPlanKind → Bytes → Option Bytes
staged_kind MountPlanKind.file stage = some stage
staged_kind MountPlanKind.dir stage = none
staged_kind MountPlanKind.tree stage = none

abbrev pub staged_as : Option MountPlan → Bytes → Option Bytes
staged_as (some plan) stage = staged_kind plan.kind stage
staged_as none stage = none

-- `ShareSpec::stage_dir`: a share of one file has a private export root.
unfoldable pub stage_dir : ShareSpec → Bytes → Option Bytes
stage_dir share runtime_root =
    staged_as share.mount_plan (join runtime_root (share.tag ++ codes ".stage"))
