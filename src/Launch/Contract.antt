-- ===== src/Launch/Contract.antt =====
-- src/launch/spec.rs, `LaunchSpec::validate`: the checks of a launch contract, in the code's order.
-- What the filesystem says of a path is a parameter, and so are the parsers of addresses. A set of
-- the names met so far is a list.
pub mod Shares
pub mod Validate
pub mod Distinct
pub mod Servable
pub mod Held
pub mod Trees
pub mod Sources
use vivarium.Prelude.{
  ℕ, Bool, true, false, ◌&&◌, ◌||◌, not, Option, none, some, List, [], ◌∷◌, ◌++◌, Bytes, codes,
  length, leb, ltb, ◌==◌, if◌then◌else◌, bytes_eq, any, all, map, is_some, Result, ok, err, ◌>>=◌,
  ◌>>◌, guard,
}
use vivarium.Protocol.Message.{CredentialId, ssh, gpg}
use vivarium.Net.Address.{IpAddr, v4, v6, Addresses}
use vivarium.Net.Allowlist.{parse, is_ascii_alphanumeric}
use vivarium.Net.Text.{is_empty, strip_prefix}
use vivarium.Launch.Spec.{
  MountPlanKind, MountPlan, ShareSpec, DescriptorBudget, BackendPrograms, NetworkSpec, RuntimePaths,
  CredentialSpec, VolumeSpec, LaunchSpec, stage_dir,
}
use vivarium.Launch.Mounts.{
  Answer, FileKind, found, not_found, failed, directory, regular, path_starts_with, file_name,
  encode_entry,
}
use vivarium.Launch.Paths.{path_eq}
use vivarium.Launch.Workspace.{GuestOwned, guest_owned_collision, nested_pair}
use vivarium.Launch.Checks.{
  LaunchError, invalid_spec, io, schema_skew, Check, all_ok, guest_allowance, is_mac_address,
  require_absolute_resolved, is_mount_tag, require_exact_child, is_encoded_entry,
  reject_session_source,
}

-- What a path is itself, for `symlink_metadata`.
pub data LinkKind : Type 0 where
  symlink socket other : LinkKind

pub record HostDisk : Type 0 where
  pub metadata : Bytes → Answer FileKind
  pub symlink_metadata : Bytes → Answer LinkKind

abbrev pub launch_schema_version : ℕ
launch_schema_version = 12

abbrev pub refuse_if : Bool → Bytes → Check
refuse_if defect message = guard (not defect) (invalid_spec message)

abbrev pub allowance_check : Result LaunchError ℕ → Check
allowance_check (ok allowance) = ok tt
allowance_check (err why) = err why

abbrev pub in_store : Bytes → Check
in_store program =
    require_absolute_resolved program
    >> refuse_if (not (path_starts_with program (codes "/nix/store")))
        (codes "backend programs must be store paths")

-- The programs that the build supplies: all but the supervisor.
abbrev pub store_programs : BackendPrograms → List Bytes
store_programs programs =
    programs.cloud_hypervisor ∷ programs.ch_remote ∷ programs.virtiofsd ∷ programs.setpriv
    ∷ programs.truncate ∷ programs.mkfs_ext4 ∷ programs.systemd_run ∷ programs.unshare
    ∷ programs.nsenter ∷ programs.ip ∷ programs.nft ∷ programs.pasta ∷ programs.sleep ∷ []

abbrev pub parses {ℓ κ} : {E : Type ℓ} {A : Type κ} → Result E A → Bool
parses (ok a) = true
parses (err e) = false

abbrev pub is_ipv4 : IpAddr → Bool
is_ipv4 (v4 a) = true
is_ipv4 (v6 a) = false

abbrev pub same_family : Bool → Bool → Bool
same_family true b = b
same_family false b = not b

abbrev pub network_checks : NetworkSpec → List Check
network_checks network =
    refuse_if
      (is_empty network.tap_name
        || ltb 15 (length network.tap_name)
        || not (all (λ byte. is_ascii_alphanumeric byte || byte == b'-') network.tap_name))
      (codes "tap name must be a short alphanumeric-and-dash identifier")
    ∷ refuse_if (network.prefix_length == 0 || ltb 30 network.prefix_length)
        (codes "network prefix must leave room for a gateway and a guest")
    ∷ refuse_if
        (not (same_family (is_ipv4 network.gateway_address) (is_ipv4 network.guest_address)))
        (codes "gateway and guest addresses must share a family")
    ∷ refuse_if (network.resolver_port == 0) (codes "resolver port must be non-zero")
    ∷ refuse_if (not (is_mac_address network.guest_mac))
        (codes "guest MAC must be six colon-separated hex octets")
    ∷ []

abbrev pub children : RuntimePaths → List Bytes
children paths =
    paths.launch_spec ∷ paths.lock ∷ paths.ready_socket ∷ paths.api_socket ∷ paths.console_socket
    ∷ paths.console_log ∷ paths.control_socket ∷ paths.vm_pid ∷ paths.boot_json
    ∷ paths.vm_create_json ∷ []

abbrev pub runtime_checks : RuntimePaths → List Check
runtime_checks paths =
    require_absolute_resolved paths.root
    ∷ map (λ path. require_exact_child path paths.root) (children paths)

-- `if !seen.insert(x)` of every element in turn.
unfoldable pub unseen {ℓ} : {A : Type ℓ} → (A → A → Bool) → Bytes → List A → A → Check
unseen eq message seen x = refuse_if (any (eq x) seen) message

abbrev pub duplicate_socket : Bytes
duplicate_socket = codes "duplicate socket path"

abbrev pub leg_sockets : LaunchSpec → List Bytes
leg_sockets spec =
    spec.socket_legs.api ∷ spec.socket_legs.console ∷ spec.runtime_paths.control_socket ∷ []

-- The set that the names of a list have been put into.
abbrev pub met {ℓ} : {A : Type ℓ} → List A → List A → List A
met seen [] = seen
met seen (x ∷ xs) = met (x ∷ seen) xs

unfoldable pub sockets_fresh : List Bytes → List Bytes → Check
unfolding unseen
sockets_fresh seen [] = ok tt
sockets_fresh seen (path ∷ paths) =
    unseen path_eq duplicate_socket seen path >> sockets_fresh (path ∷ seen) paths

abbrev pub id_eq : CredentialId → CredentialId → Bool
id_eq ssh ssh = true
id_eq gpg gpg = true
id_eq _ _ = false

abbrev pub socket_object : Answer LinkKind → Check
socket_object (found socket) = ok tt
socket_object (found kind) =
    err (invalid_spec (codes "credential must name the exact socket object"))
socket_object _ = err (io (codes "inspect credential socket"))

-- The credentials, behind the identifiers and the sockets met so far.
unfoldable pub credentials_ok :
    HostDisk → List CredentialId → List Bytes → List CredentialSpec → Check
unfolding unseen
credentials_ok disk ids sockets [] = ok tt
credentials_ok disk ids sockets (credential ∷ more) =
    all_ok (
      unseen id_eq (codes "duplicate credential id") ids credential.id
      ∷ require_absolute_resolved credential.host_socket
      ∷ socket_object (disk.symlink_metadata credential.host_socket)
      ∷ unseen path_eq duplicate_socket sockets credential.host_socket
      ∷ [])
    >> credentials_ok disk (credential.id ∷ ids) (credential.host_socket ∷ sockets) more
