-- ===== src/Tests/Contract.antt =====
-- The theorems on the validation of src/launch/spec.rs at concrete inputs.
use vivarium.Prelude.{
  ◌≡◌, refl, ◌≢◌, ◌↔◌, true, false, none, [], codes, bytes_eq, ok, err, arith, if◌then◌else◌, All,
}
use vivarium.Net.Address.{Addresses}
use vivarium.Net.Allowlist.{parse}
use vivarium.Net.Text.{split, strip_prefix}
use vivarium.Launch.Spec.{DescriptorBudget, stage_dir, join}
use vivarium.Launch.Mounts.{
  found, regular, directory, components, only_components, path_starts_with, file_name, encode_entry,
  encode_byte,
}
use vivarium.Launch.Paths.{path_eq, parent}
use vivarium.Launch.Policy.{vmm, shares}
use vivarium.Launch.Policy.Check.{validate_rendered}
use vivarium.Launch.Workspace.{guest_owned_collision, nested_pair}
use vivarium.Launch.Workspace.Pairs.{Pairwise}
use vivarium.Launch.Checks.{
  all_ok, guest_allowance, is_mac_address, unresolved_from, contains_unresolved_token,
  require_absolute_resolved, is_mount_tag, require_exact_child, encoded_from, is_encoded_entry,
  reject_session_source, invalid_runtime_path,
}
use vivarium.Launch.Checks.Entries.{is_encoded_entry-encode_entry}
use vivarium.Launch.Contract.{HostDisk, other, unseen, sockets_fresh, credentials_ok}
use vivarium.Launch.Contract.Shares.{share_checks, shares_ok, volumes_ok}
use vivarium.Launch.Contract.Validate.{
  workspace_shares, head_checks, session_checks, row_checks, validate,
}
use vivarium.Launch.Contract.Distinct.{IsUnambiguous, validate-IsUnambiguous}
use vivarium.Launch.Workspace.Unowned.{IsSeparate}
use vivarium.Launch.Contract.Trees.{trees}
use vivarium.Launch.Contract.Sources.{IsHeld, validate-IsHeld}
use vivarium.Launch.Contract.Servable.{validate-rendered}
use vivarium.Tests.Profile.{launch, show}

abbrev lib : Addresses
lib = record {
  parse_net = λ text. none;
  parse_addr = λ text. none;
  contains = λ block address. false;
  show = λ address. [];
}

abbrev disk : HostDisk
disk = record {
  metadata = λ path. if bytes_eq path (codes "/home/key") then found regular else found directory;
  symlink_metadata = λ path. found other;
}

valid : validate lib disk launch ≡ ok tt
unfolding validate all_ok bytes_eq split only_components components guest_allowance is_mac_address
    unresolved_from contains_unresolved_token require_absolute_resolved is_mount_tag
    require_exact_child encoded_from is_encoded_entry reject_session_source unseen sockets_fresh
    credentials_ok share_checks shares_ok volumes_ok workspace_shares head_checks session_checks
    row_checks path_eq parent path_starts_with file_name encode_entry encode_byte
    guest_owned_collision nested_pair parse stage_dir join strip_prefix
valid = refl

-- A contract of another schema, and one whose runtime directory climbs.
climbing :
    require_absolute_resolved (codes "/run/../x")
    ≡ err (invalid_runtime_path (codes "path must be absolute and normalized"))
unfolding require_absolute_resolved components only_components split bytes_eq
climbing = refl

-- A sentinel is one between two signs, and a version in a name is none.
sentinels :
    (contains_unresolved_token (codes "/a@b@c") ≡ false)
    × (contains_unresolved_token (codes "/@SOCKET_0@") ≡ true)
unfolding contains_unresolved_token unresolved_from
sentinels = (refl, refl)

validate-IsUnambiguous_example : IsUnambiguous launch
validate-IsUnambiguous_example = validate-IsUnambiguous lib disk launch valid

validate-IsHeld_example :
    All (IsHeld disk (codes "/run")) launch.shares × Pairwise IsSeparate (trees launch.shares)
validate-IsHeld_example = validate-IsHeld lib disk launch valid

validate-rendered_example :
    validate_rendered (vmm show launch 42) (shares show launch true) true ≡ ok tt
validate-rendered_example =
    validate-rendered show lib disk launch (λ n. refl) valid (refl, (refl, tt)) 42 true

abbrev budget : DescriptorBudget
budget = record { limit = 1024; worker_pool_size = 0 }

a_b : is_encoded_entry (codes "a%20b") ≡ true
unfolding is_encoded_entry
a_b = refl

is_encoded_entry-encode_entry_example :
    (is_encoded_entry (encode_entry (codes "a b")) ≡ true)
    ↔ ((codes "a b" ≢ []) × (codes "a b" ≢ codes ".") × (codes "a b" ≢ codes ".."))
is_encoded_entry-encode_entry_example =
    is_encoded_entry-encode_entry (codes "a b") (omega arith, (omega arith, (omega arith, tt)))
