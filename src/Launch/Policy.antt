-- ===== src/Launch/Policy.antt =====
-- src/launch/policy.rs: the only constructors of the backend's commands, and the check that
-- re-reads what they rendered. `show` is the decimal text of a number. A path in an argument is its
-- bytes: `display` is lossy, and the paths of a contract, which is read from JSON, are UTF-8.
pub mod Check
pub mod Translation
pub mod Arguments
pub mod Daemon
pub mod Unstaged
pub mod Staged
pub mod Accepted
use vivarium.Prelude.{
  ℕ, ◌+◌, ◌-◌, Bool, true, false, ◌&&◌, ◌||◌, not, Option, none, some, List, [], ◌∷◌, ◌++◌, Bytes,
  codes, ltb, if◌then◌else◌, bytes_eq, map, any, is_some, Result, ok, err, ◌>>=◌, ◌>>◌, guard,
  or_fail,
}
use vivarium.Net.Address.{IpAddr}
use vivarium.Net.Text.{strip_prefix, is_empty}
use vivarium.Net.Netns.{create_pair_args, enter_pair_args, holder_program}
use vivarium.Launch.Spec.{
  CommandSpec, rendered, ShareSpec, IdentityTranslation, LaunchSpec, stage_dir,
}

abbrev pub setpriv_policy : List Bytes
setpriv_policy = codes "--no-new-privs" ∷ codes "--ambient-caps=-all" ∷ codes "--inh-caps=-all" ∷ []

abbrev pub setpriv_bounding_set : Bytes
setpriv_bounding_set = codes "--bounding-set=-all"

abbrev pub staging_namespace : List Bytes
staging_namespace =
    codes "--user"
    ∷ codes "--map-current-user"
    ∷ codes "--keep-caps"
    ∷ codes "--mount"
    ∷ codes "--propagation"
    ∷ codes "private"
    ∷ []

abbrev pub stage_share : Bytes
stage_share = codes "stage-share"

abbrev pub bounding_args : Bool → List Bytes
bounding_args true = setpriv_bounding_set ∷ []
bounding_args false = []

unfoldable pub wrapped : Bytes → Bytes → List Bytes → Bool → CommandSpec
wrapped setpriv child child_args drop_bounding_set = record {
  program = setpriv;
  args = setpriv_policy ++ (bounding_args drop_bounding_set ++ (codes "--" ∷ child ∷ child_args));
}

-- One rule of an identity translation, and its text.
pub data TranslationRule : Type 0 where
  map_one : (guest host : ℕ) → TranslationRule
  forbid_guest : (base count : ℕ) → TranslationRule
  squash_host : (base overflow count : ℕ) → TranslationRule

unfoldable pub translation_rules : (guest host overflow id_max : ℕ) → List TranslationRule
translation_rules guest host overflow id_max =
    map_one guest host ∷ (if ltb 0 guest then forbid_guest 0 guest ∷ [] else [])
    ++ ((if ltb guest id_max then forbid_guest (guest + 1) (id_max - guest) ∷ [] else [])
        ++ ((if ltb 0 host then squash_host 0 overflow host ∷ [] else [])
            ++ (if ltb host id_max
                then squash_host (host + 1) overflow (id_max - host) ∷ []
                else [])))

abbrev pub colon : Bytes → Bytes → Bytes
colon a b = a ++ (b':' ∷ b)

unfoldable pub show_rule : (ℕ → Bytes) → TranslationRule → Bytes
show_rule show (map_one guest host) =
    colon (codes "map") (colon (show guest) (colon (show host) (codes "1")))
show_rule show (forbid_guest base count) =
    colon (codes "forbid-guest") (colon (show base) (show count))
show_rule show (squash_host base overflow count) =
    colon (codes "squash-host") (colon (show base) (colon (show overflow) (show count)))

abbrev pub flagged : (ℕ → Bytes) → Bytes → List TranslationRule → List Bytes
flagged show flag [] = []
flagged show flag (r ∷ rs) = flag ∷ show_rule show r ∷ flagged show flag rs

-- `add_translation`: what it appends.
unfoldable pub add_translation : (ℕ → Bytes) → Bytes → (guest host overflow id_max : ℕ) → List Bytes
unfolding translation_rules show_rule
add_translation show flag guest host overflow id_max =
    flagged show flag (translation_rules guest host overflow id_max)

abbrev pub read_only_args : Bool → List Bytes
read_only_args true = codes "--readonly" ∷ []
read_only_args false = []

-- What stands in front of the daemon in a staged command.
unfoldable pub staged_prefix : Bytes → ShareSpec → Bytes → List Bytes
staged_prefix supervisor share stage =
    staging_namespace
    ++ (codes "--"
          ∷ supervisor
          ∷ stage_share
          ∷ codes "--source"
          ∷ share.source
          ∷ codes "--stage"
          ∷ stage
          ∷ read_only_args share.read_only
        ++ (codes "--" ∷ []))

unfoldable pub staged : Bytes → Bytes → ShareSpec → Bytes → CommandSpec → CommandSpec
unfolding staged_prefix
staged unshare supervisor share stage daemon = record {
  program = unshare;
  args = staged_prefix supervisor share stage ++ (daemon.program ∷ daemon.args);
}

abbrev pub or_source : Option Bytes → Bytes → Bytes
or_source none source = source
or_source (some stage) source = stage

module _ (show : ℕ → Bytes) (spec : LaunchSpec) where
  unfoldable pub entered : ℕ → CommandSpec → CommandSpec
  unfolding enter_pair_args
  entered holder_pid inner = record {
    program = spec.backend_programs.nsenter;
    args = enter_pair_args show holder_pid (inner.program ∷ inner.args);
  }

  abbrev pub vmm_args : List Bytes
  vmm_args =
      codes "--api-socket"
      ∷ (codes "path=" ++ spec.runtime_paths.api_socket)
      ∷ codes "--seccomp"
      ∷ codes "true"
      ∷ []

  unfoldable pub vmm : ℕ → CommandSpec
  unfolding entered wrapped
  vmm holder_pid =
      entered holder_pid (
        wrapped spec.backend_programs.setpriv spec.backend_programs.cloud_hypervisor vmm_args false)

  unfoldable pub netns_holder : CommandSpec
  unfolding create_pair_args holder_program
  netns_holder = record {
    program = spec.backend_programs.unshare;
    args = create_pair_args (holder_program spec.backend_programs.sleep);
  }

  unfoldable pub in_namespace_ip : ℕ → List Bytes → CommandSpec
  unfolding enter_pair_args
  in_namespace_ip holder_pid args = record {
    program = spec.backend_programs.nsenter;
    args = enter_pair_args show holder_pid (spec.backend_programs.ip ∷ args);
  }

  unfoldable pub net_init : ℕ → CommandSpec
  unfolding enter_pair_args
  net_init holder_pid = record {
    program = spec.backend_programs.nsenter;
    args =
        enter_pair_args show holder_pid (spec.backend_programs.supervisor ∷ codes "net-init" ∷ []);
  }

  abbrev pub ns_path : ℕ → Bytes → Bytes
  ns_path holder_pid namespace = codes "/proc/" ++ (show holder_pid ++ (codes "/ns/" ++ namespace))

  -- `show_address` prints an address.
  unfoldable pub uplink : (IpAddr → Bytes) → ℕ → CommandSpec
  uplink show_address holder_pid = record {
    program = spec.backend_programs.pasta;
    args =
        codes "--foreground"
        ∷ codes "--config-net"
        ∷ codes "--dns-forward"
        ∷ show_address spec.network.dns_forward_address
        ∷ codes "--netns"
        ∷ ns_path holder_pid (codes "net")
        ∷ codes "--userns"
        ∷ ns_path holder_pid (codes "user")
        ∷ [];
  }

  unfoldable pub resolver : ℕ → CommandSpec
  unfolding enter_pair_args
  resolver holder_pid = record {
    program = spec.backend_programs.nsenter;
    args = enter_pair_args show holder_pid (
        spec.backend_programs.supervisor
        ∷ codes "resolver"
        ∷ codes "--spec"
        ∷ spec.runtime_paths.launch_spec
        ∷ []);
  }

  -- The daemon's own arguments, which `wrapped` takes.
  unfoldable pub virtiofsd_args : ShareSpec → Bytes → List Bytes
  virtiofsd_args share shared_dir =
      codes "--socket-path"
        ∷ share.socket
        ∷ codes "--shared-dir"
        ∷ shared_dir
        ∷ codes "--sandbox"
        ∷ codes "namespace"
        ∷ codes "--seccomp"
        ∷ codes "kill"
        ∷ codes "--inode-file-handles=never"
        ∷ codes "--thread-pool-size"
        ∷ show spec.descriptor_budget.worker_pool_size
        ∷ codes "--cache"
        ∷ share.cache
        ∷ (codes "--rlimit-nofile=" ++ show spec.descriptor_budget.limit)
        ∷ add_translation show (codes "--translate-uid") ids.guest_uid ids.host_uid ids.overflow_uid
            ids.id_max
      ++ (add_translation show (codes "--translate-gid") ids.guest_gid ids.host_gid ids.overflow_gid
            ids.id_max
          ++ (read_only_args share.read_only ++ share.extra_args))
    where
      ids : IdentityTranslation
      ids = spec.identity_translation

  unfoldable pub virtiofsd : Bool → ShareSpec → CommandSpec
  unfolding virtiofsd_args wrapped staged
  virtiofsd drop_bounding_set share =
      let stage = stage_dir share spec.runtime_paths.root in
      let daemon =
        wrapped spec.backend_programs.setpriv spec.backend_programs.virtiofsd
          (virtiofsd_args share (or_source stage share.source)) drop_bounding_set in
      elim stage [
        | none ↦ daemon
        | some dir ↦
            staged spec.backend_programs.unshare spec.backend_programs.supervisor share dir daemon
      ]

  unfoldable pub shares : Bool → List CommandSpec
  shares drop_bounding_set = map (virtiofsd drop_bounding_set) spec.shares
