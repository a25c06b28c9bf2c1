-- ===== src/Tests/Profile.antt =====
-- The theorems on src/launch at concrete inputs.
use vivarium.Prelude.{
  ℕ, ◌≡◌, refl, true, false, some, none, [], ◌∷◌, ◌++◌, Bytes, codes, err, arith, bytes_eq,
}
use vivarium.Net.Address.{v4}
use vivarium.Launch.Spec.{
  MountPlanKind, ShareSpec, BackendPrograms, RuntimePaths, LaunchEgressMode, LaunchSpec, stage_dir,
  join,
}
use vivarium.Launch.Policy.{translation_rules, wrapped}
use vivarium.Launch.Policy.Check.{validate_wrapper, wrapper_incomplete}
use vivarium.Launch.Policy.Translation.{count, of_guest, of_host, translation_rules_once}
use vivarium.Launch.Policy.Unstaged.{IsPlaced, IsServable}

abbrev pub show : ℕ → Bytes
show n = codes "1"

abbrev stored : Bytes → Bytes
stored name = codes "/nix/store/" ++ name

abbrev pub programs : BackendPrograms
programs = record {
  cloud_hypervisor = stored (codes "ch");
  ch_remote = stored (codes "chr");
  virtiofsd = stored (codes "vfs");
  setpriv = stored (codes "setpriv");
  truncate = stored (codes "truncate");
  mkfs_ext4 = stored (codes "mkfs");
  systemd_run = stored (codes "run");
  supervisor = codes "/vivarium";
  unshare = stored (codes "unshare");
  nsenter = stored (codes "nsenter");
  ip = stored (codes "ip");
  nft = stored (codes "nft");
  pasta = stored (codes "pasta");
  sleep = stored (codes "sleep");
}

-- A share of one file, which is staged, and a share of a directory, which is not.
abbrev key : ShareSpec
key = record {
  tag = codes "mnt0";
  source = codes "/home/key";
  mount_point = codes "/run/mounts/mnt0";
  socket = codes "/run/key.sock";
  cache = codes "auto";
  read_only = true;
  mount_plan =
      some (record { kind = MountPlanKind.file; entry = some (codes "key"); target = codes "/k" });
  extra_args = [];
}

abbrev work : ShareSpec
work = record key {
  tag = codes "mnt1";
  source = codes "/home/work";
  socket = codes "/run/work.sock";
  read_only = false;
  mount_plan =
      some (record { kind = MountPlanKind.tree; entry = none; target = codes "/home/work" });
}

abbrev in_run : Bytes → Bytes
in_run name = codes "/run/" ++ name

abbrev paths : RuntimePaths
paths = record {
  root = codes "/run";
  launch_spec = in_run (codes "spec");
  lock = in_run (codes "lock");
  ready_socket = in_run (codes "ready");
  api_socket = in_run (codes "api");
  console_socket = in_run (codes "con");
  console_log = in_run (codes "log");
  control_socket = in_run (codes "ctl");
  vm_pid = in_run (codes "pid");
  boot_json = in_run (codes "boot");
  vm_create_json = in_run (codes "create");
}

abbrev pub launch : LaunchSpec
launch = record {
  schema_version = 12;
  sandbox_id = codes "box";
  target = codes "t";
  runtime_paths = paths;
  backend_programs = programs;
  socket_legs = record {
    api = in_run (codes "api");
    console = in_run (codes "con");
    credentials = [];
  };
  descriptor_budget = record { limit = 1024; worker_pool_size = 4 };
  identity_translation = record {
    guest_uid = 1000;
    guest_gid = 100;
    host_uid = 1000;
    host_gid = 100;
    overflow_uid = 65534;
    overflow_gid = 65534;
    id_max = 4294967294;
  };
  guest_session = record {
    user = codes "u";
    home = codes "/home/u";
    shell = codes "/sh";
    path = codes "/bin";
  };
  egress = record { mode = LaunchEgressMode.open_mode; allow = [] };
  network = record {
    tap_name = codes "tap0";
    gateway_address = v4 1;
    prefix_length = 24;
    guest_address = v4 2;
    dns_forward_address = v4 3;
    guest_mac = codes "02:56:49:56:41:00";
    resolver_port = 53;
  };
  shares = key ∷ work ∷ [];
  volumes =
      record {
        label = codes "home";
        path = codes "/v";
        size_mib = 8;
        image_type = codes "raw";
        inode_ratio = none;
      }
      ∷ [];
}

placed : IsPlaced launch
placed = record { root = refl; setpriv = refl; virtiofsd = refl; supervisor = refl }

key-IsServable : IsServable show launch key
unfolding bytes_eq stage_dir join
key-IsServable = record { source = refl; socket = refl; no_word = refl; apart = λ e. cc e }

work-IsServable : IsServable show launch work
unfolding bytes_eq stage_dir
work-IsServable = record { source = refl; socket = refl; no_word = refl; apart = λ e. cc e }

-- A wrapper that keeps the bounding set is not accepted where the set must go.
kept :
    validate_wrapper (wrapped (codes "/setpriv") (codes "/vfs") [] false) true
    ≡ err wrapper_incomplete
unfolding validate_wrapper wrapped bytes_eq
kept = refl

translation_rules_once_example :
    (count (of_guest 7) (translation_rules 1000 100 65534 70000) ≡ 1)
    × (count (of_host 7) (translation_rules 1000 100 65534 70000) ≡ 1)
translation_rules_once_example =
    translation_rules_once 1000 100 65534 70000 7 (omega arith) (omega arith) (omega arith)
