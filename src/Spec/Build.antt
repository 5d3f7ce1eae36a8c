-- ===== src/Spec/Build.antt =====
-- `Spec::build` and `resolve_args`.
pub mod Isolated
pub mod Laws
use rules_oci_runtime.Prelude.{
  ℕ, Bool, true, false, Option, none, some, List, [], ◌∷◌, ◌++◌, Bytes, if◌then◌else◌, map, codes,
  Result, ok, err, ◌>>=◌,
}
use rules_oci_runtime.Errors.{Error, no_command}
use rules_oci_runtime.Spec.Env.{ImageConfig, or_empty, resolve_env}
use rules_oci_runtime.Spec.Mounts.{BindMount, Mount, to_mount, default_mounts}

pub record Rlimit : Type 0 where
  pub type : Bytes
  pub hard : ℕ
  pub soft : ℕ

pub record IdMapping : Type 0 where
  pub container_id : ℕ
  pub host_id : ℕ
  pub size : ℕ

pub record Capabilities : Type 0 where
  pub bounding : List Bytes
  pub effective : List Bytes
  pub permitted : List Bytes

pub record User : Type 0 where
  pub uid : ℕ
  pub gid : ℕ

pub record Process : Type 0 where
  pub terminal : Bool
  pub user : User
  pub args : List Bytes
  pub env : List Bytes
  pub cwd : Bytes
  pub capabilities : Capabilities
  pub rlimits : List Rlimit
  pub no_new_privileges : Bool

pub record Root : Type 0 where
  pub path : Bytes
  pub readonly : Bool

pub record Linux : Type 0 where
  pub uid_mappings : List IdMapping
  pub gid_mappings : List IdMapping
  -- the type of each namespace
  pub namespaces : List Bytes
  pub masked_paths : List Bytes
  pub readonly_paths : List Bytes

pub record Spec : Type 0 where
  pub oci_version : Bytes
  pub process : Process
  pub root : Root
  pub hostname : Bytes
  pub mounts : List Mount
  pub linux : Linux

pub record SpecOptions : Type 0 where
  pub rootless : Bool
  pub terminal : Bool
  pub readonly_rootfs : Bool
  pub hostname : Bytes
  pub uid : ℕ
  pub gid : ℕ
  pub image : ImageConfig
  pub extra_env : List Bytes
  pub bind_mounts : List BindMount
  pub command : List Bytes
  pub workdir : Option Bytes

abbrev pub oci_version : Bytes
oci_version = codes "1.2.1"

-- `DEFAULT_CAPABILITIES`
abbrev pub default_capabilities : List Bytes
default_capabilities =
    codes "CAP_AUDIT_WRITE" ∷ (codes "CAP_KILL" ∷ (codes "CAP_NET_BIND_SERVICE" ∷ []))

-- `MASKED_PATHS`
abbrev pub masked_paths : List Bytes
masked_paths =
    codes "/proc/acpi"
    ∷ (codes "/proc/asound"
        ∷ (codes "/proc/kcore"
            ∷ (codes "/proc/keys"
                ∷ (codes "/proc/latency_stats"
                    ∷ (codes "/proc/timer_list"
                        ∷ (codes "/proc/timer_stats"
                            ∷ (codes "/proc/sched_debug"
                                ∷ (codes "/sys/firmware" ∷ (codes "/proc/scsi" ∷ [])))))))))

-- `READONLY_PATHS`
abbrev pub readonly_paths : List Bytes
readonly_paths =
    codes "/proc/bus"
    ∷ (codes "/proc/fs"
        ∷ (codes "/proc/irq" ∷ (codes "/proc/sys" ∷ (codes "/proc/sysrq-trigger" ∷ []))))

-- What follows the entrypoint: the command where there is one, and else the image's.
abbrev pub command_or : List Bytes → List Bytes → List Bytes
command_or [] cmd = cmd
command_or (c ∷ cs) cmd = c ∷ cs

abbrev pub some_args : List Bytes → Result Error (List Bytes)
some_args [] = err no_command
some_args (a ∷ more) = ok (a ∷ more)

unfoldable pub resolve_args : ImageConfig → List Bytes → Result Error (List Bytes)
resolve_args image command =
    some_args (or_empty image.entrypoint ++ command_or command (or_empty image.cmd))

abbrev pub dir_or_root : Option Bytes → Bytes
dir_or_root none = codes "/"
dir_or_root (some []) = codes "/"
dir_or_root (some (c ∷ cs)) = c ∷ cs

-- An empty working directory of the image is none; that of the caller is taken as it is.
unfoldable pub resolve_cwd : Option Bytes → Option Bytes → Bytes
resolve_cwd (some workdir) image_dir = workdir
resolve_cwd none image_dir = dir_or_root image_dir

abbrev pub id_mappings : Bool → ℕ → List IdMapping
id_mappings true id = record { container_id = 0; host_id = id; size = 1 } ∷ []
id_mappings false id = []

abbrev pub user_namespace : Bool → List Bytes
user_namespace true = codes "user" ∷ []
user_namespace false = []

abbrev pub namespaces : Bool → List Bytes
namespaces rootless =
    (codes "pid" ∷ (codes "ipc" ∷ (codes "uts" ∷ (codes "mount" ∷ (codes "cgroup" ∷ [])))))
    ++ user_namespace rootless

abbrev pub spec_of : SpecOptions → List Bytes → List Bytes → Spec
spec_of o args env = record {
  oci_version = oci_version;
  process = record {
    terminal = o.terminal;
    user = record { uid = 0; gid = 0 };
    args = args;
    env = env;
    cwd = resolve_cwd o.workdir o.image.working_dir;
    capabilities = record {
      bounding = default_capabilities;
      effective = default_capabilities;
      permitted = default_capabilities;
    };
    rlimits = record { type = codes "RLIMIT_NOFILE"; hard = 1024; soft = 1024 } ∷ [];
    no_new_privileges = true;
  };
  root = record { path = codes "rootfs"; readonly = o.readonly_rootfs };
  hostname = o.hostname;
  mounts = default_mounts o.rootless ++ map to_mount o.bind_mounts;
  linux = record {
    uid_mappings = id_mappings o.rootless o.uid;
    gid_mappings = id_mappings o.rootless o.gid;
    namespaces = namespaces o.rootless;
    masked_paths = masked_paths;
    readonly_paths = readonly_paths;
  };
}

-- `Spec::build`; `term` is the variable TERM of this process.
unfoldable pub build : SpecOptions → Option Bytes → Result Error Spec
unfolding resolve_args resolve_env
build o term = resolve_args o.image o.command >>= λ args.
    resolve_env o.image o.extra_env o.terminal term >>= λ env. ok (spec_of o args env)
