-- ===== src/Spec/Build/Isolated.antt =====
-- How far a configuration of source/src/spec.rs keeps the container apart.
use rules_oci_runtime.Prelude.{
  ℕ, zero, suc, ◌+◌, ◌-◌, ◌≡◌, ◌↔◌, ◌⊎◌, inl, inr, refl, ap, Bool, true, false, not, ◌&&◌, Option,
  none, some, List, [], ◌∷◌, ◌++◌, Bytes, ◌==◌, ltb, leb, ◌=b◌, if◌then◌else◌, any, map, codes,
  arith,
}
use rules_oci_runtime.Plan.Placeable.Members.{Among}
use rules_oci_runtime.Spec.Mounts.{BindMount, Mount, to_mount, default_mounts}
use rules_oci_runtime.Spec.Build.{SpecOptions, Spec, spec_of, namespaces, id_mappings, IdMapping}

-- The id outside that an id of the container stands for.
abbrev pub host_of : List IdMapping → ℕ → Option ℕ
host_of [] id = none
host_of (m ∷ ms) id =
    if leb m.container_id id && ltb id (m.container_id + m.size)
    then some (m.host_id + (id - m.container_id))
    else host_of ms id

host_of-id_mappings :
    (rootless : Bool) (user id : ℕ)
    → host_of (id_mappings rootless user) id ≡ (if rootless && id == 0 then some user else none)
host_of-id_mappings true user zero = ap some (omega arith)
host_of-id_mappings true user (suc id) = ground arith
host_of-id_mappings false user id = refl

-- What the container's capabilities are, whichever set.
abbrev pub IsGranted : Bytes → Type 0
IsGranted c =
    (c ≡ codes "CAP_AUDIT_WRITE") ⊎ ((c ≡ codes "CAP_KILL") ⊎ (c ≡ codes "CAP_NET_BIND_SERVICE"))

abbrev pub is_sysfs : Mount → Bool
is_sysfs m = m.type =b codes "sysfs"

-- A mount of a directory of the host, as it was asked for.
pub record IsBound (b : BindMount) (m : Mount) : Type 0 where
  pub source : m.source ≡ b.source
  pub destination : m.destination ≡ b.destination
  pub recursive : Among (codes "rbind") m.options
  pub asked : (option : Bytes) → Among option b.options → Among option m.options

-- How a configuration keeps the container apart.
pub record IsIsolated (o : SpecOptions) (spec : Spec) : Type 0 where
  pub users :
      (id : ℕ)
      → host_of spec.linux.uid_mappings id ≡ (if o.rootless && id == 0 then some o.uid else none)
  pub groups :
      (id : ℕ)
      → host_of spec.linux.gid_mappings id ≡ (if o.rootless && id == 0 then some o.gid else none)
  pub own_users : any (λ n. n =b codes "user") spec.linux.namespaces ≡ o.rootless
  pub own_processes : Among (codes "pid") spec.linux.namespaces
  pub own_mounts : Among (codes "mount") spec.linux.namespaces
  pub shares_the_network : any (λ n. n =b codes "network") spec.linux.namespaces ≡ false
  pub bounding : (c : Bytes) → Among c spec.process.capabilities.bounding ↔ IsGranted c
  pub effective : (c : Bytes) → Among c spec.process.capabilities.effective ↔ IsGranted c
  pub permitted : (c : Bytes) → Among c spec.process.capabilities.permitted ↔ IsGranted c
  pub no_gain : spec.process.no_new_privileges ≡ true
  pub sysfs : any is_sysfs spec.mounts ≡ not o.rootless
  pub bound :
      (b : BindMount) → Among b o.bind_mounts → (m : Mount) × Among m spec.mounts × IsBound b m

capabilities_iff :
    (c : Bytes)
    → Among c (codes "CAP_AUDIT_WRITE" ∷ (codes "CAP_KILL" ∷ (codes "CAP_NET_BIND_SERVICE" ∷ [])))
      ↔ IsGranted c
capabilities_iff c = (to c, from c)
  where
    to :
        (c : Bytes)
        → Among c
            (codes "CAP_AUDIT_WRITE" ∷ (codes "CAP_KILL" ∷ (codes "CAP_NET_BIND_SERVICE" ∷ [])))
        → IsGranted c
    to c (inl e) = inl e
    to c (inr (inl e)) = inr (inl e)
    to c (inr (inr (inl e))) = inr (inr e)
    to c (inr (inr (inr n))) = elim n [ ]

    from :
        (c : Bytes)
        → IsGranted c
        → Among c
            (codes "CAP_AUDIT_WRITE" ∷ (codes "CAP_KILL" ∷ (codes "CAP_NET_BIND_SERVICE" ∷ [])))
    from c (inl e) = inl e
    from c (inr (inl e)) = inr (inl e)
    from c (inr (inr e)) = inr (inr (inl e))

Among-append_right : (m : Mount) (xs ys : List Mount) → Among m ys → Among m (xs ++ ys)
Among-append_right m [] ys a = a
Among-append_right m (x ∷ xs) ys a = inr (Among-append_right m xs ys a)

Among-to_mount :
    (b : BindMount) (bs : List BindMount) → Among b bs → Among (to_mount b) (map to_mount bs)
Among-to_mount b [] a = elim a [ ]
Among-to_mount b (c ∷ bs) (inl e) = inl (ap to_mount e)
Among-to_mount b (c ∷ bs) (inr a) = inr (Among-to_mount b bs a)

no_sysfs : (bs : List BindMount) → any is_sysfs (map to_mount bs) ≡ false
unfolding ◌=b◌
no_sysfs [] = refl
no_sysfs (b ∷ bs) = no_sysfs bs

only_sysfs :
    (rootless : Bool) (bs : List BindMount)
    → any is_sysfs (default_mounts rootless ++ map to_mount bs) ≡ not rootless
unfolding default_mounts ◌=b◌
only_sysfs true bs = no_sysfs bs
only_sysfs false bs = refl

own_users_iff : (rootless : Bool) → any (λ n. n =b codes "user") (namespaces rootless) ≡ rootless
unfolding ◌=b◌
own_users_iff true = refl
own_users_iff false = refl

no_network : (rootless : Bool) → any (λ n. n =b codes "network") (namespaces rootless) ≡ false
unfolding ◌=b◌
no_network true = refl
no_network false = refl

pub spec_of-IsIsolated :
    (o : SpecOptions) (args env : List Bytes) → IsIsolated o (spec_of o args env)
spec_of-IsIsolated o args env = record {
  users = host_of-id_mappings o.rootless o.uid;
  groups = host_of-id_mappings o.rootless o.gid;
  own_users = own_users_iff o.rootless;
  own_processes = inl refl;
  own_mounts = inr (inr (inr (inl refl)));
  shares_the_network = no_network o.rootless;
  bounding = capabilities_iff;
  effective = capabilities_iff;
  permitted = capabilities_iff;
  no_gain = refl;
  sysfs = only_sysfs o.rootless o.bind_mounts;
  bound = λ b a. (
    to_mount b,
    Among-append_right (to_mount b) (default_mounts o.rootless) _
        (Among-to_mount b o.bind_mounts a),
    record {
      source = refl;
      destination = refl;
      recursive = inl refl;
      asked = λ option m. inr (inr m);
    },
  );
}
