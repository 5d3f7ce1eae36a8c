-- ===== src/Spec/Mounts.antt =====
-- `BindMount` and the mounts that every container has.
pub mod RoundTrip
pub mod Accepted
use rules_oci_runtime.Prelude.{
  ℕ, Bool, true, false, not, ◌&&◌, ◌||◌, Option, none, some, List, [], ◌∷◌, ◌++◌, Bytes, ◌==◌, leb,
  if◌then◌else◌, any, keep_if, map, codes, Result, ok, err,
}
use rules_oci_runtime.Fsutil.{is_empty, slash, split_on}
use rules_oci_runtime.Errors.{Error, invalid_mount}
use rules_oci_runtime.Spec.Env.{split_once}

pub record BindMount : Type 0 where
  pub source : Bytes
  pub destination : Bytes
  pub options : List Bytes

pub record Mount : Type 0 where
  pub destination : Bytes
  pub type : Bytes
  pub source : Bytes
  pub options : List Bytes

abbrev pub second_fields : Bytes → Bytes → Option (Bytes × Bytes) → Bytes × Bytes × Bytes
second_fields source rest none = (source, rest, codes "rw")
second_fields source rest (some (destination, options)) = (source, destination, options)

abbrev pub first_fields : Bytes → Option (Bytes × Bytes) → Bytes × Bytes × Bytes
first_fields value none = (value, [], codes "rw")
first_fields value (some (source, rest)) = second_fields source rest (split_once b':' rest)

-- `splitn(3, ':')` with what stands in for a missing field.
unfoldable pub fields : Bytes → Bytes × Bytes × Bytes
fields value = first_fields value (split_once b':' value)

-- `char::is_whitespace`, the White_Space property of Unicode.
unfoldable pub is_whitespace : ℕ → Bool
is_whitespace c =
    (leb 9 c && leb c 13)
    || c == 32
    || c == 0x85
    || c == 0xa0
    || c == 0x1680
    || (leb 0x2000 c && leb c 0x200a)
    || c == 0x2028
    || c == 0x2029
    || c == 0x202f
    || c == 0x205f
    || c == 0x3000

abbrev pub begins_with_slash : Bytes → Bool
begins_with_slash [] = false
begins_with_slash (c ∷ cs) = c == slash

abbrev pub is_given : Bytes → Bool
is_given text = not (is_empty text)

unfoldable pub given_options : Bytes → List Bytes
unfolding split_on
given_options text = keep_if is_given (split_on b',' text)

abbrev pub or_rw : List Bytes → List Bytes
or_rw [] = codes "rw" ∷ []
or_rw (o ∷ os) = o ∷ os

unfoldable pub parse_fields : Bytes → Bytes × Bytes × Bytes → Result Error BindMount
unfolding given_options is_whitespace
parse_fields value (source, destination, options) =
    if is_empty source || is_empty destination
    then err (invalid_mount value)
    else if not (begins_with_slash destination)
    then err (invalid_mount value)
    else if any (any is_whitespace) (given_options options)
    then err (invalid_mount value)
    else ok (record {
      source = source;
      destination = destination;
      options = or_rw (given_options options);
    })

-- `BindMount::parse`
unfoldable pub parse : Bytes → Result Error BindMount
unfolding fields parse_fields
parse value = parse_fields value (fields value)

abbrev pub to_mount : BindMount → Mount
to_mount m = record {
  destination = m.destination;
  type = codes "none";
  source = m.source;
  options = codes "rbind" ∷ (codes "rprivate" ∷ m.options);
}

abbrev pub a_mount : Bytes → Bytes → Bytes → List Bytes → Mount
a_mount destination type source options = record {
  destination = destination;
  type = type;
  source = source;
  options = options;
}

abbrev pub sysfs : Bool → Mount
sysfs true =
    a_mount (codes "/sys") (codes "none") (codes "/sys")
      (codes "rbind" ∷ (codes "nosuid" ∷ (codes "noexec" ∷ (codes "nodev" ∷ (codes "ro" ∷ [])))))
sysfs false =
    a_mount (codes "/sys") (codes "sysfs") (codes "sysfs")
      (codes "nosuid" ∷ (codes "noexec" ∷ (codes "nodev" ∷ (codes "ro" ∷ []))))

unfoldable pub default_mounts : Bool → List Mount
default_mounts rootless =
    a_mount (codes "/proc") (codes "proc") (codes "proc") []
    ∷ (a_mount (codes "/dev") (codes "tmpfs") (codes "tmpfs")
          (codes "nosuid" ∷ (codes "strictatime" ∷ (codes "mode=755" ∷ (codes "size=65536k" ∷ []))))
        ∷ (a_mount (codes "/dev/pts") (codes "devpts") (codes "devpts") (
              codes "nosuid"
              ∷ (codes "noexec"
                  ∷ (codes "newinstance" ∷ (codes "ptmxmode=0666" ∷ (codes "mode=0620" ∷ [])))))
            ∷ (a_mount (codes "/dev/shm") (codes "tmpfs") (codes "shm") (
                  codes "nosuid"
                  ∷ (codes "noexec"
                      ∷ (codes "nodev" ∷ (codes "mode=1777" ∷ (codes "size=65536k" ∷ [])))))
                ∷ (a_mount (codes "/dev/mqueue") (codes "mqueue") (codes "mqueue")
                      (codes "nosuid" ∷ (codes "noexec" ∷ (codes "nodev" ∷ [])))
                    ∷ (sysfs rootless
                        ∷ (a_mount (codes "/sys/fs/cgroup") (codes "cgroup") (codes "cgroup") (
                              codes "nosuid"
                              ∷ (codes "noexec"
                                  ∷ (codes "nodev" ∷ (codes "relatime" ∷ (codes "ro" ∷ [])))))
                            ∷ []))))))
