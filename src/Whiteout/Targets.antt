-- ===== src/Whiteout/Targets.antt =====
-- Where the paths that markers hide lie (source/src/extract/whiteout.rs).
use rules_oci_runtime.Prelude.{
  ◌≡◌, ◌≢◌, refl, ◌∙◌, true, false, some, ◌++◌, Bytes, ◌=b◌, eq_of_=b, arith, All, codes,
}
use rules_oci_runtime.Fsutil.{
  components, names_somewhere, is_empty, parent_dir, canonical_entry_path, split_on,
}
use rules_oci_runtime.Fsutil.Canonical.{IsSafe, join, climbs, climbs_out, IsComponent-ne-nil}
use rules_oci_runtime.Fsutil.Under.{under_dir, climbs_out-under_dir, canonical_entry_path-under_dir}
use rules_oci_runtime.Whiteout.{prefix, named, of, rejoin}
use rules_oci_runtime.Whiteout.Meaning.{meaning, of_marker, opaque_rest}

rejoin-eq-under_dir : (dir path : Bytes) → rejoin dir path ≡ under_dir dir path
unfolding rejoin under_dir
rejoin-eq-under_dir dir path = refl

meaning-named :
    (dir rest : Bytes)
    → is_empty rest ≡ false
    → rest ≢ opaque_rest
    → some (meaning dir rest) ≡ some (named (rejoin dir rest))
unfolding meaning
meaning-named dir rest h n = ground (arith, eq_of_=b rest opaque_rest)

-- In a directory that is spelled canonically, a marker whose rest is a safe component other than
-- that of the opaque marker hides the path of that component, which is spelled canonically too.
pub of_named_safe :
    (dir rest : Bytes)
    → dir ≡ join (components dir)
    → All IsSafe (components dir)
    → IsSafe rest
    → rest ≢ opaque_rest
    → (of (rejoin dir (prefix ++ rest)) ≡ some (named (rejoin dir rest)))
      × (canonical_entry_path (rejoin dir rest) ≡ some (rejoin dir rest))
of_named_safe dir rest e h k n = (
  of_marker dir rest k.component.single
      ∙ meaning-named dir rest (IsComponent-ne-nil rest k.component) n,
  rw rejoin-eq-under_dir (canonical_entry_path-under_dir dir rest e h k),
)

-- The rest of a marker's name is not itself checked: in any directory that does not climb out, an
-- entry called `.wh...` does not climb out, and what it hides is `..`, which does.
pub of_parent_marker :
    (dir : Bytes)
    → climbs_out dir ≡ false
    → (of (rejoin dir (codes ".wh...")) ≡ some (named (rejoin dir parent_dir)))
      × (climbs_out (rejoin dir (codes ".wh...")) ≡ false)
      × (climbs_out (rejoin dir parent_dir) ≡ true)
unfolding meaning climbs_out climbs components split_on names_somewhere ◌=b◌
of_parent_marker dir h = (
  of_marker dir parent_dir (omega arith),
  rw (rejoin-eq-under_dir, climbs_out-under_dir, h) refl,
  rw (rejoin-eq-under_dir, climbs_out-under_dir, h) refl,
)
