-- ===== src/Tests/Paths.antt =====
-- Paths and markers, for source/src/fsutil.rs and source/src/extract/whiteout.rs.
use rules_oci_runtime.Prelude.{
  ◌≡◌, ◌↔◌, refl, true, false, none, some, ◌++◌, All, codes, if◌then◌else◌, ◌=b◌, ◌||◌,
}
use rules_oci_runtime.Fsutil.{
  components, canonical_entry_path, is_empty, names_the_root, parent_dir,
}
use rules_oci_runtime.Fsutil.Canonical.{
  IsSafe, climbs_out, join, canonical_entry_path_idempotent, canonical_entry_path_iff,
  canonical_entry_path_cases,
}
use rules_oci_runtime.Whiteout.{named, of, prefix, rejoin}
use rules_oci_runtime.Whiteout.Meaning.{meaning, of_marker}
use rules_oci_runtime.Whiteout.Targets.{of_parent_marker}

canonical-dotted : canonical_entry_path (codes "./a//b/.") ≡ some (codes "a/b")
unfolding canonical_entry_path ◌=b◌ components
canonical-dotted = refl

canonical-trailing : canonical_entry_path (codes "a/b/") ≡ some (codes "a/b")
unfolding canonical_entry_path ◌=b◌ components
canonical-trailing = refl

canonical_entry_path_idempotent_example :
    (canonical_entry_path (codes "a/b") ≡ some (codes "a/b"))
    × (components (codes "a/b") ≡ components (codes "./a//b/."))
    × All IsSafe (components (codes "a/b"))
canonical_entry_path_idempotent_example =
    canonical_entry_path_idempotent (codes "./a//b/.") (codes "a/b") canonical-dotted

canonical_entry_path_iff_example :
    (codes "a/b" ≡ codes "a/b") ↔ (components (codes "./a//b/.") ≡ components (codes "a/b/"))
canonical_entry_path_iff_example =
    canonical_entry_path_iff (codes "./a//b/.") (codes "a/b/") (codes "a/b") (codes "a/b")
      canonical-dotted canonical-trailing

canonical_entry_path_cases_example : canonical_entry_path (codes "a/../b") ≡ (
    if is_empty (codes "a/../b") || names_the_root (codes "a/../b") || climbs_out (codes "a/../b")
    then none
    else some (join (components (codes "a/../b"))))
canonical_entry_path_cases_example = canonical_entry_path_cases (codes "a/../b")

of_marker_example :
    of (rejoin (codes "a") (prefix ++ codes "b")) ≡ some (meaning (codes "a") (codes "b"))
of_marker_example = of_marker (codes "a") (codes "b") ((λ e. cc), tt)

b-IsSafe : IsSafe (codes "b")
unfolding ◌=b◌ components
b-IsSafe = record {
  component = record { somewhere = refl; single = ((λ e. cc), tt) };
  stays = refl;
}

a-IsSafe : All IsSafe (components (codes "a"))
unfolding ◌=b◌ components
a-IsSafe =
    (record { component = record { somewhere = refl; single = ((λ e. cc), tt) }; stays = refl }, tt)

a-joined : codes "a" ≡ join (components (codes "a"))
unfolding ◌=b◌ components
a-joined = refl

a-stays : climbs_out (codes "a") ≡ false
unfolding ◌=b◌ components climbs_out
a-stays = refl

of_parent_marker_example :
    (of (rejoin (codes "a") (codes ".wh...")) ≡ some (named (rejoin (codes "a") parent_dir)))
    × (climbs_out (rejoin (codes "a") (codes ".wh...")) ≡ false)
    × (climbs_out (rejoin (codes "a") parent_dir) ≡ true)
of_parent_marker_example = of_parent_marker (codes "a") a-stays
