-- ===== src/Tests/Rootfs.antt =====
-- Stitched and written rootfs tables, for source/src/rootfs.rs.
use rules_oci_runtime.Prelude.{
  ◌^◌, ◌*◌, ◌<◌, ◌≤◌, ◌≡◌, ◌↔◌, inl, inr, refl, Option, none, some, [], ◌∷◌, ◌++◌, Bytes, codes,
  arith, ok, length, to_le_bytes, ◌=b◌,
}
use rules_oci_runtime.Entries.{code, is_file, max_entries}
use rules_oci_runtime.Entries.Text.{is_utf8}
use rules_oci_runtime.Entries.Write.{write_entry, write_bytes}
use rules_oci_runtime.Entries.Framed.{write_framed}
use rules_oci_runtime.Entries.TableCodec.{write_entries}
use rules_oci_runtime.Fsutil.{canonical_entry_path, components, names_the_root}
use rules_oci_runtime.Whiteout.{of}
use rules_oci_runtime.OrderedMap.{get, contains_key, insert, modify, or_insert, remove, range_from}
use rules_oci_runtime.Plan.Key.{lex}
use rules_oci_runtime.Plan.Tree.{
  worst, entry_at, under, ensure_parents, behind_a_link, blocked_by, links_somewhere,
}
use rules_oci_runtime.Plan.Removal.{remove_under}
use rules_oci_runtime.Plan.Replay.{replay}
use rules_oci_runtime.Plan.Canonicalise.{canonicalise}
use rules_oci_runtime.Plan.Placeable.{Work, placeable}
use rules_oci_runtime.Plan.Directories.{directories}
use rules_oci_runtime.Plan.Resolve.{resolve, planned, shadow, linked, xattrs_of}
use rules_oci_runtime.Rootfs.{RootfsTable, rootfs_magic, check}
use rules_oci_runtime.Rootfs.Kept.{IsServable}
use rules_oci_runtime.Rootfs.Placed.{check_iff}
use rules_oci_runtime.Rootfs.Stitch.{
  stitch, stitch_layers, renumber_layers, renumber_pairs, renumber_files, mark, keep, number,
  into_plan, resolved_plan,
}
use rules_oci_runtime.Rootfs.Stitch.Renumbered.{IsSameWork, stitch-IsSameWork}
use rules_oci_runtime.Rootfs.Stitch.Recorded.{digests_of, into_plan_iff}
use rules_oci_runtime.Rootfs.Codec.{rootfs_body, write_rootfs, read_rootfs}
use rules_oci_runtime.Rootfs.Codec.Reads.{encode_rootfs}
use rules_oci_runtime.Rootfs.Codec.RoundTrip.{
  IsTyped, read_rootfs-write_rootfs, read_rootfs-IsServable,
}
use rules_oci_runtime.Tests.Images.{two_layers}
use rules_oci_runtime.Tests.Tables.{
  stored, stored-IsLossless, a_table, a_file, a_file-IsEntry, a_directory-IsEntry,
}

abbrev a_rootfs : RootfsTable
a_rootfs = record {
  manifest = codes "sha256:0b";
  platform = codes "linux/amd64";
  layers = a_table ∷ [];
  directories = (codes ".", 0o755) ∷ ((codes "a", 0o755) ∷ []);
  work = record { files = (1 ∷ []) ∷ []; symlinks = []; hard_links = [] };
  xattrs = [];
}

a_rootfs-IsServable : IsServable a_rootfs
unfolding canonical_entry_path components ◌=b◌
a_rootfs-IsServable = record {
  files = (
    (
      record { table = a_table; layer = refl; entry = a_file; found = refl; of_kind = refl },
      omega arith,
      tt,
    ),
    tt,
  );
  symlinks = tt;
  hard_links = tt;
  xattrs = tt;
  entries = ((refl, (refl, tt)), tt);
  directories = (inl refl, (inr refl, tt));
}

a_rootfs-IsTyped : IsTyped a_rootfs
unfolding is_utf8
a_rootfs-IsTyped = record {
  manifest = refl;
  platform = refl;
  layers_count = omega arith;
  layers = ((refl, omega arith, (a_directory-IsEntry, (a_file-IsEntry, tt))), tt);
  directories_count = omega arith;
  directories = (omega arith, (omega arith, tt));
  files_count = refl;
  files = ((omega arith, (omega arith, tt)), tt);
  symlinks_count = omega arith;
  symlinks = tt;
  hard_links_count = omega arith;
  hard_links = tt;
  xattrs_count = omega arith;
  xattrs = tt;
}

abbrev rootfs_bytes : Bytes
rootfs_bytes = encode_rootfs a_rootfs

abbrev rootfs_framed : Bytes
rootfs_framed =
    rootfs_magic
    ++ (to_le_bytes 8 (length rootfs_bytes)
        ++ (to_le_bytes 8 (length rootfs_bytes) ++ rootfs_bytes))

rootfs_body-a_rootfs : rootfs_body a_rootfs ≡ ok rootfs_bytes
unfolding rootfs_body write_entries write_entry write_bytes to_le_bytes code is_file
rootfs_body-a_rootfs = refl

write_rootfs-a_rootfs : write_rootfs stored a_rootfs ≡ ok rootfs_framed
unfolding write_rootfs rootfs_body write_entries write_entry write_bytes write_framed to_le_bytes
    code is_file
write_rootfs-a_rootfs = refl

rootfs_bytes_short : length rootfs_bytes ≤ max_entries * 512
unfolding to_le_bytes code
rootfs_bytes_short = omega arith

rootfs_framed_short : length rootfs_framed < 256 ^ 8
unfolding to_le_bytes code
rootfs_framed_short = omega arith

check_iff_example : (check a_rootfs ≡ ok tt) ↔ IsServable a_rootfs
check_iff_example = check_iff a_rootfs

read_rootfs-write_rootfs_example : read_rootfs stored (rootfs_framed ++ codes "more") ≡ ok a_rootfs
read_rootfs-write_rootfs_example =
    read_rootfs-write_rootfs stored stored-IsLossless a_rootfs rootfs_bytes rootfs_framed
      (codes "more") a_rootfs-IsTyped a_rootfs-IsServable rootfs_body-a_rootfs rootfs_bytes_short
      write_rootfs-a_rootfs rootfs_framed_short

read_back : read_rootfs stored (rootfs_framed ++ codes "more") ≡ ok a_rootfs
read_back =
    read_rootfs-write_rootfs stored stored-IsLossless a_rootfs rootfs_bytes rootfs_framed
      (codes "more") a_rootfs-IsTyped a_rootfs-IsServable rootfs_body-a_rootfs rootfs_bytes_short
      write_rootfs-a_rootfs rootfs_framed_short

read_rootfs-IsServable_example : IsServable a_rootfs
read_rootfs-IsServable_example =
    read_rootfs-IsServable stored (rootfs_framed ++ codes "more") a_rootfs read_back

abbrev or_empty : Option RootfsTable → RootfsTable
or_empty none = a_rootfs
or_empty (some t) = t

abbrev stitched_two : RootfsTable
stitched_two =
    or_empty (stitch (codes "m") (codes "p") (codes "one" ∷ (codes "two" ∷ [])) two_layers)

stitch-two :
    stitch (codes "m") (codes "p") (codes "one" ∷ (codes "two" ∷ [])) two_layers ≡ some stitched_two
unfolding stitch resolve planned canonicalise shadow linked xattrs_of directories placeable replay
    ◌=b◌ remove_under range_from modify or_insert remove worst of entry_at under ensure_parents
    behind_a_link blocked_by lex canonical_entry_path insert get code links_somewhere stitch_layers
    renumber_layers renumber_pairs renumber_files mark keep number is_file contains_key
    names_the_root components
stitch-two = refl

stitch-IsSameWork_example :
    (work : Work) × ((resolve (codes "one" ∷ (codes "two" ∷ [])) two_layers).work ≡ some work)
    × IsSameWork
        (resolve (codes "one" ∷ (codes "two" ∷ [])) two_layers).tables
        stitched_two.layers
        work
        stitched_two.work
stitch-IsSameWork_example =
    stitch-IsSameWork (codes "m") (codes "p") (codes "one" ∷ (codes "two" ∷ [])) two_layers
      stitched_two stitch-two

into_plan_iff_example :
    (into_plan
        (λ n. codes "1 layers")
        a_rootfs
        (codes "t")
        (codes "sha256:0b")
        (codes "sha256:0a" ∷ [])
      ≡ ok (resolved_plan a_rootfs))
    ↔ ((codes "sha256:0b" ≡ codes "sha256:0b")
        × (digests_of a_rootfs.layers ≡ (codes "sha256:0a" ∷ []))
        × (resolved_plan a_rootfs ≡ resolved_plan a_rootfs))
into_plan_iff_example =
    into_plan_iff (λ n. codes "1 layers") a_rootfs (codes "t") (codes "sha256:0b")
      (codes "sha256:0a" ∷ []) (resolved_plan a_rootfs)
