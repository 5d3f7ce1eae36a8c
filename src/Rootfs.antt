-- ===== src/Rootfs.antt =====
-- The table of a resolved image, source/src/rootfs.rs: what is kept of the layers' entry tables, the
-- work to do with it, and the check of a table that was read.
pub mod Stitch
pub mod Codec
pub mod Kept
pub mod Placed
use rules_oci_runtime.Prelude.{
  ℕ, zero, suc, Bool, true, false, not, ◌&&◌, ◌||◌, Option, none, some, List, [], ◌∷◌, ◌++◌, Bytes,
  ◌=b◌, ltb, leb, length, get_elem?, if◌then◌else◌, codes, Result, ok, err, ◌>>◌,
}
use rules_oci_runtime.Errors.{IoError, other}
use rules_oci_runtime.Entries.{Kind, file, symlink, hard_link, Entry}
use rules_oci_runtime.Entries
use rules_oci_runtime.Fsutil.{canonical_entry_path}
use rules_oci_runtime.Plan.Tree.{root_entry, same_kind}
use rules_oci_runtime.Plan.Placeable.{Work}
use Prim.Native.String.{String, ◌++◌ as ◌<>◌}

-- `MAGIC`
abbrev pub rootfs_magic : Bytes
rootfs_magic = codes "OTR1"

-- `Table` of the source.
pub record RootfsTable : Type 0 where
  pub manifest : Bytes
  pub platform : Bytes
  pub layers : List Entries.Table
  pub directories : List (Bytes × ℕ)
  pub work : Work
  -- layer, path, names
  pub xattrs : List (ℕ × Bytes × Bytes)

unfoldable pub malformed : String → Result IoError (Unit {0})
malformed what = err (other ("rootfs table " <> what))

abbrev pub is_spelled : Bytes → Option Bytes → Bool
is_spelled path none = false
is_spelled path (some out) = out =b path

-- `canonical`
unfoldable pub canonical : Bytes → Bool
unfolding canonical_entry_path
canonical path = is_spelled path (canonical_entry_path path)

abbrev pub entry_in : Option Entries.Table → ℕ → Option Entry
entry_in none entry = none
entry_in (some table) entry = get_elem? table.entries entry

abbrev pub of_kind : Kind → Option Entry → Option Entry
of_kind kind none = none
of_kind kind (some found) = if same_kind found.kind kind then some found else none

-- The closure `entry` of `check`.
unfoldable pub kept_entry : List Entries.Table → ℕ → ℕ → Kind → Option Entry
kept_entry layers layer entry kind = of_kind kind (entry_in (get_elem? layers layer) entry)

abbrev pub check_file :
    Option Entry → ℕ → (ℕ → Result IoError (Unit {0})) → Result IoError (Unit {0})
check_file none last go_on = malformed "names a file it does not hold"
check_file (some found) last go_on =
    if ltb found.offset last
    then malformed "lists a layer's files out of order"
    else go_on found.offset

-- The files of one layer; `last` is the offset of the file before.
unfoldable pub check_files : List Entries.Table → ℕ → List ℕ → ℕ → Result IoError (Unit {0})
unfolding kept_entry malformed
check_files layers l [] last = ok tt
check_files layers l (e ∷ files) last =
    check_file (kept_entry layers l e file) last (λ offset. check_files layers l files offset)

unfoldable pub check_layers : List Entries.Table → ℕ → List (List ℕ) → Result IoError (Unit {0})
unfolding check_files
check_layers layers l [] = ok tt
check_layers layers l (files ∷ more) =
    check_files layers l files 0 >> check_layers layers (suc l) more

abbrev pub check_symlink : Option Entry → Result IoError (Unit {0})
check_symlink none = malformed "names a symlink it does not hold"
check_symlink (some found) = ok tt

unfoldable pub check_symlinks : List Entries.Table → List (ℕ × ℕ) → Result IoError (Unit {0})
unfolding kept_entry malformed
check_symlinks layers [] = ok tt
check_symlinks layers ((l, e) ∷ more) =
    check_symlink (kept_entry layers l e symlink) >> check_symlinks layers more

abbrev pub check_hard_link : Option Entry → Result IoError (Unit {0})
check_hard_link none = malformed "names a hard link it does not hold"
check_hard_link (some found) =
    if canonical found.link then ok tt else malformed "names a hard link it does not hold"

unfoldable pub check_hard_links : List Entries.Table → List (ℕ × ℕ) → Result IoError (Unit {0})
unfolding kept_entry malformed canonical
check_hard_links layers [] = ok tt
check_hard_links layers ((l, e) ∷ more) =
    check_hard_link (kept_entry layers l e hard_link) >> check_hard_links layers more

unfoldable pub names_no_layer : ℕ → List (ℕ × Bytes × Bytes) → Bool
names_no_layer layers [] = false
names_no_layer layers ((l, path, names) ∷ more) = leb layers l || names_no_layer layers more

unfoldable pub entries_canonical : List Entry → Bool
unfolding canonical
entries_canonical [] = true
entries_canonical (entry ∷ more) = canonical entry.path && entries_canonical more

unfoldable pub layers_canonical : List Entries.Table → Bool
unfolding entries_canonical
layers_canonical [] = true
layers_canonical (table ∷ more) = entries_canonical table.entries && layers_canonical more

-- The root is left out of the paths that are looked at.
unfoldable pub directories_canonical : List (Bytes × ℕ) → Bool
unfolding canonical
directories_canonical [] = true
directories_canonical ((path, mode) ∷ more) =
    (path =b root_entry || canonical path) && directories_canonical more

-- `Table::check`
unfoldable pub check : RootfsTable → Result IoError (Unit {0})
unfolding check_layers check_symlinks check_hard_links names_no_layer layers_canonical
    directories_canonical malformed
check t =
    check_layers t.layers 0 t.work.files
    >> (check_symlinks t.layers t.work.symlinks
        >> (check_hard_links t.layers t.work.hard_links
            >> ((if names_no_layer (length t.layers) t.xattrs
                  then malformed "names a layer it does not hold"
                  else ok tt)
                >> (if layers_canonical t.layers && directories_canonical t.directories
                    then ok tt
                    else malformed "holds a path that is not under the rootfs"))))
