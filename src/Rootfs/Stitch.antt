-- ===== src/Rootfs/Stitch.antt =====
-- `Table::stitch` and `Table::into_plan` of source/src/rootfs.rs: keeping what an image places of its
-- layers' tables, and the plan that a table records.
pub mod Marked
pub mod Renumbered
pub mod Recorded
use rules_oci_runtime.Prelude.{
  ℕ, zero, suc, ◌+◌, Bool, true, false, Option, none, some, List, [], ◌∷◌, ◌++◌, Bytes, ◌==◌, ◌=b◌,
  length, get_elem?, set, if◌then◌else◌, Result, ok, err, ◌>>=◌,
}
use rules_oci_runtime.Errors.{Error, mismatched_sidecar}
use rules_oci_runtime.Entries.{Entry, Table}
use rules_oci_runtime.Plan.Placeable.{Work, and_then}
use rules_oci_runtime.Plan.Resolve.{Plan, resolve}
use rules_oci_runtime.Rootfs.{RootfsTable}

-- One layer: what is kept of its table, and the new index of each of its entries.
pub record StitchedLayer : Type 0 where
  pub kept : Table
  pub index : List ℕ

-- `u32::MAX`
abbrev pub no_index : ℕ
no_index = 4294967295

abbrev pub files_at : Option (List ℕ) → List ℕ
files_at none = []
files_at (some files) = files

-- The entries of the pairs of one layer.
abbrev pub of_layer : ℕ → List (ℕ × ℕ) → List ℕ
of_layer l [] = []
of_layer l ((layer, entry) ∷ more) = if layer == l then entry ∷ of_layer l more else of_layer l more

-- `placed`
abbrev pub placed_in : Work → ℕ → List ℕ
placed_in work l =
    files_at (get_elem? work.files l) ++ (of_layer l work.symlinks ++ of_layer l work.hard_links)

-- `vec![false; len]`
abbrev pub unused : List Entry → List Bool
unused [] = []
unused (entry ∷ more) = false ∷ unused more

-- `for entry in placed { used[entry] = true }`
unfoldable pub mark : List ℕ → List Bool → List Bool
mark [] used = used
mark (entry ∷ more) used = mark more (set used entry true)

-- The loop over the entries: the kept ones, and the index of each, where `n` have been kept.
unfoldable pub keep : List Bool → List Entry → List Entry
keep (true ∷ used) (entry ∷ more) = entry ∷ keep used more
keep (false ∷ used) (entry ∷ more) = keep used more
keep _ _ = []

unfoldable pub number : ℕ → List Bool → List ℕ
number n [] = []
number n (true ∷ used) = n ∷ number (suc n) used
number n (false ∷ used) = no_index ∷ number n used

abbrev pub stitched_layer : Work → ℕ → Bytes → Table → StitchedLayer
stitched_layer work l digest table = record {
  kept = record {
    layer = digest;
    entries = keep (mark (placed_in work l) (unused table.entries)) table.entries;
  };
  index = number 0 (mark (placed_in work l) (unused table.entries));
}

-- The loop over the layers, from the one numbered `l`.
unfoldable pub stitch_layers : ℕ → Work → List Bytes → List Table → List StitchedLayer
unfolding mark keep number
stitch_layers l work (digest ∷ digests) (table ∷ tables) =
    stitched_layer work l digest table ∷ stitch_layers (suc l) work digests tables
stitch_layers l work _ _ = []

abbrev pub index_in : Option StitchedLayer → ℕ → Option ℕ
index_in none entry = none
index_in (some layer) entry = get_elem? layer.index entry

-- `renumbered[layer][entry]`; `none` where the source would stop at an index out of range.
unfoldable pub renumbered : List StitchedLayer → ℕ → ℕ → Option ℕ
renumbered layers l entry = index_in (get_elem? layers l) entry

-- The files of the layer numbered `l`.
unfoldable pub renumber_files : List StitchedLayer → ℕ → List ℕ → Option (List ℕ)
unfolding renumbered
renumber_files layers l [] = some []
renumber_files layers l (entry ∷ more) =
    and_then (renumbered layers l entry)
      λ e. and_then (renumber_files layers l more) λ es. some (e ∷ es)

unfoldable pub renumber_layers : List StitchedLayer → ℕ → List (List ℕ) → Option (List (List ℕ))
unfolding renumber_files
renumber_layers layers l [] = some []
renumber_layers layers l (files ∷ more) =
    and_then (renumber_files layers l files)
      λ es. and_then (renumber_layers layers (suc l) more) λ ess. some (es ∷ ess)

unfoldable pub renumber_pairs : List StitchedLayer → List (ℕ × ℕ) → Option (List (ℕ × ℕ))
unfolding renumbered
renumber_pairs layers [] = some []
renumber_pairs layers ((l, entry) ∷ more) =
    and_then (renumbered layers l entry)
      λ e. and_then (renumber_pairs layers more) λ ps. some ((l, e) ∷ ps)

abbrev pub kept_tables : List StitchedLayer → List Table
kept_tables [] = []
kept_tables (layer ∷ more) = layer.kept ∷ kept_tables more

abbrev pub recorded : Bytes → Bytes → Plan → List StitchedLayer → Work → RootfsTable
recorded manifest platform plan layers work = record {
  manifest = manifest;
  platform = platform;
  layers = kept_tables layers;
  directories = plan.directories;
  work = work;
  xattrs = plan.xattrs;
}

unfoldable pub stitch_plan : Bytes → Bytes → List Bytes → Plan → Work → Option RootfsTable
unfolding stitch_layers renumber_layers renumber_pairs
stitch_plan manifest platform digests plan work =
    and_then (renumber_layers (stitch_layers 0 work digests plan.tables) 0 work.files) λ files.
      and_then (renumber_pairs (stitch_layers 0 work digests plan.tables) work.symlinks) λ symlinks.
        and_then (renumber_pairs (stitch_layers 0 work digests plan.tables) work.hard_links)
          λ hard_links. some (
            recorded manifest platform plan (stitch_layers 0 work digests plan.tables)
              (record { files = files; symlinks = symlinks; hard_links = hard_links }))

-- `Table::stitch`: a layer is known by its digest.
unfoldable pub stitch : Bytes → Bytes → List Bytes → List Table → Option RootfsTable
unfolding stitch_plan resolve
stitch manifest platform digests tables =
    and_then (resolve digests tables).work
      (stitch_plan manifest platform digests (resolve digests tables))

-- `Plan::resolved`
abbrev pub resolved_plan : RootfsTable → Plan
resolved_plan t = record {
  shadowed = [];
  directories = t.directories;
  resolved = true;
  work = some t.work;
  tables = t.layers;
  xattrs = t.xattrs;
}

-- The layers of a table against those of the image.
unfoldable pub same_layers : Bytes → List Table → List Bytes → Result Error (Unit {0})
same_layers path (recorded ∷ more) (digest ∷ digests) =
    let rest = same_layers path more digests in
    if recorded.layer =b digest then rest else err (mismatched_sidecar path digest recorded.layer)
same_layers path _ _ = ok tt

-- How a number of layers is written in the message, which the formatting library does.
module _ (layers_text : ℕ → Bytes) where
  -- `Table::into_plan`
  unfoldable pub into_plan : RootfsTable → Bytes → Bytes → List Bytes → Result Error Plan
  unfolding same_layers ◌=b◌
  into_plan t path manifest layers =
      if t.manifest =b manifest
      then (if length t.layers == length layers
          then same_layers path t.layers layers >>= (λ u. ok (resolved_plan t))
          else err (
              mismatched_sidecar path (layers_text (length layers))
                (layers_text (length t.layers))))
      else err (mismatched_sidecar path manifest t.manifest)
