-- ===== src/Lazy/Build.antt =====
-- `Tree::build` of source/src/lazy/tree.rs: the inodes of a planned image, where the bodies of its
-- files lie, and what the image called each inode.
pub mod Linked
pub mod Resolves
use rules_oci_runtime.Prelude.{
  ℕ, zero, suc, ◌+◌, ◌-◌, Bool, true, false, not, ◌&&◌, ◌||◌, Option, none, some, List, [], ◌∷◌,
  ◌++◌, Bytes, ◌==◌, ◌=b◌, ltb, if◌then◌else◌, get_elem?, take, drop, length,
}
use rules_oci_runtime.Fsutil.{slash, is_empty}
use rules_oci_runtime.Whiteout.{rposition}
use rules_oci_runtime.Entries.{Entry, Table}
use rules_oci_runtime.OrderedMap.{OrderedMap, get, insert, is_lt}
use rules_oci_runtime.Plan.Key.{lex}
use rules_oci_runtime.Plan.Tree.{root_entry, default_directory_mode}
use rules_oci_runtime.Plan.Placeable.{Work, and_then, pair_lt, sort}
use rules_oci_runtime.Lazy.Tree.{
  Node, Tree, root, in_layer, new_directory, new_file, new_symlink, push, link,
}

-- The tree, the inode of each path, and the bodies of each layer by offset and inode.
pub record Building : Type 0 where
  pub tree : Tree
  pub by_path : OrderedMap ℕ
  pub bodies : List (List (ℕ × ℕ))

abbrev pub split_at : Bytes → Option ℕ → Bytes × Bytes
split_at path none = (root_entry, path)
split_at path (some at) = (take at path, drop (suc at) path)

-- `split`: a path's parent and its own name.
unfoldable pub split : Bytes → Option (Bytes × Bytes)
unfolding rposition
split path =
    if is_empty path || path =b root_entry
    then none
    else some (split_at path (rposition slash path))

abbrev pub if_linked : Bytes → ℕ → Building → Bool × Tree → Option Building
if_linked path ino b (false, tree) = none
if_linked path ino b (true, tree) =
    some (record b { tree = tree; by_path = insert path ino b.by_path })

abbrev pub link_under : Building → Bytes → Bytes → ℕ → Option ℕ → Option Building
link_under b path name ino none = none
link_under b path name ino (some parent) = if_linked path ino b (link b.tree parent name ino)

abbrev pub attach_split : Building → Bytes → ℕ → Option (Bytes × Bytes) → Option Building
attach_split b path ino none = none
attach_split b path ino (some (parent, name)) = link_under b path name ino (get parent b.by_path)

-- `attach`
unfoldable pub attach : Building → Bytes → ℕ → Option Building
unfolding split link
attach b path ino = attach_split b path ino (split path)

-- A node that is pushed and then attached.
unfoldable pub add : Building → Bytes → Node → Option Building
unfolding attach push
add b path node = attach (record b { tree = (push b.tree node).1 }) path (push b.tree node).0

abbrev pub with_mode : ℕ → Tree → Tree
with_mode mode [] = []
with_mode mode (node ∷ tree) = record node { mode = mode } ∷ tree

unfoldable pub build_directory : Building → Bytes → ℕ → Option Building
unfolding add
build_directory b path mode =
    if path =b root_entry
    then some (record b { tree = with_mode mode b.tree })
    else add b path (new_directory mode)

unfoldable pub build_directories : List (Bytes × ℕ) → Building → Option Building
unfolding build_directory
build_directories [] b = some b
build_directories ((path, mode) ∷ more) b =
    and_then (build_directory b path mode) (build_directories more)

-- `bodies.by_layer[layer].push(...)`
abbrev pub push_body : ℕ → ℕ × ℕ → List (List (ℕ × ℕ)) → List (List (ℕ × ℕ))
push_body layer body [] = []
push_body zero body (bodies ∷ more) = (bodies ++ (body ∷ [])) ∷ more
push_body (suc layer) body (bodies ∷ more) = bodies ∷ push_body layer body more

abbrev pub with_body : ℕ → ℕ × ℕ → Building → Building
with_body layer body b = record b { bodies = push_body layer body b.bodies }

abbrev pub add_file : ℕ → Building → Option Entry → Option Building
add_file layer b none = none
add_file layer b (some entry) =
    and_then
      (add b entry.path (
        new_file
          (in_layer (record {
            layer = layer;
            offset = entry.offset;
            size = entry.size;
            sha256 = entry.sha256;
          }))
          entry.mode entry.mtime))
      (λ b'. some (with_body layer (entry.offset, suc (length b.tree)) b'))

abbrev pub sort_at : ℕ → List (List (ℕ × ℕ)) → List (List (ℕ × ℕ))
sort_at layer [] = []
sort_at zero (bodies ∷ more) = sort pair_lt bodies ∷ more
sort_at (suc layer) (bodies ∷ more) = bodies ∷ sort_at layer more

-- The files of one layer.
unfoldable pub build_files_of : ℕ → Table → List ℕ → Building → Option Building
unfolding add
build_files_of layer table [] b = some b
build_files_of layer table (entry ∷ more) b =
    and_then (add_file layer b (get_elem? table.entries entry)) (build_files_of layer table more)

abbrev pub files_in : ℕ → Option Table → List ℕ → Building → Option Building
files_in layer none entries b = none
files_in layer (some table) entries b =
    and_then (build_files_of layer table entries b)
      (λ b'. some (record b' { bodies = sort_at layer b'.bodies }))

unfoldable pub build_files : List Table → ℕ → List (List ℕ) → Building → Option Building
unfolding build_files_of
build_files tables layer [] b = some b
build_files tables layer (entries ∷ more) b =
    and_then (files_in layer (get_elem? tables layer) entries b)
      (build_files tables (suc layer) more)

abbrev pub in_table : Option Table → ℕ → Option Entry
in_table none entry = none
in_table (some table) entry = get_elem? table.entries entry

abbrev pub add_symlink : Building → Option Entry → Option Building
add_symlink b none = none
add_symlink b (some entry) = add b entry.path (new_symlink entry.link entry.mtime)

unfoldable pub build_symlinks : List Table → List (ℕ × ℕ) → Building → Option Building
unfolding add
build_symlinks tables [] b = some b
build_symlinks tables ((layer, entry) ∷ more) b =
    and_then (add_symlink b (in_table (get_elem? tables layer) entry)) (build_symlinks tables more)

abbrev pub attach_found : Building → Bytes → Option ℕ → Option Building
attach_found b path none = none
attach_found b path (some target) = attach b path target

abbrev pub add_hard_link : Building → Option Entry → Option Building
add_hard_link b none = none
add_hard_link b (some entry) = attach_found b entry.path (get entry.link b.by_path)

unfoldable pub build_hard_links : List Table → List (ℕ × ℕ) → Building → Option Building
unfolding attach
build_hard_links tables [] b = some b
build_hard_links tables ((layer, entry) ∷ more) b =
    and_then (add_hard_link b (in_table (get_elem? tables layer) entry))
      (build_hard_links tables more)

abbrev pub no_bodies : List (List ℕ) → List (List (ℕ × ℕ))
no_bodies [] = []
no_bodies (files ∷ more) = [] ∷ no_bodies more

unfoldable pub start : Work → Building
unfolding insert
start work = record {
  tree = new_directory default_directory_mode ∷ [];
  by_path = insert root_entry root [];
  bodies = no_bodies work.files;
}

-- `Tree::build`
unfoldable pub build : List (Bytes × ℕ) → List Table → Work → Option Building
unfolding start build_directories build_files build_symlinks build_hard_links
build directories tables work = and_then (build_directories directories (start work)) λ b₁.
    and_then (build_files tables 0 work.files b₁) λ b₂.
      and_then (build_symlinks tables work.symlinks b₂) (build_hard_links tables work.hard_links)

-- The index of the first element that does not pass, in a list where those that pass come first.
unfoldable pub partition_point : {A : Type 0} → (A → Bool) → List A → ℕ
partition_point p [] = 0
partition_point p (x ∷ xs) = let rest = suc (partition_point p xs) in if p x then rest else 0

abbrev pub below : ℕ → ℕ × ℕ → Bool
below bound (offset, ino) = ltb offset bound

abbrev pub window_of : Option (List (ℕ × ℕ)) → ℕ → ℕ → List (ℕ × ℕ)
window_of none from to = []
window_of (some bodies) from to =
    take (partition_point (below to) bodies - partition_point (below from) bodies)
      (drop (partition_point (below from) bodies) bodies)

-- `Bodies::within`
unfoldable pub within : List (List (ℕ × ℕ)) → ℕ → ℕ → ℕ → List (ℕ × ℕ)
unfolding partition_point
within by_layer layer from to = window_of (get_elem? by_layer layer) from to
