-- ===== src/Plan/Removal.antt =====
-- `remove_under`: dropping what lies beneath a directory.
pub mod Order
pub mod Whole
pub mod Adjacent
pub mod LowerLayers
use rules_oci_runtime.Prelude.{
  ℕ, Bool, true, false, not, ◌&&◌, ◌||◌, Option, none, some, List, [], ◌∷◌, ◌++◌, Bytes, ◌==◌, ◌=b◌,
  if◌then◌else◌, map,
}
use mathlib.Core.List.{reverse}
use rules_oci_runtime.Fsutil.{slash, is_empty}
use rules_oci_runtime.OrderedMap.{OrderedMap, remove, range_from}
use rules_oci_runtime.Plan.Tree.{Node, Tree, root_entry, starts_with, names_itself}

pub data Removal : Type 0 where
  whole : Removal
  lower_layers : ℕ → Removal

-- The bound that everything under `dir` begins with.
abbrev pub bound_of : Bytes → Bytes
bound_of dir = if is_empty dir then [] else dir ++ (slash ∷ [])

-- `take_while(|path| path.starts_with(bound))`
unfoldable pub take_under : Bytes → Tree → Tree
take_under bound [] = []
take_under bound ((path, node) ∷ more) =
    let rest = take_under bound more in if starts_with path bound then (path, node) ∷ rest else []

-- `filter(|path| path != ROOT_ENTRY)`
unfoldable pub without_root : Tree → Tree
without_root [] = []
without_root ((path, node) ∷ more) =
    let rest = without_root more in if path =b root_entry then rest else (path, node) ∷ rest

unfoldable pub entries_under : Bytes → Tree → Tree
unfolding take_under without_root range_from starts_with
entries_under dir tree = without_root (take_under (bound_of dir) (range_from (bound_of dir) tree))

abbrev pub is_layer : Option ℕ → ℕ → Bool
is_layer none layer = false
is_layer (some l) layer = l == layer

abbrev pub holds : Bytes → Option Bytes → Bool
holds path none = false
holds path (some kept) = names_itself path kept

-- The loop of `Removal::LowerLayers`, over the paths deepest first. The last argument is the last
-- path that the layer named.
unfoldable pub lower_doomed : ℕ → Tree → Option Bytes → List Bytes
lower_doomed layer [] ours = []
lower_doomed layer ((path, node) ∷ more) ours =
    let mine = is_layer node.named_by layer in
    let rest = lower_doomed layer more (if mine then some path else ours) in
    if mine || holds path ours then rest else path ∷ rest

abbrev pub key_of : Bytes × Node → Bytes
key_of e = e.0

unfoldable pub doomed : Removal → Tree → List Bytes
unfolding lower_doomed names_itself
doomed whole entries = map key_of entries
doomed (lower_layers layer) entries = lower_doomed layer (reverse entries) none

unfoldable pub remove_all : List Bytes → Tree → Tree
unfolding remove
remove_all [] tree = tree
remove_all (path ∷ more) tree = remove_all more (remove path tree)

unfoldable pub remove_under : Tree → Bytes → Removal → Tree
unfolding entries_under doomed remove_all
remove_under tree dir removal = remove_all (doomed removal (entries_under dir tree)) tree
