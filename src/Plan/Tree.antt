-- ===== src/Plan/Tree.antt =====
-- The tree that the layers build between them, and what stands on the way to a path of it.
pub mod Kinds
use rules_oci_runtime.Prelude.{
  ℕ, suc, Bool, true, false, not, ◌&&◌, ◌||◌, Option, none, some, List, [], ◌∷◌, ◌++◌, Bytes, ◌==◌,
  ◌=b◌, if◌then◌else◌, get_elem?, length, take,
}
use rules_oci_runtime.Fsutil.{slash, is_empty, canonical_entry_path}
use rules_oci_runtime.Whiteout.{rposition, strip_prefix}
use rules_oci_runtime.Entries.{Kind, directory, symlink, hard_link, unsupported, code, Entry, Table}
use rules_oci_runtime.OrderedMap.{OrderedMap, get, or_insert, range_from, is_some}

-- `DEFAULT_DIRECTORY_MODE`, 0o755.
abbrev pub default_directory_mode : ℕ
default_directory_mode = 0o755

-- `ROOT_ENTRY`
abbrev pub root_entry : Bytes
root_entry = b'.' ∷ []

-- `==` on kinds
abbrev pub same_kind : Kind → Kind → Bool
same_kind a b = code a == code b

-- What the layers leave at a path.
pub record Node : Type 0 where
  pub kind : Kind
  -- the layer and the entry that placed it
  pub owner : ℕ × ℕ
  pub mode : ℕ
  -- the last layer with an entry naming the path
  pub named_by : Option ℕ

abbrev pub Tree : Type 0
Tree = OrderedMap Node

pub data Blocked : Type 0 where
  nothing through_a_symlink the_walk_stops_here : Blocked

-- `Blocked::worst`
unfoldable pub worst : Blocked → Blocked → Blocked
worst the_walk_stops_here _ = the_walk_stops_here
worst through_a_symlink the_walk_stops_here = the_walk_stops_here
worst through_a_symlink _ = through_a_symlink
worst nothing other = other

unfoldable pub starts_with : Bytes → Bytes → Bool
unfolding strip_prefix
starts_with xs prefix = is_some (strip_prefix prefix xs)

-- `target.get(path.len()) == Some(&b'/')`
abbrev pub is_slash : Option ℕ → Bool
is_slash none = false
is_slash (some c) = c == slash

-- True when `target` is something under `path`.
unfoldable pub under_itself : Bytes → Bytes → Bool
unfolding starts_with
under_itself path target = starts_with target path && is_slash (get_elem? target (length path))

unfoldable pub names_itself : Bytes → Bytes → Bool
unfolding under_itself
names_itself path target = target =b path || under_itself path target

-- Every strict ancestor of a path, shallowest first. The first argument is what was read of it.
unfoldable pub ancestors_from : Bytes → Bytes → List Bytes
ancestors_from read [] = []
ancestors_from read (x ∷ xs) =
    let rest = ancestors_from (read ++ (x ∷ [])) xs in
    if x == slash && not (is_empty read) then read ∷ rest else rest

unfoldable pub ancestors : Bytes → List Bytes
unfolding ancestors_from
ancestors path = ancestors_from [] path

-- What stands at a path, where it is not a directory.
abbrev pub blocks : Bytes → Option Node → Option (Bytes × Node)
blocks a none = none
blocks a (some node) = if same_kind node.kind directory then none else some (a, node)

abbrev pub or_else {ℓ} : {A : Type ℓ} → Option A → Option A → Option A
or_else (some a) b = some a
or_else none b = b

-- `find_map` over the ancestors.
unfoldable pub first_blocking : Tree → List Bytes → Option (Bytes × Node)
first_blocking tree [] = none
first_blocking tree (a ∷ more) = or_else (blocks a (get a tree)) (first_blocking tree more)

unfoldable pub blocked_by : Tree → Bytes → Option (Bytes × Node)
unfolding first_blocking ancestors
blocked_by tree path = first_blocking tree (ancestors path)

unfoldable pub behind_a_link : Tree → Bytes → Bool
unfolding blocked_by
behind_a_link tree path = is_some (blocked_by tree path)

abbrev pub in_table : Option Table → ℕ → Option Entry
in_table none entry = none
in_table (some table) entry = get_elem? table.entries entry

-- `tables[layer].entries[entry]`, which the source indexes.
unfoldable pub entry_at : List Table → ℕ × ℕ → Option Entry
entry_at tables (layer, entry) = in_table (get_elem? tables layer) entry

abbrev pub link_of : Option Entry → Bytes
link_of none = []
link_of (some entry) = entry.link

abbrev pub first_starts_with : Bytes → Tree → Bool
first_starts_with bound [] = false
first_starts_with bound ((path, node) ∷ more) = starts_with path bound

unfoldable pub holds_anything : Tree → Bytes → Bool
unfolding starts_with range_from
holds_anything tree dir =
    let bound = dir ++ (slash ∷ []) in first_starts_with bound (range_from bound tree)

-- The part of a relative target that stands before it: the link's directory with its slash.
abbrev pub up_to_slash : Bytes → Option ℕ → Bytes
up_to_slash path none = []
up_to_slash path (some at) = take (suc at) path

unfoldable pub target_base : Bytes → Bytes → Bytes
unfolding starts_with rposition
target_base path target =
    if starts_with target (slash ∷ []) then [] else up_to_slash path (rposition slash path)

abbrev pub directory_at : Tree → Bytes → Option Node → Option Bool
directory_at tree resolved none = some (holds_anything tree resolved)
directory_at tree resolved (some node) =
    if same_kind node.kind symlink then none else some (same_kind node.kind directory)

abbrev pub directory_of : Tree → Option Bytes → Option Bool
directory_of tree none = none
directory_of tree (some resolved) = directory_at tree resolved (get resolved tree)

-- Whether the symlink at `path` resolves to a directory; `none` where that cannot be said.
unfoldable pub resolves_to_a_directory : Tree → List Table → Bytes → Node → Option Bool
unfolding target_base entry_at holds_anything canonical_entry_path
resolves_to_a_directory tree tables path at =
    let target = link_of (entry_at tables at.owner) in
    directory_of tree (canonical_entry_path (target_base path target ++ target))

abbrev pub through : Option Bool → Blocked
through (some true) = through_a_symlink
through (some false) = the_walk_stops_here
through none = the_walk_stops_here

abbrev pub standing_in_the_way : Tree → List Table → Option (Bytes × Node) → Blocked
standing_in_the_way tree tables none = nothing
standing_in_the_way tree tables (some (ancestor, node)) =
    if same_kind node.kind symlink
    then through (resolves_to_a_directory tree tables ancestor node)
    else the_walk_stops_here

-- What stands between the walk and a path.
unfoldable pub under : Tree → List Table → Bytes → Blocked
unfolding blocked_by resolves_to_a_directory
under tree tables path = standing_in_the_way tree tables (blocked_by tree path)

abbrev pub is_nothing : Blocked → Bool
is_nothing nothing = true
is_nothing through_a_symlink = false
is_nothing the_walk_stops_here = false

-- Something stands there that a hard link can name.
abbrev pub linkable : Option Node → Bool
linkable none = false
linkable (some node) = not (same_kind node.kind directory || same_kind node.kind unsupported)

-- Whether a link entry names something that the walk can link to.
unfoldable pub links_somewhere : Tree → List Table → Entry → Blocked
unfolding under under_itself
links_somewhere tree tables entry =
    let is_link = same_kind entry.kind symlink || same_kind entry.kind hard_link in
    let refused =
      under_itself entry.path entry.link
      || not (is_nothing (under tree tables entry.link))
      || not (linkable (get entry.link tree)) in
    if is_link && is_empty entry.link
    then the_walk_stops_here
    else if same_kind entry.kind hard_link && refused
    then the_walk_stops_here
    else nothing

-- The loop of `ensure_parents`.
unfoldable pub ensure_all : Tree → List Bytes → ℕ × ℕ → Tree
ensure_all tree [] owner = tree
ensure_all tree (a ∷ more) owner =
    ensure_all
      (or_insert a
        (record { kind = directory; owner = owner; mode = default_directory_mode; named_by = none })
        tree)
      more owner

-- Records the directories that the walk makes to hold an entry.
unfoldable pub ensure_parents : Tree → Bytes → ℕ × ℕ → Tree
unfolding ensure_all
ensure_parents tree path owner = ensure_all tree (ancestors path) owner
