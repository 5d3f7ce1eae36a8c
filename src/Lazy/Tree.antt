-- ===== src/Lazy/Tree.antt =====
-- The inodes of a served image, source/src/lazy/tree.rs. A mutation gives the tree it leaves and
-- whether the source's `Option` is `Some`: a `None` part way through leaves what was done so far.
pub mod Views
pub mod Refines
pub mod Steps
use rules_oci_runtime.Prelude.{
  ℕ, zero, suc, ◌+◌, ◌-◌, Bool, true, false, not, ◌&&◌, ◌||◌, Option, none, some, List, [], ◌∷◌,
  ◌++◌, Bytes, ◌==◌, if◌then◌else◌, get_elem?, length,
}
use rules_oci_runtime.OrderedMap.{OrderedMap, get, insert, remove, contains_key, is_some}

-- `ROOT`
abbrev pub root : ℕ
root = 1

pub record Body : Type 0 where
  pub layer : ℕ
  pub offset : ℕ
  pub size : ℕ
  pub sha256 : Option Bytes

pub data Content : Type 0 where
  in_layer : Body → Content
  -- an open object of the content store, by its handle, and its size
  object : ℕ → ℕ → Content
  backed : Content

pub data Special : Type 0 where
  fifo socket : Special

pub data Kind : Type 0 where
  -- parent, children
  directory : ℕ → OrderedMap ℕ → Kind
  file : Content → Kind
  symlink : Bytes → Kind
  special : Special → Kind
  gone : Kind

pub record Node : Type 0 where
  pub kind : Kind
  pub mode : ℕ
  pub mtime : ℕ
  pub nlink : ℕ

abbrev pub new_directory : ℕ → Node
new_directory mode = record { kind = directory root []; mode = mode; mtime = 0; nlink = 2 }

abbrev pub new_file : Content → ℕ → ℕ → Node
new_file content mode mtime = record { kind = file content; mode = mode; mtime = mtime; nlink = 0 }

abbrev pub new_symlink : Bytes → ℕ → Node
new_symlink target mtime = record { kind = symlink target; mode = 0o777; mtime = mtime; nlink = 0 }

abbrev pub new_special : Special → ℕ → ℕ → Node
new_special kind mode mtime = record { kind = special kind; mode = mode; mtime = mtime; nlink = 0 }

abbrev pub is_directory : Kind → Bool
is_directory (directory parent entries) = true
is_directory (file content) = false
is_directory (symlink target) = false
is_directory (special kind) = false
is_directory gone = false

abbrev pub is_gone : Kind → Bool
is_gone (directory parent entries) = false
is_gone (file content) = false
is_gone (symlink target) = false
is_gone (special kind) = false
is_gone gone = true

-- `Node::children`
abbrev pub children : Kind → Option (OrderedMap ℕ)
children (directory parent entries) = some entries
children (file content) = none
children (symlink target) = none
children (special kind) = none
children gone = none

abbrev pub children_of : Option Node → Option (OrderedMap ℕ)
children_of none = none
children_of (some node) = children node.kind

-- `Tree`: the node of an inode stands at its number less one.
abbrev pub Tree : Type 0
Tree = List Node

-- `nodes.get(ino.checked_sub(1)?)`
unfoldable pub node_at : Tree → ℕ → Option Node
node_at tree zero = none
node_at tree (suc at) = get_elem? tree at

abbrev pub unless_gone : Option Node → Option Node
unless_gone none = none
unless_gone (some node) = if is_gone node.kind then none else some node

-- `Tree::get`
unfoldable pub get_node : Tree → ℕ → Option Node
unfolding node_at
get_node tree ino = unless_gone (node_at tree ino)

abbrev pub changed : (Node → Node) → Node → Node
changed f node = if is_gone node.kind then node else f node

unfoldable pub change_at : ℕ → (Node → Node) → Tree → Tree
change_at at f [] = []
change_at zero f (node ∷ tree) = changed f node ∷ tree
change_at (suc at) f (node ∷ tree) = node ∷ change_at at f tree

-- A change through `Tree::get_mut`, which a node that is gone or absent does not take.
unfoldable pub change : ℕ → (Node → Node) → Tree → Tree
unfolding change_at
change zero f tree = tree
change (suc at) f tree = change_at at f tree

abbrev pub child_of : Bytes → Option (OrderedMap ℕ) → Option ℕ
child_of name none = none
child_of name (some entries) = get name entries

unfoldable pub lookup : Tree → ℕ → Bytes → Option ℕ
unfolding get_node
lookup tree parent name = child_of name (children_of (get_node tree parent))

unfoldable pub push : Tree → Node → ℕ × Tree
push tree node = (suc (length tree), tree ++ (node ∷ []))

abbrev pub with_child : Bytes → ℕ → Kind → Kind
with_child name ino (directory parent entries) = directory parent (insert name ino entries)
with_child name ino (file content) = file content
with_child name ino (symlink target) = symlink target
with_child name ino (special kind) = special kind
with_child name ino gone = gone

abbrev pub without_child : Bytes → Kind → Kind
without_child name (directory parent entries) = directory parent (remove name entries)
without_child name (file content) = file content
without_child name (symlink target) = symlink target
without_child name (special kind) = special kind
without_child name gone = gone

abbrev pub under_parent : ℕ → Kind → Kind
under_parent at (directory parent entries) = directory at entries
under_parent at (file content) = file content
under_parent at (symlink target) = symlink target
under_parent at (special kind) = special kind
under_parent at gone = gone

abbrev pub add_child : Bytes → ℕ → Node → Node
add_child name ino node = record node { kind = with_child name ino node.kind }

abbrev pub drop_child : Bytes → Node → Node
drop_child name node = record node { kind = without_child name node.kind }

abbrev pub set_parent : ℕ → Node → Node
set_parent parent node = record node { kind = under_parent parent node.kind }

abbrev pub one_more_link : Node → Node
one_more_link node = record node { nlink = suc node.nlink }

abbrev pub one_link_less : Node → Node
one_link_less node = record node { nlink = node.nlink - 1 }

abbrev pub set_gone : Node → Node
set_gone node = record node { kind = gone }

abbrev pub lacks : Bytes → Option (OrderedMap ℕ) → Bool
lacks name none = false
lacks name (some entries) = not (contains_key name entries)

-- What `link` does once the name stands: the count of links, by what the inode is.
abbrev pub count_link : ℕ → ℕ → Option Node → Tree → Bool × Tree
count_link parent ino none tree = (false, tree)
count_link parent ino (some node) tree =
    if is_directory node.kind
    then (
      is_some (get_node (change ino (set_parent parent) tree) parent),
      change parent one_more_link (change ino (set_parent parent) tree),
    )
    else (true, change ino one_more_link tree)

unfoldable pub link : Tree → ℕ → Bytes → ℕ → Bool × Tree
unfolding get_node change
link tree parent name ino =
    if lacks name (children_of (get_node tree parent))
    then count_link parent ino (get_node (change parent (add_child name ino) tree) ino)
        (change parent (add_child name ino) tree)
    else (false, tree)

-- What `detach` found.
abbrev pub detach_from : Tree → ℕ → Bytes → ℕ → Option Node → Option ℕ × Tree
detach_from tree parent name ino none = (none, tree)
detach_from tree parent name ino (some node) = (
  some ino,
  change (if is_directory node.kind then parent else ino) one_link_less
      (change parent (drop_child name) tree),
)

abbrev pub detach_found : Tree → ℕ → Bytes → Option ℕ → Option ℕ × Tree
detach_found tree parent name none = (none, tree)
detach_found tree parent name (some ino) = detach_from tree parent name ino (get_node tree ino)

unfoldable pub detach : Tree → ℕ → Bytes → Option ℕ × Tree
unfolding lookup get_node change
detach tree parent name = detach_found tree parent name (lookup tree parent name)

-- Whether the inode has lost its last name.
abbrev pub is_last : Node → Bool
is_last node = is_directory node.kind || node.nlink == 0

abbrev pub unlink_node : ℕ → Option Node → Tree → Option (ℕ × Bool) × Tree
unlink_node ino none tree = (none, tree)
unlink_node ino (some node) tree =
    (some (ino, is_last node), if is_last node then change ino set_gone tree else tree)

abbrev pub unlink_detached : Option ℕ × Tree → Option (ℕ × Bool) × Tree
unlink_detached (none, tree) = (none, tree)
unlink_detached (some ino, tree) = unlink_node ino (get_node tree ino) tree

unfoldable pub unlink : Tree → ℕ → Bytes → Option (ℕ × Bool) × Tree
unfolding detach
unlink tree parent name = unlink_detached (detach tree parent name)

abbrev pub is_live_directory : Option Node → Bool
is_live_directory none = false
is_live_directory (some node) = is_directory node.kind

abbrev pub if_linked : ℕ → Bool × Tree → Option ℕ × Tree
if_linked ino (true, tree) = (some ino, tree)
if_linked ino (false, tree) = (none, tree)

abbrev pub rename_detached : ℕ → Bytes → Option ℕ × Tree → Option ℕ × Tree
rename_detached new_parent new_name (none, tree) = (none, tree)
rename_detached new_parent new_name (some ino, tree) =
    if_linked ino (link tree new_parent new_name ino)

unfoldable pub rename : Tree → ℕ → Bytes → ℕ → Bytes → Option ℕ × Tree
unfolding lookup get_node detach link
rename tree parent name new_parent new_name =
    if not (is_live_directory (get_node tree new_parent))
      || (is_some (lookup tree new_parent new_name) || not (is_some (lookup tree parent name)))
    then (none, tree)
    else rename_detached new_parent new_name (detach tree parent name)
