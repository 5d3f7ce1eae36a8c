-- ===== src/Plan/Directories.antt =====
-- `directories`: the directories that the final tree needs.
pub mod Ancestors
pub mod Parents
use rules_oci_runtime.Prelude.{
  ℕ, Bool, true, false, not, ◌&&◌, ◌||◌, Option, none, some, List, [], ◌∷◌, Bytes, if◌then◌else◌,
}
use rules_oci_runtime.Entries.{directory}
use rules_oci_runtime.OrderedMap.{OrderedMap, get, insert, contains_key}
use rules_oci_runtime.Plan.Tree.{
  Node, Tree, same_kind, ancestors, behind_a_link, default_directory_mode,
}

-- The inner loop, over the ancestors of a path.
unfoldable pub want_ancestors : Tree → List Bytes → OrderedMap ℕ → OrderedMap ℕ
want_ancestors tree [] wanted = wanted
want_ancestors tree (a ∷ more) wanted = want_ancestors tree more (
    if contains_key a tree || contains_key a wanted || behind_a_link tree a
    then wanted
    else insert a default_directory_mode wanted)

unfoldable pub want : Tree → Bytes → Node → OrderedMap ℕ → OrderedMap ℕ
unfolding want_ancestors
want tree path node wanted = want_ancestors tree (ancestors path) (
    if same_kind node.kind directory && not (behind_a_link tree path)
    then insert path node.mode wanted
    else wanted)

-- The outer loop, over the tree.
unfoldable pub want_all : Tree → Tree → OrderedMap ℕ → OrderedMap ℕ
unfolding want
want_all tree [] wanted = wanted
want_all tree ((path, node) ∷ more) wanted = want_all tree more (want tree path node wanted)

unfoldable pub directories : Tree → OrderedMap ℕ
unfolding want_all
directories tree = want_all tree tree []
