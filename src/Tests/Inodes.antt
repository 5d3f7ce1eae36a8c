-- ===== src/Tests/Inodes.antt =====
-- A small image served lazily, for source/src/lazy/tree.rs.
use rules_oci_runtime.Prelude.{
  ℕ, ◌≡◌, refl, true, none, some, Option, List, [], ◌∷◌, Bytes, codes, ◌=b◌,
}
use rules_oci_runtime.Entries.{hard_link, Table}
use rules_oci_runtime.OrderedMap.{get, insert, remove, contains_key}
use rules_oci_runtime.Plan.Placeable.{Work, pair_lt, sort, insert_sorted}
use rules_oci_runtime.Plan.Key.{lex}
use rules_oci_runtime.Tests.Images.{lower_table, an_entry}
use rules_oci_runtime.Lazy.Tree.{
  Tree, root, node_at, get_node, change, change_at, lookup, push, link, detach, unlink, rename,
  new_directory,
}
use rules_oci_runtime.Lazy.Tree.Steps.{
  Operation, linking, unlinking, renaming, by_link, by_unlink, by_rename, Steps, meanings,
  Steps-meanings,
}
use rules_oci_runtime.Lazy.Build.{
  Building, build, start, build_directory, build_directories, build_files, build_files_of,
  build_symlinks, build_hard_links, attach, add, split,
}
use rules_oci_runtime.Lazy.Build.Linked.{Resolves}
use rules_oci_runtime.Lazy.Build.Resolves.{build-Resolves}

-- A root and a directory that has no name yet.
abbrev two_nodes : Tree
two_nodes = new_directory 0o755 ∷ (new_directory 0o700 ∷ [])

abbrev linked_once : Tree
linked_once = (link two_nodes root (codes "a") 2).1

abbrev renamed_once : Tree
renamed_once = (rename linked_once root (codes "a") root (codes "b")).1

abbrev unlinked_again : Tree
unlinked_again = (unlink renamed_once root (codes "b")).1

abbrev three_operations : List Operation
three_operations =
    linking root (codes "a") 2
    ∷ (renaming root (codes "a") root (codes "b") ∷ (unlinking root (codes "b") ∷ []))

abbrev three_steps : Steps two_nodes three_operations unlinked_again
unfolding link get_node node_at change change_at get insert remove contains_key lookup detach unlink
    rename ◌=b◌ lex
three_steps = (
  linked_once,
  by_link root (codes "a") 2 linked_once refl,
  (
    renamed_once,
    by_rename root (codes "a") root (codes "b") 2 renamed_once refl,
    (unlinked_again, by_unlink root (codes "b") 2 true unlinked_again refl (λ m. refl), refl),
  ),
)

Steps-meanings_example : lookup unlinked_again ≡ meanings three_operations (lookup two_nodes)
Steps-meanings_example = Steps-meanings two_nodes unlinked_again three_operations three_steps

abbrev linking_table : Table
linking_table = record {
  layer = codes "two";
  entries = an_entry hard_link (codes "a/c") (codes "a/b") 0 ∷ [];
}

abbrev a_work : Work
a_work = record { files = (1 ∷ []) ∷ ([] ∷ []); symlinks = (0, 2) ∷ []; hard_links = (1, 0) ∷ [] }

abbrev the_directories : List (Bytes × ℕ)
the_directories = (codes ".", 0o755) ∷ ((codes "a", 0o750) ∷ [])

abbrev or_empty : Option Building → Building
or_empty (some b) = b
or_empty none = record { tree = []; by_path = []; bodies = [] }

abbrev built : Building
built = or_empty (build the_directories (lower_table ∷ (linking_table ∷ [])) a_work)

build-built : build the_directories (lower_table ∷ (linking_table ∷ [])) a_work ≡ some built
unfolding build start build_directories build_directory build_files build_files_of build_symlinks
    build_hard_links attach add split push link get_node node_at change change_at get insert remove
    contains_key lookup ◌=b◌ lex sort insert_sorted pair_lt
build-built = refl

build-Resolves_example : Resolves built.tree built.by_path
build-Resolves_example =
    build-Resolves the_directories (lower_table ∷ (linking_table ∷ [])) a_work built build-built
