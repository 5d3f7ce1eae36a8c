-- ===== src/Plan/Placeable/Complete.antt =====
-- What a work says of the tree (`placeable` of source/src/extract/plan.rs).
use rules_oci_runtime.Prelude.{
  ℕ, zero, suc, ◌<◌, ◌≡◌, refl, ap, Option, none, some, List, [], ◌∷◌, All, length, arith,
}
use mathlib.Core.Option.{some-injective}
use mathlib.Core.Path.{subst}
use rules_oci_runtime.Entries.{
  Kind, file, directory, symlink, hard_link, sparse, unsupported, Entry, Table,
}
use rules_oci_runtime.Plan.Tree.{Tree, entry_at}
use rules_oci_runtime.Plan.Replay.{replay}
use rules_oci_runtime.Plan.Replay.Owners.{Owned, replay-All-Owned}
use rules_oci_runtime.Plan.Placeable.{
  Work, pair_lt, place_nodes, and_then, sorted_work, no_files, placeable,
}
use rules_oci_runtime.Plan.Placeable.Members.{IsPlaced, Among-sort, FileIn-sort_files}
use rules_oci_runtime.Plan.Placeable.Kinds.{Accounted, place_nodes-Accounted}

length-no_files : (tables : List Table) → length (no_files tables) ≡ length tables
length-no_files [] = refl
length-no_files (t ∷ ts) = ap suc (length-no_files ts)

in_range :
    (tables : List Table) (owner : ℕ × ℕ) (entry : Entry)
    → entry_at tables owner ≡ some entry
    → owner.0 < length tables
unfolding entry_at
in_range [] (zero, e) entry h = cc
in_range [] (suc l, e) entry h = cc
in_range (t ∷ ts) (zero, e) entry h = omega arith
in_range (t ∷ ts) (suc l, e) entry h = let r = in_range ts (l, e) entry h in omega arith

All-in_range :
    (tables : List Table) (tree : Tree)
    → All (Owned tables) tree
    → All (λ x. x.1.owner.0 < length (no_files tables)) tree
All-in_range tables [] a = tt
All-in_range tables (x ∷ more) a = (
  rw (length-no_files tables) (in_range tables x.1.owner a.0.entry a.0.found),
  All-in_range tables more a.1,
)

sorted-IsPlaced :
    (tree : Tree) (tables : List Table) (w : Work) (k : Kind) (owner : ℕ × ℕ)
    → IsPlaced tree tables w k owner
    → IsPlaced tree tables (sorted_work tables w) k owner
sorted-IsPlaced tree tables w file o p = FileIn-sort_files tables o.0 o.1 0 w.files p
sorted-IsPlaced tree tables w directory o p = p
sorted-IsPlaced tree tables w symlink o p = p
sorted-IsPlaced tree tables w hard_link o p = (Among-sort pair_lt o w.hard_links p.0, p.1)
sorted-IsPlaced tree tables w sparse o p = p
sorted-IsPlaced tree tables w unsupported o p = p

sorted-Accounted :
    (tree : Tree) (tables : List Table) (w : Work) (m : Tree)
    → All (Accounted tree tables w) m
    → All (Accounted tree tables (sorted_work tables w)) m
sorted-Accounted tree tables w [] a = tt
sorted-Accounted tree tables w (x ∷ m) a = (
  (a.0.0, sorted-IsPlaced tree tables w x.1.kind x.1.owner a.0.1),
  sorted-Accounted tree tables w m a.1,
)

-- When the work of a replayed image is made, it accounts for every path of its tree: no path lies
-- behind a link, a file's entry is among the files of its layer, a symlink's among the symlinks, a
-- hard link's among the hard links with its target in the tree, behind no link and placed no
-- later, and nothing sparse is left.
pub placeable-Accounted :
    (tables : List Table) (work : Work)
    → placeable (replay tables).tree tables ≡ some work
    → All (Accounted (replay tables).tree tables work) (replay tables).tree
unfolding placeable
placeable-Accounted tables work h = go (place_nodes tree tables tree start) refl h
  where
    tree : Tree
    tree = (replay tables).tree

    start : Work
    start = record { files = no_files tables; symlinks = []; hard_links = [] }

    go :
        (o : Option Work)
        → place_nodes tree tables tree start ≡ o
        → and_then o (λ work. some (sorted_work tables work)) ≡ some work
        → All (Accounted tree tables work) tree
    go none e k = cc
    go (some w) e k =
        subst (λ x. All (Accounted tree tables x) tree) (some-injective _ work k)
          (sorted-Accounted tree tables w tree
            (place_nodes-Accounted tree tables tree start w
              (All-in_range tables tree (replay-All-Owned tables)) e).0)
