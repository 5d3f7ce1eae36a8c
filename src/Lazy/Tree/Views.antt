-- ===== src/Lazy/Tree/Views.antt =====
-- What a lookup finds in the tree of source/src/lazy/tree.rs after a change of one node.
use rules_oci_runtime.Prelude.{
  ℕ, zero, suc, ◌≡◌, refl, sym, ap, ◌∙◌, Bool, true, false, ◌&&◌, Option, none, some, [], ◌∷◌,
  Bytes, ◌==◌, ◌=b◌, if◌then◌else◌, get_elem?, ==_iff, arith,
}
use mathlib.Core.Path.{subst}
use rules_oci_runtime.OrderedMap.Laws.{get-insert, get-remove}
use rules_oci_runtime.Lazy.Tree.{
  Kind, directory, file, symlink, special, gone, Node, Tree, children_of, node_at, unless_gone,
  get_node, changed, change_at, change, child_of, lookup, add_child, drop_child, set_parent,
  one_more_link, one_link_less, is_live_directory,
}

abbrev pub map_changed : (Node → Node) → Option Node → Option Node
map_changed f none = none
map_changed f (some node) = some (changed f node)

==_suc : (a b : ℕ) → (suc a == suc b) ≡ (a == b)
==_suc a b = ground arith

get_elem?-change_at :
    (at i : ℕ) (f : Node → Node) (tree : Tree)
    → get_elem? (change_at at f tree) i
      ≡ (if i == at then map_changed f (get_elem? tree i) else get_elem? tree i)
unfolding change_at
get_elem?-change_at at i f [] = ground arith
get_elem?-change_at zero zero f (node ∷ tree) = refl
get_elem?-change_at zero (suc i) f (node ∷ tree) = ground arith
get_elem?-change_at (suc at) zero f (node ∷ tree) = ground arith
get_elem?-change_at (suc at) (suc i) f (node ∷ tree) =
    rw (==_suc i at) (get_elem?-change_at at i f tree)

pub get_node-change :
    (ino i : ℕ) (f : Node → Node) (tree : Tree)
    → get_node (change ino f tree) i
      ≡ (if i == ino then unless_gone (map_changed f (node_at tree i)) else get_node tree i)
unfolding get_node change node_at
get_node-change zero zero f tree = refl
get_node-change zero (suc i) f tree = ground arith
get_node-change (suc at) zero f tree = ground arith
get_node-change (suc at) (suc i) f tree =
    rw (get_elem?-change_at at i f tree, ==_suc i at) (go (i == at))
  where
    go :
        (b : Bool)
        → unless_gone (if b then map_changed f (get_elem? tree i) else get_elem? tree i) ≡ (
            if b
            then unless_gone (map_changed f (get_elem? tree i))
            else unless_gone (get_elem? tree i))
    go true = refl
    go false = refl

-- A change that leaves the children of every node as they are.
abbrev pub KeepsChildren : (Node → Node) → Type 0
KeepsChildren f =
    (node : Node)
    → children_of (unless_gone (some (changed f node))) ≡ children_of (unless_gone (some node))

pub one_more_link-KeepsChildren : KeepsChildren one_more_link
one_more_link-KeepsChildren node = go node.kind
  where
    go :
        (k : Kind)
        → children_of (unless_gone (some (changed one_more_link (record node { kind = k }))))
          ≡ children_of (unless_gone (some (record node { kind = k })))
    go (directory p c) = refl
    go (file c) = refl
    go (symlink t) = refl
    go (special s) = refl
    go gone = refl

pub one_link_less-KeepsChildren : KeepsChildren one_link_less
one_link_less-KeepsChildren node = go node.kind
  where
    go :
        (k : Kind)
        → children_of (unless_gone (some (changed one_link_less (record node { kind = k }))))
          ≡ children_of (unless_gone (some (record node { kind = k })))
    go (directory p c) = refl
    go (file c) = refl
    go (symlink t) = refl
    go (special s) = refl
    go gone = refl

pub set_parent-KeepsChildren : (parent : ℕ) → KeepsChildren (set_parent parent)
set_parent-KeepsChildren parent node = go node.kind
  where
    go :
        (k : Kind)
        → children_of (unless_gone (some (changed (set_parent parent) (record node { kind = k }))))
          ≡ children_of (unless_gone (some (record node { kind = k })))
    go (directory p c) = refl
    go (file c) = refl
    go (symlink t) = refl
    go (special s) = refl
    go gone = refl

pub lookup-change :
    (ino i : ℕ) (f : Node → Node) (tree : Tree) (name : Bytes)
    → KeepsChildren f
    → lookup (change ino f tree) i name ≡ lookup tree i name
unfolding lookup get_node
lookup-change ino i f tree name k =
    ap (λ o. child_of name (children_of o)) (get_node-change ino i f tree)
    ∙ go (i == ino) (node_at tree i)
  where
    go :
        (b : Bool) (o : Option Node)
        → child_of name (children_of (if b then unless_gone (map_changed f o) else unless_gone o))
          ≡ child_of name (children_of (unless_gone o))
    go false o = refl
    go true none = refl
    go true (some node) = ap (child_of name) (k node)

-- The lookup after a name is added to a directory.
pub lookup-add_child :
    (parent i ino : ℕ) (name n : Bytes) (tree : Tree)
    → is_live_directory (get_node tree parent) ≡ true
    → lookup (change parent (add_child name ino) tree) i n
      ≡ (if i == parent && n =b name then some ino else lookup tree i n)
unfolding lookup get_node
lookup-add_child parent i ino name n tree d =
    ap (λ o. child_of n (children_of o)) (get_node-change parent i (add_child name ino) tree)
    ∙ go (i == parent) (node_at tree i) (λ e.
      subst (λ j. is_live_directory (get_node tree j) ≡ true) (sym ((==_iff i parent).0 e)) d)
  where
    at_kind :
        (k : Kind) (mode mtime nlink : ℕ)
        → is_live_directory
            (unless_gone (some (record { kind = k; mode = mode; mtime = mtime; nlink = nlink })))
          ≡ true
        → child_of n (
            children_of (
              unless_gone (
                some (
                  changed
                    (add_child name ino)
                    (record { kind = k; mode = mode; mtime = mtime; nlink = nlink })))))
          ≡ (if n =b name
              then some ino
              else child_of n (
                  children_of (
                    unless_gone
                      (some (record { kind = k; mode = mode; mtime = mtime; nlink = nlink })))))
    at_kind (directory p c) mode mtime nlink l = get-insert n name ino c
    at_kind (file c) mode mtime nlink l = cc
    at_kind (symlink t) mode mtime nlink l = cc
    at_kind (special s) mode mtime nlink l = cc
    at_kind gone mode mtime nlink l = cc

    go :
        (b : Bool) (o : Option Node)
        → (b ≡ true → is_live_directory (unless_gone o) ≡ true)
        → child_of n (
            children_of
              (if b then unless_gone (map_changed (add_child name ino) o) else unless_gone o))
          ≡ (if b && n =b name then some ino else child_of n (children_of (unless_gone o)))
    go false o l = refl
    go true none l = cc (l refl)
    go true (some node) l = at_kind node.kind node.mode node.mtime node.nlink (l refl)

pub lookup-drop_child :
    (parent i : ℕ) (name n : Bytes) (tree : Tree)
    → lookup (change parent (drop_child name) tree) i n
      ≡ (if i == parent && n =b name then none else lookup tree i n)
unfolding lookup get_node
lookup-drop_child parent i name n tree =
    ap (λ o. child_of n (children_of o)) (get_node-change parent i (drop_child name) tree)
    ∙ go (i == parent) (node_at tree i)
  where
    at_kind :
        (k : Kind) (mode mtime nlink : ℕ)
        → child_of n (
            children_of (
              unless_gone (
                some (
                  changed
                    (drop_child name)
                    (record { kind = k; mode = mode; mtime = mtime; nlink = nlink })))))
          ≡ (if n =b name
              then none
              else child_of n (
                  children_of (
                    unless_gone
                      (some (record { kind = k; mode = mode; mtime = mtime; nlink = nlink })))))
    at_kind (directory p c) mode mtime nlink = get-remove n name c
    at_kind (file c) mode mtime nlink = ground arith
    at_kind (symlink t) mode mtime nlink = ground arith
    at_kind (special s) mode mtime nlink = ground arith
    at_kind gone mode mtime nlink = ground arith

    go :
        (b : Bool) (o : Option Node)
        → child_of n (
            children_of
              (if b then unless_gone (map_changed (drop_child name) o) else unless_gone o))
          ≡ (if b && n =b name then none else child_of n (children_of (unless_gone o)))
    go false o = refl
    go true none = ground arith
    go true (some node) = at_kind node.kind node.mode node.mtime node.nlink
