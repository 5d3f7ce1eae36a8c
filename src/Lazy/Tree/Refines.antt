-- ===== src/Lazy/Tree/Refines.antt =====
-- The names of the tree of source/src/lazy/tree.rs as a function, and its operations on it.
use rules_oci_runtime.Prelude.{
  ℕ, ◌≡◌, refl, sym, ap, ◌∙◌, Bool, true, false, not, ◌&&◌, ◌||◌, Option, none, some, Bytes, ◌==◌,
  ==_iff, ◌=b◌, if◌then◌else◌,
}
use mathlib.Core.Path.{subst}
use mathlib.Core.Option.{some-injective}
use rules_oci_runtime.OrderedMap.{is_some}
use rules_oci_runtime.Lazy.Tree.{
  Kind, directory, file, symlink, special, gone, Node, Tree, is_directory, is_last, children,
  children_of, node_at, unless_gone, get_node, changed, change, child_of, lookup, add_child,
  drop_child, set_parent, one_more_link, one_link_less, set_gone, is_live_directory, lacks,
  count_link, link, detach_from, detach_found, detach, unlink_node, unlink_detached, unlink,
  if_linked, rename_detached, rename,
}
use rules_oci_runtime.Lazy.Tree.Views.{
  map_changed, get_node-change, lookup-change, lookup-add_child, lookup-drop_child,
  one_more_link-KeepsChildren, one_link_less-KeepsChildren, set_parent-KeepsChildren,
}

-- What each directory holds, by its inode and the name.
abbrev pub Names : Type 0
Names = ℕ → Bytes → Option ℕ

-- One name, changed.
abbrev pub update : Names → ℕ → Bytes → Option ℕ → Names
update names parent name value i n = if i == parent && n =b name then value else names i n

lacks-is_live_directory :
    (name : Bytes) (o : Option Node)
    → lacks name (children_of o) ≡ true
    → is_live_directory o ≡ true
lacks-is_live_directory name none h = cc
lacks-is_live_directory name (some node) h = go node.kind h
  where
    go : (k : Kind) → lacks name (children k) ≡ true → is_directory k ≡ true
    go (directory p c) h = refl
    go (file c) h = cc
    go (symlink t) h = cc
    go (special s) h = cc
    go gone h = cc

pub link-lookup :
    (tree tree' : Tree) (parent : ℕ) (name : Bytes) (ino : ℕ)
    → link tree parent name ino ≡ (true, tree')
    → (i : ℕ) (n : Bytes) → lookup tree' i n ≡ update (lookup tree) parent name (some ino) i n
unfolding link
link-lookup tree tree' parent name ino h i n =
    named (lacks name (children_of (get_node tree parent))) refl h
  where
    added : Tree
    added = change parent (add_child name ino) tree

    counted :
        (o : Option Node)
        → count_link parent ino o added ≡ (true, tree')
        → lookup tree' i n ≡ lookup added i n
    counted none k = cc
    counted (some node) k = at_kind (is_directory node.kind) k
      where
        at_kind :
            (d : Bool)
            → ◌≡◌ {A = Bool × Tree}
                (if d
                  then (
                    is_some (get_node (change ino (set_parent parent) added) parent),
                    change parent one_more_link (change ino (set_parent parent) added),
                  )
                  else (true, change ino one_more_link added))
                (true, tree')
            → lookup tree' i n ≡ lookup added i n
        at_kind true k =
            ap (λ t. lookup t i n) (sym (ap (λ (r : Bool × Tree). r.1) k))
            ∙ lookup-change parent i one_more_link (change ino (set_parent parent) added) n
                one_more_link-KeepsChildren
            ∙ lookup-change ino i (set_parent parent) added n (set_parent-KeepsChildren parent)
        at_kind false k =
            ap (λ t. lookup t i n) (sym (ap (λ (r : Bool × Tree). r.1) k))
            ∙ lookup-change ino i one_more_link added n one_more_link-KeepsChildren

    named :
        (b : Bool)
        → lacks name (children_of (get_node tree parent)) ≡ b
        → ◌≡◌ {A = Bool × Tree}
            (if b then count_link parent ino (get_node added ino) added else (false, tree))
            (true, tree')
        → lookup tree' i n ≡ update (lookup tree) parent name (some ino) i n
    named false e k = cc
    named true e k =
        counted (get_node added ino) k
        ∙ lookup-add_child parent i ino name n tree
            (lacks-is_live_directory name (get_node tree parent) e)

pub detach-lookup :
    (tree tree' : Tree) (parent : ℕ) (name : Bytes) (ino : ℕ)
    → detach tree parent name ≡ (some ino, tree')
    → (lookup tree parent name ≡ some ino)
      × ((i : ℕ) (n : Bytes) → lookup tree' i n ≡ update (lookup tree) parent name none i n)
unfolding detach
detach-lookup tree tree' parent name ino h = found (lookup tree parent name) refl h
  where
    from :
        (j : ℕ) (o : Option Node)
        → lookup tree parent name ≡ some j
        → detach_from tree parent name j o ≡ (some ino, tree')
        → (lookup tree parent name ≡ some ino)
          × ((i : ℕ) (n : Bytes) → lookup tree' i n ≡ update (lookup tree) parent name none i n)
    from j none e k = cc
    from j (some node) e k = (
      e ∙ ap (λ (r : Option ℕ × Tree). r.0) k,
      λ i n.
          ap (λ t. lookup t i n) (sym (ap (λ (r : Option ℕ × Tree). r.1) k))
          ∙ lookup-change _ i one_link_less (change parent (drop_child name) tree) n
              one_link_less-KeepsChildren
          ∙ lookup-drop_child parent i name n tree,
    )

    found :
        (o : Option ℕ)
        → lookup tree parent name ≡ o
        → detach_found tree parent name o ≡ (some ino, tree')
        → (lookup tree parent name ≡ some ino)
          × ((i : ℕ) (n : Bytes) → lookup tree' i n ≡ update (lookup tree) parent name none i n)
    found none e k = cc
    found (some j) e k = from j (get_node tree j) e k

-- An inode that is gone holds nothing.
lookup-set_gone :
    (ino i : ℕ) (n : Bytes) (tree : Tree)
    → ((m : Bytes) → lookup tree ino m ≡ none)
    → lookup (change ino set_gone tree) i n ≡ lookup tree i n
unfolding lookup get_node
lookup-set_gone ino i n tree nothing =
    ap (λ o. child_of n (children_of o)) (get_node-change ino i set_gone tree)
    ∙ go (i == ino) (node_at tree i) (λ e. rw ((==_iff i ino).0 e) (nothing n))
    ∙ sym (lookup-unfold i n)
  where
    lookup-unfold :
        (i : ℕ) (n : Bytes)
        → lookup tree i n ≡ child_of n (children_of (unless_gone (node_at tree i)))
    lookup-unfold i n = refl

    at_kind :
        (k : Kind) (mode mtime nlink : ℕ) (x : Option ℕ)
        → child_of n (
            children_of (
              unless_gone (
                some (
                  changed set_gone
                    (record { kind = k; mode = mode; mtime = mtime; nlink = nlink })))))
          ≡ none
    at_kind (directory p c) mode mtime nlink x = refl
    at_kind (file c) mode mtime nlink x = refl
    at_kind (symlink t) mode mtime nlink x = refl
    at_kind (special s) mode mtime nlink x = refl
    at_kind gone mode mtime nlink x = refl

    go :
        (b : Bool) (o : Option Node)
        → (b ≡ true → child_of n (children_of (unless_gone o)) ≡ none)
        → child_of n
            (children_of (if b then unless_gone (map_changed set_gone o) else unless_gone o))
          ≡ child_of n (children_of (unless_gone o))
    go false o l = refl
    go true none l = refl
    go true (some node) l = at_kind node.kind node.mode node.mtime node.nlink none ∙ sym (l refl)

pub unlink-lookup :
    (tree tree' : Tree) (parent : ℕ) (name : Bytes) (ino : ℕ) (last : Bool)
    → unlink tree parent name ≡ (some (ino, last), tree')
    → ((m : Bytes) → lookup tree ino m ≡ none)
    → (lookup tree parent name ≡ some ino)
      × ((i : ℕ) (n : Bytes) → lookup tree' i n ≡ update (lookup tree) parent name none i n)
unfolding unlink
unlink-lookup tree tree' parent name ino last h nothing = detached (detach tree parent name) refl h
  where
    still :
        (tree₁ : Tree)
        → ((i : ℕ) (n : Bytes) → lookup tree₁ i n ≡ update (lookup tree) parent name none i n)
        → (m : Bytes) → lookup tree₁ ino m ≡ none
    still tree₁ f m = f ino m ∙ either (ino == parent && m =b name)
      where
        either : (b : Bool) → (if b then none else lookup tree ino m) ≡ none
        either true = refl
        either false = nothing m

    node :
        (tree₁ : Tree) (o : Option Node)
        → ((i : ℕ) (n : Bytes) → lookup tree₁ i n ≡ update (lookup tree) parent name none i n)
        → unlink_node ino o tree₁ ≡ (some (ino, last), tree')
        → (i : ℕ) (n : Bytes) → lookup tree' i n ≡ update (lookup tree) parent name none i n
    node tree₁ none f k = cc
    node tree₁ (some a) f k = λ i n.
        ap (λ t. lookup t i n) (sym (ap (λ (r : Option (ℕ × Bool) × Tree). r.1) k))
        ∙ either (is_last a) i n
        ∙ f i n
      where
        either :
            (b : Bool) (i : ℕ) (n : Bytes)
            → lookup (if b then change ino set_gone tree₁ else tree₁) i n ≡ lookup tree₁ i n
        either true i n = lookup-set_gone ino i n tree₁ (still tree₁ f)
        either false i n = refl

    same_ino :
        (tree₁ : Tree) (j : ℕ) (o : Option Node)
        → unlink_node j o tree₁ ≡ (some (ino, last), tree')
        → j ≡ ino
    same_ino tree₁ j none k = cc
    same_ino tree₁ j (some a) k =
        ap (λ (r : ℕ × Bool). r.0)
          (some-injective (j, is_last a) (ino, last) (ap (λ (r : Option (ℕ × Bool) × Tree). r.0) k))

    detached :
        (r : Option ℕ × Tree)
        → detach tree parent name ≡ r
        → unlink_detached r ≡ (some (ino, last), tree')
        → (lookup tree parent name ≡ some ino)
          × ((i : ℕ) (n : Bytes) → lookup tree' i n ≡ update (lookup tree) parent name none i n)
    detached (none, tree₁) e k = cc
    detached (some j, tree₁) e k =
        let same = same_ino tree₁ j (get_node tree₁ j) k in
        let f = detach-lookup tree tree₁ parent name ino (e ∙ ap (λ x. (some x, tree₁)) same) in
        (
          f.0,
          node tree₁ (get_node tree₁ ino) f.1 (
              subst (λ x. unlink_node x (get_node tree₁ x) tree₁ ≡ (some (ino, last), tree')) same
                k),
        )

pub rename-lookup :
    (tree tree' : Tree) (parent : ℕ) (name : Bytes) (new_parent : ℕ) (new_name : Bytes) (ino : ℕ)
    → rename tree parent name new_parent new_name ≡ (some ino, tree')
    → (lookup tree parent name ≡ some ino)
      × ((i : ℕ) (n : Bytes)
          → lookup tree' i n
            ≡ update (update (lookup tree) parent name none) new_parent new_name (some ino) i n)
unfolding rename
rename-lookup tree tree' parent name new_parent new_name ino h =
    guarded
      (not (is_live_directory (get_node tree new_parent))
        || (is_some (lookup tree new_parent new_name) || not (is_some (lookup tree parent name))))
      h
  where
    linked :
        (tree₁ : Tree) (j : ℕ) (r : Bool × Tree)
        → detach tree parent name ≡ (some j, tree₁)
        → link tree₁ new_parent new_name j ≡ r
        → if_linked j r ≡ (some ino, tree')
        → (lookup tree parent name ≡ some ino)
          × ((i : ℕ) (n : Bytes)
              → lookup tree' i n
                ≡ update (update (lookup tree) parent name none) new_parent new_name (some ino) i n)
    linked tree₁ j (false, tree₂) d e k = cc
    linked tree₁ j (true, tree₂) d e k =
        let same : j ≡ ino = some-injective j ino (ap (λ (r : Option ℕ × Tree). r.0) k) in
        let last : tree₂ ≡ tree' = ap (λ (r : Option ℕ × Tree). r.1) k in
        let f = detach-lookup tree tree₁ parent name ino (d ∙ ap (λ x. (some x, tree₁)) same) in
        let g =
          link-lookup tree₁ tree' new_parent new_name ino
            (ap (link tree₁ new_parent new_name) (sym same) ∙ e ∙ ap (λ t. (true, t)) last) in
        (
          f.0,
          λ i n.
              g i n ∙ ap (λ x. if i == new_parent && n =b new_name then some ino else x) (f.1 i n),
        )

    detached :
        (r : Option ℕ × Tree)
        → detach tree parent name ≡ r
        → rename_detached new_parent new_name r ≡ (some ino, tree')
        → (lookup tree parent name ≡ some ino)
          × ((i : ℕ) (n : Bytes)
              → lookup tree' i n
                ≡ update (update (lookup tree) parent name none) new_parent new_name (some ino) i n)
    detached (none, tree₁) d k = cc
    detached (some j, tree₁) d k = linked tree₁ j (link tree₁ new_parent new_name j) d refl k

    guarded :
        (b : Bool)
        → ◌≡◌ {A = Option ℕ × Tree}
            (if b
              then (none, tree)
              else rename_detached new_parent new_name (detach tree parent name))
            (some ino, tree')
        → (lookup tree parent name ≡ some ino)
          × ((i : ℕ) (n : Bytes)
              → lookup tree' i n
                ≡ update (update (lookup tree) parent name none) new_parent new_name (some ino) i n)
    guarded true k = cc
    guarded false k = detached (detach tree parent name) refl k
