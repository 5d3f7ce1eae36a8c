-- ===== src/Lazy/Build/Resolves.antt =====
-- The inode that `Tree::build` of source/src/lazy/tree.rs gives each path.
use rules_oci_runtime.Prelude.{
  ℕ, zero, suc, ◌≡◌, ◌⊎◌, inl, inr, refl, sym, ◌∙◌, Bool, true, false, Option, none, some, List, [],
  ◌∷◌, ◌++◌, Bytes, ◌=b◌, eq_of_=b, if◌then◌else◌, get_elem?, length,
}
use mathlib.Core.Path.{subst}
use mathlib.Core.Option.{some-injective}
use rules_oci_runtime.Entries.{Entry, Table}
use rules_oci_runtime.OrderedMap.{OrderedMap, get}
use rules_oci_runtime.OrderedMap.Laws.{get-insert}
use rules_oci_runtime.Plan.Tree.{root_entry}
use rules_oci_runtime.Plan.Placeable.{Work, and_then}
use rules_oci_runtime.Lazy.Tree.{
  Kind, directory, file, symlink, special, gone, Node, Tree, root, children_of, unless_gone,
  node_at, get_node, child_of, lookup, push, link, new_directory,
}
use rules_oci_runtime.Lazy.Build.{
  Building, split, attach, attach_split, link_under, if_linked, add, with_mode, build_directory,
  build_directories, add_file, build_files_of, files_in, build_files, in_table, add_symlink,
  build_symlinks, attach_found, add_hard_link, build_hard_links, start, build,
}
use rules_oci_runtime.Lazy.Build.Linked.{IsNamed, Resolves, lookup-push, linked-Resolves}

and_then_keeps :
    {A : Type 0} (P : A → Type 0) (o : Option A) (f : A → Option A) (b : A)
    → and_then o f ≡ some b
    → ((a : A) → o ≡ some a → P a)
    → ((a : A) → P a → f a ≡ some b → P b)
    → P b
and_then_keeps P none f b h first rest = cc
and_then_keeps P (some a) f b h first rest = rest a (first a refl) h

abbrev IsResolving : Building → Type 0
IsResolving b = Resolves b.tree b.by_path

retree :
    (t t' : Tree) (m : OrderedMap ℕ)
    → ((i : ℕ) (n : Bytes) → lookup t' i n ≡ lookup t i n)
    → Resolves t m
    → Resolves t' m
retree t t' m same res path ino h = go (res path ino h)
  where
    go :
        ((path ≡ root_entry) × (ino ≡ root)) ⊎ IsNamed t m path ino
        → ((path ≡ root_entry) × (ino ≡ root)) ⊎ IsNamed t' m path ino
    go (inl r) = inl r
    go (inr n) = inr (record {
      parent = n.parent;
      name = n.name;
      at = n.at;
      split = n.split;
      above = n.above;
      found = same n.at n.name ∙ n.found;
    })

attach-Resolves :
    (b b' : Building) (path : Bytes) (ino : ℕ)
    → attach b path ino ≡ some b'
    → IsResolving b
    → IsResolving b'
unfolding attach
attach-Resolves b b' path ino h res = at_split (split path) refl h
  where
    linked :
        (parent name : Bytes) (at : ℕ) (r : Bool × Tree)
        → split path ≡ some (parent, name)
        → get parent b.by_path ≡ some at
        → link b.tree at name ino ≡ r
        → if_linked path ino b r ≡ some b'
        → IsResolving b'
    linked parent name at (false, t) s a l k = cc
    linked parent name at (true, t) s a l k =
        subst IsResolving (some-injective _ _ k)
          (linked-Resolves b.tree t b.by_path path parent name at ino res s a l)

    at_parent :
        (parent name : Bytes) (o : Option ℕ)
        → split path ≡ some (parent, name)
        → get parent b.by_path ≡ o
        → link_under b path name ino o ≡ some b'
        → IsResolving b'
    at_parent parent name none s a k = cc
    at_parent parent name (some at) s a k =
        linked parent name at (link b.tree at name ino) s a refl k

    at_split :
        (o : Option (Bytes × Bytes))
        → split path ≡ o
        → attach_split b path ino o ≡ some b'
        → IsResolving b'
    at_split none s k = cc
    at_split (some (parent, name)) s k = at_parent parent name (get parent b.by_path) s refl k

-- A node that holds no name.
abbrev IsBare : Node → Type 0
IsBare node = (n : Bytes) → child_of n (children_of (unless_gone (some node))) ≡ none

new_directory-IsBare : (mode : ℕ) → IsBare (new_directory mode)
unfolding get
new_directory-IsBare mode n = refl

add-Resolves :
    (b b' : Building) (path : Bytes) (node : Node)
    → add b path node ≡ some b'
    → IsBare node
    → IsResolving b
    → IsResolving b'
unfolding add push
add-Resolves b b' path node h bare res =
    attach-Resolves (record b { tree = b.tree ++ (node ∷ []) }) b' path (suc (length b.tree)) h
      (retree b.tree (b.tree ++ (node ∷ [])) b.by_path (λ i n. lookup-push b.tree node i n (bare n))
        res)

lookup-with_mode :
    (mode : ℕ) (t : Tree) (i : ℕ) (n : Bytes) → lookup (with_mode mode t) i n ≡ lookup t i n
unfolding lookup get_node node_at
lookup-with_mode mode [] i n = refl
lookup-with_mode mode (node ∷ t) zero n = refl
lookup-with_mode mode (node ∷ t) (suc (suc i)) n = refl
lookup-with_mode mode (node ∷ t) (suc zero) n = at_kind node.kind
  where
    at_kind :
        (k : Kind)
        → child_of n (children_of (unless_gone (some (record node { kind = k; mode = mode }))))
          ≡ child_of n (children_of (unless_gone (some (record node { kind = k }))))
    at_kind (directory p c) = refl
    at_kind (file c) = refl
    at_kind (symlink l) = refl
    at_kind (special s) = refl
    at_kind gone = refl

build_directory-Resolves :
    (b b' : Building) (path : Bytes) (mode : ℕ)
    → build_directory b path mode ≡ some b'
    → IsResolving b
    → IsResolving b'
unfolding build_directory
build_directory-Resolves b b' path mode h res = either (path =b root_entry) h
  where
    either :
        (d : Bool)
        → (if d
            then some (record b { tree = with_mode mode b.tree })
            else add b path (new_directory mode))
          ≡ some b'
        → IsResolving b'
    either true k =
        subst IsResolving (some-injective (record b { tree = with_mode mode b.tree }) b' k)
          (retree b.tree (with_mode mode b.tree) b.by_path (lookup-with_mode mode b.tree) res)
    either false k = add-Resolves b b' path (new_directory mode) k (new_directory-IsBare mode) res

build_directories-Resolves :
    (directories : List (Bytes × ℕ)) (b b' : Building)
    → build_directories directories b ≡ some b'
    → IsResolving b
    → IsResolving b'
unfolding build_directories
build_directories-Resolves [] b b' h res = subst IsResolving (some-injective b b' h) res
build_directories-Resolves ((path, mode) ∷ more) b b' h res =
    and_then_keeps IsResolving (build_directory b path mode) (build_directories more) b' h
      (λ a e. build_directory-Resolves b a path mode e res)
      (λ a r e. build_directories-Resolves more a b' e r)

add_file-Resolves :
    (layer : ℕ) (o : Option Entry) (b b' : Building)
    → add_file layer b o ≡ some b'
    → IsResolving b
    → IsResolving b'
add_file-Resolves layer none b b' h res = cc
add_file-Resolves layer (some entry) b b' h res =
    and_then_keeps IsResolving _ _ b' h (λ a e. add-Resolves b a entry.path _ e (λ n. refl) res)
      (λ a r e. subst IsResolving (some-injective _ b' e) r)

build_files_of-Resolves :
    (layer : ℕ) (table : Table) (entries : List ℕ) (b b' : Building)
    → build_files_of layer table entries b ≡ some b'
    → IsResolving b
    → IsResolving b'
unfolding build_files_of
build_files_of-Resolves layer table [] b b' h res = subst IsResolving (some-injective b b' h) res
build_files_of-Resolves layer table (entry ∷ more) b b' h res =
    and_then_keeps IsResolving (add_file layer b (get_elem? table.entries entry))
      (build_files_of layer table more) b' h
      (λ a e. add_file-Resolves layer (get_elem? table.entries entry) b a e res)
      (λ a r e. build_files_of-Resolves layer table more a b' e r)

files_in-Resolves :
    (layer : ℕ) (o : Option Table) (entries : List ℕ) (b b' : Building)
    → files_in layer o entries b ≡ some b'
    → IsResolving b
    → IsResolving b'
files_in-Resolves layer none entries b b' h res = cc
files_in-Resolves layer (some table) entries b b' h res =
    and_then_keeps IsResolving (build_files_of layer table entries b) _ b' h
      (λ a e. build_files_of-Resolves layer table entries b a e res)
      (λ a r e. subst IsResolving (some-injective _ b' e) r)

build_files-Resolves :
    (tables : List Table) (layer : ℕ) (files : List (List ℕ)) (b b' : Building)
    → build_files tables layer files b ≡ some b'
    → IsResolving b
    → IsResolving b'
unfolding build_files
build_files-Resolves tables layer [] b b' h res = subst IsResolving (some-injective b b' h) res
build_files-Resolves tables layer (entries ∷ more) b b' h res =
    and_then_keeps IsResolving (files_in layer (get_elem? tables layer) entries b)
      (build_files tables (suc layer) more) b' h
      (λ a e. files_in-Resolves layer (get_elem? tables layer) entries b a e res)
      (λ a r e. build_files-Resolves tables (suc layer) more a b' e r)

add_symlink-Resolves :
    (o : Option Entry) (b b' : Building)
    → add_symlink b o ≡ some b'
    → IsResolving b
    → IsResolving b'
add_symlink-Resolves none b b' h res = cc
add_symlink-Resolves (some entry) b b' h res = add-Resolves b b' entry.path _ h (λ n. refl) res

build_symlinks-Resolves :
    (tables : List Table) (symlinks : List (ℕ × ℕ)) (b b' : Building)
    → build_symlinks tables symlinks b ≡ some b'
    → IsResolving b
    → IsResolving b'
unfolding build_symlinks
build_symlinks-Resolves tables [] b b' h res = subst IsResolving (some-injective b b' h) res
build_symlinks-Resolves tables ((layer, entry) ∷ more) b b' h res =
    and_then_keeps IsResolving (add_symlink b (in_table (get_elem? tables layer) entry))
      (build_symlinks tables more) b' h
      (λ a e. add_symlink-Resolves (in_table (get_elem? tables layer) entry) b a e res)
      (λ a r e. build_symlinks-Resolves tables more a b' e r)

add_hard_link-Resolves :
    (o : Option Entry) (b b' : Building)
    → add_hard_link b o ≡ some b'
    → IsResolving b
    → IsResolving b'
add_hard_link-Resolves none b b' h res = cc
add_hard_link-Resolves (some entry) b b' h res = found (get entry.link b.by_path) h
  where
    found : (o : Option ℕ) → attach_found b entry.path o ≡ some b' → IsResolving b'
    found none k = cc
    found (some target) k = attach-Resolves b b' entry.path target k res

build_hard_links-Resolves :
    (tables : List Table) (hard_links : List (ℕ × ℕ)) (b b' : Building)
    → build_hard_links tables hard_links b ≡ some b'
    → IsResolving b
    → IsResolving b'
unfolding build_hard_links
build_hard_links-Resolves tables [] b b' h res = subst IsResolving (some-injective b b' h) res
build_hard_links-Resolves tables ((layer, entry) ∷ more) b b' h res =
    and_then_keeps IsResolving (add_hard_link b (in_table (get_elem? tables layer) entry))
      (build_hard_links tables more) b' h
      (λ a e. add_hard_link-Resolves (in_table (get_elem? tables layer) entry) b a e res)
      (λ a r e. build_hard_links-Resolves tables more a b' e r)

start-Resolves : (work : Work) → IsResolving (start work)
unfolding start get
start-Resolves work path ino h =
    go (path =b root_entry) refl (sym (get-insert path root_entry root []) ∙ h)
  where
    go :
        (b : Bool)
        → (path =b root_entry) ≡ b
        → (if b then some root else get path []) ≡ some ino
        → ((path ≡ root_entry) × (ino ≡ root))
          ⊎ IsNamed (start work).tree (start work).by_path path ino
    go true e k = inl (eq_of_=b path root_entry e, sym (some-injective root ino k))
    go false e k = cc

-- When `Tree::build` gives a tree from directories, tables and planned work, every path that it has
-- given an inode is the root with the root's inode, or has a parent that also has an inode, from
-- which looking the path's own name up finds the path's inode.
pub build-Resolves :
    (directories : List (Bytes × ℕ)) (tables : List Table) (work : Work) (b : Building)
    → build directories tables work ≡ some b
    → Resolves b.tree b.by_path
unfolding build
build-Resolves directories tables work b h =
    and_then_keeps IsResolving (build_directories directories (start work)) _ b h
      (λ b₁ e. build_directories-Resolves directories (start work) b₁ e (start-Resolves work))
      λ b₁ r₁ k.
        and_then_keeps IsResolving (build_files tables 0 work.files b₁) _ b k
          (λ b₂ e. build_files-Resolves tables 0 work.files b₁ b₂ e r₁)
          λ b₂ r₂ k₂.
            and_then_keeps IsResolving (build_symlinks tables work.symlinks b₂) _ b k₂
              (λ b₃ e. build_symlinks-Resolves tables work.symlinks b₂ b₃ e r₂)
              (λ b₃ r₃ e. build_hard_links-Resolves tables work.hard_links b₃ b e r₃)
