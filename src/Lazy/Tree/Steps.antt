-- ===== src/Lazy/Tree/Steps.antt =====
-- Any sequence of operations on the tree of source/src/lazy/tree.rs.
use rules_oci_runtime.Prelude.{ℕ, ◌≡◌, sym, ap, ◌∙◌, Bool, true, none, some, List, [], ◌∷◌, Bytes}
use mathlib.Core.Path.{fun_ext}
use rules_oci_runtime.Lazy.Tree.{Tree, lookup, link, unlink, rename}
use rules_oci_runtime.Lazy.Tree.Refines.{Names, update, link-lookup, unlink-lookup, rename-lookup}

pub data Operation : Type 0 where
  -- parent, name, inode
  linking : ℕ → Bytes → ℕ → Operation
  -- parent, name
  unlinking : ℕ → Bytes → Operation
  -- from a parent and a name to a parent and a name
  renaming : ℕ → Bytes → ℕ → Bytes → Operation

-- What an operation does to the names.
abbrev pub meaning : Operation → Names → Names
meaning (linking parent name ino) names = update names parent name (some ino)
meaning (unlinking parent name) names = update names parent name none
meaning (renaming parent name new_parent new_name) names =
    update (update names parent name none) new_parent new_name (names parent name)

-- An operation that succeeds. A name is only taken from an inode that holds nothing: a file, or a
-- directory that the callers found empty.
pub data Step (tree : Tree) : Operation → Tree → Type 0 where
  by_link :
      (parent : ℕ) (name : Bytes) (ino : ℕ) (tree' : Tree)
      → link tree parent name ino ≡ (true, tree')
      → Step tree (linking parent name ino) tree'
  by_unlink :
      (parent : ℕ) (name : Bytes) (ino : ℕ) (last : Bool) (tree' : Tree)
      → unlink tree parent name ≡ (some (ino, last), tree')
      → ((m : Bytes) → lookup tree ino m ≡ none)
      → Step tree (unlinking parent name) tree'
  by_rename :
      (parent : ℕ) (name : Bytes) (new_parent : ℕ) (new_name : Bytes) (ino : ℕ) (tree' : Tree)
      → rename tree parent name new_parent new_name ≡ (some ino, tree')
      → Step tree (renaming parent name new_parent new_name) tree'

-- Operations one after the other.
abbrev pub Steps : Tree → List Operation → Tree → Type 0
Steps tree [] last = tree ≡ last
Steps tree (operation ∷ operations) last =
    (next : Tree) × Step tree operation next × Steps next operations last

abbrev pub meanings : List Operation → Names → Names
meanings [] names = names
meanings (operation ∷ operations) names = meanings operations (meaning operation names)

Step-meaning :
    (tree next : Tree) (operation : Operation)
    → Step tree operation next
    → lookup next ≡ meaning operation (lookup tree)
Step-meaning tree _ _ (by_link parent name ino next h) =
    fun_ext λ i. fun_ext λ n. link-lookup tree next parent name ino h i n
Step-meaning tree _ _ (by_unlink parent name ino last next h nothing) =
    fun_ext λ i. fun_ext λ n. (unlink-lookup tree next parent name ino last h nothing).1 i n
Step-meaning tree _ _ (by_rename parent name new_parent new_name ino next h) =
    let (at, f) = rename-lookup tree next parent name new_parent new_name ino h in
    fun_ext λ i. fun_ext λ n.
      f i n
      ∙ ap (λ v. update (update (lookup tree) parent name none) new_parent new_name v i n) (sym at)

-- The inodes refine a function from directories and names: after any sequence of operations that
-- succeed, looking up is what the same changes of single names make of the function, provided
-- that a name is only ever taken from an inode that holds nothing.
pub Steps-meanings :
    (tree last : Tree) (operations : List Operation)
    → Steps tree operations last
    → lookup last ≡ meanings operations (lookup tree)
Steps-meanings tree last [] s = ap lookup (sym s)
Steps-meanings tree last (operation ∷ more) (next, s, ss) =
    Steps-meanings next last more ss ∙ ap (meanings more) (Step-meaning tree next operation s)
