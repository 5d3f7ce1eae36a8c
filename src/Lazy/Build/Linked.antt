-- ===== src/Lazy/Build/Linked.antt =====
-- A path that `Tree::build` of source/src/lazy/tree.rs links into the tree.
use rules_oci_runtime.Prelude.{
  ℕ, zero, suc, ◌≡◌, ◌⊎◌, inl, inr, refl, sym, ap, ◌∙◌, Bool, true, false, not, ◌&&◌, Option, none,
  some, [], ◌∷◌, ◌++◌, Bytes, ◌==◌, ==_iff, ◌=b◌, =b_refl, eq_of_=b, if◌then◌else◌, get_elem?,
  Bool-cases, Option-cases,
}
use mathlib.Core.Option.{some-injective}
use rules_oci_runtime.OrderedMap.{OrderedMap, get, insert, contains_key, is_some}
use rules_oci_runtime.OrderedMap.Laws.{get-insert}
use rules_oci_runtime.Plan.Tree.{root_entry}
use rules_oci_runtime.Lazy.Tree.{
  Node, Tree, root, children_of, unless_gone, node_at, get_node, child_of, lookup, lacks,
  count_link, add_child, change, link,
}
use rules_oci_runtime.Lazy.Tree.Refines.{link-lookup}
use rules_oci_runtime.Lazy.Build.{split}

-- A path has been given the inode that its name leads to from its parent's.
pub record IsNamed (tree : Tree) (by_path : OrderedMap ℕ) (path : Bytes) (ino : ℕ) : Type 0 where
  pub parent : Bytes
  pub name : Bytes
  pub at : ℕ
  pub split : split path ≡ some (parent, name)
  pub above : get parent by_path ≡ some at
  pub found : lookup tree at name ≡ some ino

abbrev pub Resolves : Tree → OrderedMap ℕ → Type 0
Resolves tree by_path =
    (path : Bytes) (ino : ℕ)
    → get path by_path ≡ some ino
    → ((path ≡ root_entry) × (ino ≡ root)) ⊎ IsNamed tree by_path path ino

-- A lookup in a tree with one more node, which holds nothing.
pub lookup-push :
    (tree : Tree) (node : Node) (i : ℕ) (n : Bytes)
    → child_of n (children_of (unless_gone (some node))) ≡ none
    → lookup (tree ++ (node ∷ [])) i n ≡ lookup tree i n
unfolding lookup get_node node_at
lookup-push tree node zero n h = refl
lookup-push tree node (suc i) n h = go tree i
  where
    go :
        (t : Tree) (i : ℕ)
        → child_of n (children_of (unless_gone (get_elem? (t ++ (node ∷ [])) i)))
          ≡ child_of n (children_of (unless_gone (get_elem? t i)))
    go [] zero = h
    go [] (suc i) = refl
    go (m ∷ t) zero = refl
    go (m ∷ t) (suc i) = go t i

-- A name is only linked where it does not stand yet.
link-fresh :
    (tree tree' : Tree) (parent : ℕ) (name : Bytes) (ino : ℕ)
    → link tree parent name ino ≡ (true, tree')
    → lookup tree parent name ≡ none
unfolding link lookup contains_key
link-fresh tree tree' parent name ino h = go (children_of (get_node tree parent)) refl
  where
    absent : (o : Option ℕ) → not (is_some o) ≡ true → o ≡ none
    absent none k = refl
    absent (some a) k = cc

    guarded :
        (b : Bool)
        → ◌≡◌ {A = Bool × Tree}
            (if b
              then count_link parent ino
                  (get_node (change parent (add_child name ino) tree) ino)
                  (change parent (add_child name ino) tree)
              else (false, tree))
            (true, tree')
        → b ≡ true
    guarded true k = refl
    guarded false k = cc

    go :
        (o : Option (OrderedMap ℕ))
        → children_of (get_node tree parent) ≡ o
        → child_of name o ≡ none
    go none e = refl
    go (some entries) e =
        absent (get name entries)
          (ap (lacks name) (sym e) ∙ guarded (lacks name (children_of (get_node tree parent))) h)

pub split-root_entry : (path : Bytes) → path ≡ root_entry → split path ≡ none
unfolding split ◌=b◌
split-root_entry path e = rw e refl

both_true : (a b : Bool) → (a && b) ≡ true → (a ≡ true) × (b ≡ true)
both_true true true h = (refl, refl)
both_true true false h = cc
both_true false b h = cc

clash : {A : Type 0} (o : Option ℕ) (j : ℕ) → o ≡ none → o ≡ some j → A
clash none j e h = cc
clash (some i) j e h = cc

module _ (t t' : Tree) (m : OrderedMap ℕ) (path parent name : Bytes) (at ino : ℕ)
    (res : Resolves t m) (s : split path ≡ some (parent, name)) (above : get parent m ≡ some at)
    (l : link t at name ino ≡ (true, t')) where
  free : lookup t at name ≡ none
  free = link-fresh t t' at name ino l

  -- The path had no inode before.
  fresh : get path m ≡ none
  fresh = elim (Option-cases (get path m)) [ inl e ↦ e | inr (j, e) ↦ taken j e (res path j e) ]
    where
      taken :
          (j : ℕ)
          → get path m ≡ some j
          → ((path ≡ root_entry) × (j ≡ root)) ⊎ IsNamed t m path j
          → get path m ≡ none
      taken j e (inl r) = let n = split-root_entry path r.0 in cc
      taken j e (inr n) =
          let both : (n.parent, n.name) ≡ (parent, name) = some-injective _ _ (sym n.split ∙ s) in
          let one : n.parent ≡ parent = ap (λ (x : Bytes × Bytes). x.0) both in
          let two : n.name ≡ name = ap (λ (x : Bytes × Bytes). x.1) both in
          let three : n.at ≡ at =
            some-injective _ _ (sym n.above ∙ ap (λ x. get x m) one ∙ above) in
          let four : lookup t at name ≡ some j =
            ap (λ x. lookup t x name) (sym three) ∙ ap (lookup t n.at) (sym two) ∙ n.found in
          clash (lookup t at name) j free four

  get-insert_other : (p : Bytes) (j : ℕ) → get p m ≡ some j → get p (insert path ino m) ≡ some j
  get-insert_other p j h = get-insert p path ino m ∙ go (p =b path) refl
    where
      go : (b : Bool) → (p =b path) ≡ b → (if b then some ino else get p m) ≡ some j
      go false e = h
      go true e = let q = eq_of_=b p path e in cc (fresh, ap (λ x. get x m) q, h)

  pub linked-Resolves : Resolves t' (insert path ino m)
  linked-Resolves p j h = elim (Bool-cases (p =b path)) [
    | inl e ↦ inr (record {
      parent = parent;
      name = name;
      at = at;
      split = ap split (eq_of_=b p path e) ∙ s;
      above = get-insert_other parent at above;
      found =
          link-lookup t t' at name ino l at name
          ∙ rw ((==_iff at at).1 refl, =b_refl name) (sym (at_key true e) ∙ h);
    })
    | inr e ↦ old (res p j (sym (at_key false e) ∙ h))
  ]
    where
      at_key :
          (b : Bool)
          → (p =b path) ≡ b
          → get p (insert path ino m) ≡ (if b then some ino else get p m)
      at_key b e = get-insert p path ino m ∙ ap (λ (b : Bool). if b then some ino else get p m) e

      kept :
          (n : IsNamed t m p j) (b : Bool)
          → (n.at == at && n.name =b name) ≡ b
          → (if b then some ino else lookup t n.at n.name) ≡ some j
      kept n false e = n.found
      kept n true e =
          let same = (==_iff n.at at).0 (both_true (n.at == at) (n.name =b name) e).0 in
          let name_same = eq_of_=b n.name name (both_true (n.at == at) (n.name =b name) e).1 in
          let there : lookup t at name ≡ some j =
            ap (λ x. lookup t x name) (sym same) ∙ ap (lookup t n.at) (sym name_same) ∙ n.found in
          clash (lookup t at name) j free there

      old :
          ((p ≡ root_entry) × (j ≡ root)) ⊎ IsNamed t m p j
          → ((p ≡ root_entry) × (j ≡ root)) ⊎ IsNamed t' (insert path ino m) p j
      old (inl r) = inl r
      old (inr n) = inr (record {
        parent = n.parent;
        name = n.name;
        at = n.at;
        split = n.split;
        above = get-insert_other n.parent n.at n.above;
        found =
            link-lookup t t' at name ino l n.at n.name ∙ kept n (n.at == at && n.name =b name) refl;
      })
