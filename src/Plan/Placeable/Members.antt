-- ===== src/Plan/Placeable/Members.antt =====
-- Where the entries of a work stand, for `placeable` of source/src/extract/plan.rs.
use rules_oci_runtime.Prelude.{
  ℕ, zero, suc, ◌<◌, ◌≤◌, not, Option, none, some, Bytes, both_true, ◌≡◌, refl, ap, ◌⊎◌, inl, inr,
  Bool, true, false, List, [], ◌∷◌, ◌++◌, if◌then◌else◌, length, arith,
}
use rules_oci_runtime.Entries.{
  Kind, file, directory, symlink, hard_link, sparse, unsupported, Table,
}
use rules_oci_runtime.OrderedMap.{get}
use rules_oci_runtime.Plan.Tree.{Tree, Node, behind_a_link, entry_at, link_of}
use rules_oci_runtime.Plan.Placeable.{
  Work, push_at, link_stands, pair_lt, insert_sorted, sort, offset_lt, sort_files,
}

-- Membership that says where.
abbrev pub Among : {A : Type 0} → A → List A → Type 0
Among x [] = ⊥
Among x (y ∷ ys) = (x ≡ y) ⊎ Among x ys

-- Entry `e` is among the files of layer `l`.
abbrev pub FileIn : ℕ → ℕ → List (List ℕ) → Type 0
FileIn l e [] = ⊥
FileIn zero e (files ∷ more) = Among e files
FileIn (suc l) e (files ∷ more) = FileIn l e more

-- What a hard link of the entry `owner` can be made to: a path that the tree has and no link stands
-- in the way of, and whose own entry comes no later than the hard link's.
pub record Stands (tree : Tree) (target : Bytes) (owner : ℕ × ℕ) : Type 0 where
  pub at : Node
  pub held : get target tree ≡ some at
  pub reached : behind_a_link tree target ≡ false
  pub placed : (at.owner.0 < owner.0) ⊎ ((at.owner.0 ≡ owner.0) × (at.owner.1 ≤ owner.1))

pub link_stands-Stands :
    (tree : Tree) (target : Bytes) (owner : ℕ × ℕ) (o : Option Node)
    → get target tree ≡ o
    → link_stands tree target owner o ≡ true
    → Stands tree target owner
link_stands-Stands tree target owner none g h = cc
link_stands-Stands tree target owner (some at) g h =
    let (r, p) = (both_true (not (behind_a_link tree target)) (not (pair_lt owner at.owner))).0 h in
    record {
      at = at;
      held = g;
      reached = was_false (behind_a_link tree target) r;
      placed = unfold pair_lt in ground (arith, p);
    }
  where
    was_false : (b : Bool) → not b ≡ true → b ≡ false
    was_false true h = cc
    was_false false h = refl

-- Where a node's entry stands in the work, by its kind.
abbrev pub IsPlaced : Tree → List Table → Work → Kind → ℕ × ℕ → Type 0
IsPlaced tree tables work file owner = FileIn owner.0 owner.1 work.files
IsPlaced tree tables work symlink owner = Among owner work.symlinks
IsPlaced tree tables work hard_link owner =
    Among owner work.hard_links × Stands tree (link_of (entry_at tables owner)) owner
IsPlaced tree tables work sparse owner = ⊥
IsPlaced tree tables work directory owner = Unit
IsPlaced tree tables work unsupported owner = Unit

module _ {A : Type 0} where
  pub Among-append_left : (x : A) (xs ys : List A) → Among x xs → Among x (xs ++ ys)
  Among-append_left x [] ys m = elim m [ ]
  Among-append_left x (y ∷ xs) ys (inl e) = inl e
  Among-append_left x (y ∷ xs) ys (inr m) = inr (Among-append_left x xs ys m)

  pub Among-append_last : (x : A) (xs : List A) → Among x (xs ++ (x ∷ []))
  Among-append_last x [] = inl refl
  Among-append_last x (y ∷ xs) = inr (Among-append_last x xs)

  Among-insert_sorted :
      (lt : A → A → Bool) (x y : A) (ys : List A)
      → Among x (y ∷ ys)
      → Among x (insert_sorted lt y ys)
  unfolding insert_sorted
  Among-insert_sorted lt x y [] m = m
  Among-insert_sorted lt x y (z ∷ zs) m = go (lt z y) m (Among-insert_sorted lt x y zs)
    where
      go :
          (b : Bool)
          → Among x (y ∷ (z ∷ zs))
          → (Among x (y ∷ zs) → Among x (insert_sorted lt y zs))
          → Among x (if b then z ∷ insert_sorted lt y zs else y ∷ (z ∷ zs))
      go false m f = m
      go true (inl e) f = inr (f (inl e))
      go true (inr (inl e)) f = inl e
      go true (inr (inr m)) f = inr (f (inr m))

  pub Among-sort : (lt : A → A → Bool) (x : A) (xs : List A) → Among x xs → Among x (sort lt xs)
  unfolding sort
  Among-sort lt x [] m = m
  Among-sort lt x (y ∷ ys) (inl e) = Among-insert_sorted lt x y (sort lt ys) (inl e)
  Among-sort lt x (y ∷ ys) (inr m) =
      Among-insert_sorted lt x y (sort lt ys) (inr (Among-sort lt x ys m))

pub FileIn-push_at_self :
    (l e : ℕ) (fs : List (List ℕ)) → l < length fs → FileIn l e (push_at l e fs)
unfolding push_at
FileIn-push_at_self l e [] h = absurd (omega arith)
FileIn-push_at_self zero e (f ∷ fs) h = Among-append_last e f
FileIn-push_at_self (suc l) e (f ∷ fs) h = FileIn-push_at_self l e fs (omega arith)

pub FileIn-push_at :
    (l e k d : ℕ) (fs : List (List ℕ)) → FileIn l e fs → FileIn l e (push_at k d fs)
unfolding push_at
FileIn-push_at l e k d [] m = m
FileIn-push_at zero e zero d (f ∷ fs) m = Among-append_left e f (d ∷ []) m
FileIn-push_at zero e (suc k) d (f ∷ fs) m = m
FileIn-push_at (suc l) e zero d (f ∷ fs) m = m
FileIn-push_at (suc l) e (suc k) d (f ∷ fs) m = FileIn-push_at l e k d fs m

pub length-push_at : (k d : ℕ) (fs : List (List ℕ)) → length (push_at k d fs) ≡ length fs
unfolding push_at
length-push_at k d [] = refl
length-push_at zero d (f ∷ fs) = refl
length-push_at (suc k) d (f ∷ fs) = ap suc (length-push_at k d fs)

pub FileIn-sort_files :
    (tables : List Table) (l e k : ℕ) (fs : List (List ℕ))
    → FileIn l e fs
    → FileIn l e (sort_files tables k fs)
unfolding sort_files
FileIn-sort_files tables l e k [] m = m
FileIn-sort_files tables zero e k (f ∷ fs) m = Among-sort (offset_lt tables k) e f m
FileIn-sort_files tables (suc l) e k (f ∷ fs) m = FileIn-sort_files tables l e (suc k) fs m
