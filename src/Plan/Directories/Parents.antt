-- ===== src/Plan/Directories/Parents.antt =====
-- The parents among the directories (`directories` of source/src/extract/plan.rs).
use rules_oci_runtime.Prelude.{
  ℕ, ◌≡◌, refl, Bool, true, false, not, ◌&&◌, ◌||◌, Option, none, some, List, [], ◌∷◌, ◌++◌, Bytes,
  ◌==◌, ◌=b◌, =b_refl, eq_of_=b, if◌then◌else◌, All, Ordering, Bool-cases, inl, inr, arith,
}
use mathlib.Core.Option.{some-injective}
use mathlib.Core.List.{append_assoc}
use rules_oci_runtime.Fsutil.{slash, is_empty}
use rules_oci_runtime.Plan.Key.{lex}
use rules_oci_runtime.Plan.Removal.LowerLayers.{lex_longer}
use rules_oci_runtime.Entries.{directory}
use rules_oci_runtime.OrderedMap.{OrderedMap, get, insert, contains_key}
use rules_oci_runtime.OrderedMap.Laws.{get-insert}
use rules_oci_runtime.OrderedMap.Sorted.{IsSorted, insert-IsSorted}
use rules_oci_runtime.Plan.Tree.{
  Tree, Node, ancestors, ancestors_from, blocks, behind_a_link, same_kind, default_directory_mode,
}
use rules_oci_runtime.Plan.Directories.{want_ancestors, want, want_all, directories}
use rules_oci_runtime.Plan.Directories.Ancestors.{
  Clear, behind_a_link-false, behind_a_link-ancestors,
}

pub contains-insert {ℓ} :
    {V : Type ℓ} (j k : Bytes) (v : V) (m : OrderedMap V)
    → contains_key j (insert k v m) ≡ (j =b k || contains_key j m)
unfolding contains_key
contains-insert j k v m = rw get-insert (ground arith)

-- A step that only adds.
contains-if :
    (b : Bool) (j k : Bytes) (v : ℕ) (m : OrderedMap ℕ)
    → contains_key j m ≡ true
    → contains_key j (if b then m else insert k v m) ≡ true
contains-if true j k v m h = h
contains-if false j k v m h = rw (contains-insert j k v m, h) (ground arith)

module _ (tree : Tree) where
  want_ancestors_keep :
      (ps : List Bytes) (j : Bytes) (w : OrderedMap ℕ)
      → contains_key j w ≡ true
      → contains_key j (want_ancestors tree ps w) ≡ true
  unfolding want_ancestors
  want_ancestors_keep [] j w h = h
  want_ancestors_keep (a ∷ ps) j w h = want_ancestors_keep ps j _ (contains-if _ j a _ w h)

  want_ancestors_add :
      (ps : List Bytes) (w : OrderedMap ℕ)
      → All
          (λ a.
            contains_key a tree ≡ false
            → behind_a_link tree a ≡ false
            → contains_key a (want_ancestors tree ps w) ≡ true)
          ps
  unfolding want_ancestors
  want_ancestors_add [] w = tt
  want_ancestors_add (a ∷ ps) w =
      (λ t b. want_ancestors_keep ps a _ (added t b), want_ancestors_add ps _)
    where
      added :
          contains_key a tree ≡ false
          → behind_a_link tree a ≡ false
          → contains_key a (
              if contains_key a tree || contains_key a w || behind_a_link tree a
              then w
              else insert a default_directory_mode w)
            ≡ true
      added t b = rw (t, b) (found (contains_key a w) refl)
        where
          found :
              (c : Bool)
              → contains_key a w ≡ c
              → contains_key a (if c || false then w else insert a default_directory_mode w) ≡ true
          found true e = e
          found false e = rw (contains-insert a a default_directory_mode w, =b_refl a) refl

  want_keep :
      (path : Bytes) (node : Node) (j : Bytes) (w : OrderedMap ℕ)
      → contains_key j w ≡ true
      → contains_key j (want tree path node w) ≡ true
  unfolding want
  want_keep path node j w h =
      want_ancestors_keep (ancestors path) j _
        (own (same_kind node.kind directory && not (behind_a_link tree path)))
    where
      own : (b : Bool) → contains_key j (if b then insert path node.mode w else w) ≡ true
      own true = rw (contains-insert j path node.mode w, h) (ground arith)
      own false = h

  want_all_keep :
      (m : Tree) (j : Bytes) (w : OrderedMap ℕ)
      → contains_key j w ≡ true
      → contains_key j (want_all tree m w) ≡ true
  unfolding want_all
  want_all_keep [] j w h = h
  want_all_keep ((path, node) ∷ m) j w h = want_all_keep m j _ (want_keep path node j w h)

  want_own :
      (path : Bytes) (node : Node) (w : OrderedMap ℕ)
      → same_kind node.kind directory ≡ true
      → behind_a_link tree path ≡ false
      → contains_key path (want tree path node w) ≡ true
  unfolding want
  want_own path node w d b =
      want_ancestors_keep (ancestors path) path _
        (rw (d, b, contains-insert path path node.mode w, =b_refl path) refl)

  -- A directory of the tree that is behind no link is wanted.
  want_all_own :
      (m : Tree) (path : Bytes) (node : Node) (w : OrderedMap ℕ)
      → get path m ≡ some node
      → same_kind node.kind directory ≡ true
      → behind_a_link tree path ≡ false
      → contains_key path (want_all tree m w) ≡ true
  unfolding want_all get
  want_all_own [] path node w e d b = cc
  want_all_own ((j, n) ∷ m) path node w e d b =
      go (path =b j) refl e (λ h. want_all_own m path node _ h d b)
    where
      go :
          (c : Bool)
          → (path =b j) ≡ c
          → (if c then some n else get path m) ≡ some node
          → (get path m ≡ some node → contains_key path (want_all tree m (want tree j n w)) ≡ true)
          → contains_key path (want_all tree m (want tree j n w)) ≡ true
      go true c h ih =
          let same = eq_of_=b path j c in
          let nodes = some-injective n node h in
          want_all_keep m path _ (rw (← same, nodes) (want_own path node w d b))
      go false c h ih = ih h

  -- An ancestor of a path of the tree that nothing stands at is wanted, if it is behind no link.
  want_all_parents :
      (m : Tree) (path : Bytes) (node : Node) (w : OrderedMap ℕ)
      → get path m ≡ some node
      → All
          (λ a.
            contains_key a tree ≡ false
            → behind_a_link tree a ≡ false
            → contains_key a (want_all tree m w) ≡ true)
          (ancestors path)
  unfolding want_all get want
  want_all_parents [] path node w e = cc
  want_all_parents ((j, n) ∷ m) path node w e =
      go (path =b j) refl e (λ h. want_all_parents m path node _ h)
    where
      keep :
          (v : OrderedMap ℕ) (ps : List Bytes)
          → All
              (λ a.
                contains_key a tree ≡ false
                → behind_a_link tree a ≡ false
                → contains_key a v ≡ true)
              ps
          → All
              (λ a.
                contains_key a tree ≡ false
                → behind_a_link tree a ≡ false
                → contains_key a (want_all tree m v) ≡ true)
              ps
      keep v [] a = tt
      keep v (p ∷ ps) a = (λ t b. want_all_keep m p v (a.0 t b), keep v ps a.1)

      go :
          (c : Bool)
          → (path =b j) ≡ c
          → (if c then some n else get path m) ≡ some node
          → (get path m ≡ some node
              → All
                  (λ a.
                    contains_key a tree ≡ false
                    → behind_a_link tree a ≡ false
                    → contains_key a (want_all tree m (want tree j n w)) ≡ true)
                  (ancestors path))
          → All
              (λ a.
                contains_key a tree ≡ false
                → behind_a_link tree a ≡ false
                → contains_key a (want_all tree m (want tree j n w)) ≡ true)
              (ancestors path)
      go true c h ih =
          rw (eq_of_=b path j c) (keep _ (ancestors j) (want_ancestors_add (ancestors j) _))
      go false c h ih = ih h

  abbrev Wanted : Bytes → Type 0
  Wanted a = contains_key a (directories tree) ≡ true

  Wanted-parent :
      (a : Bytes)
      → Clear tree a
      → behind_a_link tree a ≡ false
      → (contains_key a tree ≡ false → behind_a_link tree a ≡ false → Wanted a)
      → Wanted a
  unfolding directories contains_key
  Wanted-parent a c b absent = go (get a tree) refl c
    where
      go : (r : Option Node) → get a tree ≡ r → blocks a r ≡ none → Wanted a
      go none e k = absent (rw e refl) b
      go (some node) e k = elim (Bool-cases (same_kind node.kind directory)) [
        | inl d ↦ want_all_own tree a node [] e d b
        | inr d ↦ cc (rw d at k)
      ]

  Wanted-parents :
      (ps : List Bytes)
      → All (Clear tree) ps
      → All (λ a. behind_a_link tree a ≡ false) ps
      → All (λ a. contains_key a tree ≡ false → behind_a_link tree a ≡ false → Wanted a) ps
      → All Wanted ps
  Wanted-parents [] c b n = tt
  Wanted-parents (p ∷ ps) c b n = (Wanted-parent p c.0 b.0 n.0, Wanted-parents ps c.1 b.1 n.1)

  -- Every ancestor of a path of the tree that is behind no link is among the directories, and so
  -- is the path itself where it is a directory.
  pub directories_parents :
      (path : Bytes) (node : Node)
      → get path tree ≡ some node
      → behind_a_link tree path ≡ false
      → All (λ a. contains_key a (directories tree) ≡ true) (ancestors path)
        × (same_kind node.kind directory ≡ true → contains_key path (directories tree) ≡ true)
  unfolding directories
  directories_parents path node e b = (
    Wanted-parents (ancestors path) (behind_a_link-false tree path b)
        (behind_a_link-ancestors tree path b) (want_all_parents tree path node [] e),
    λ d. want_all_own tree path node [] e d b,
  )

  want_ancestors-IsSorted :
      (ps : List Bytes) (w : OrderedMap ℕ) → IsSorted w → IsSorted (want_ancestors tree ps w)
  unfolding want_ancestors
  want_ancestors-IsSorted [] w s = s
  want_ancestors-IsSorted (a ∷ ps) w s =
      want_ancestors-IsSorted ps _
        (kept (contains_key a tree || contains_key a w || behind_a_link tree a))
    where
      kept : (b : Bool) → IsSorted (if b then w else insert a default_directory_mode w)
      kept true = s
      kept false = insert-IsSorted a _ w s

  want_all-IsSorted : (m : Tree) (w : OrderedMap ℕ) → IsSorted w → IsSorted (want_all tree m w)
  unfolding want_all want
  want_all-IsSorted [] w s = s
  want_all-IsSorted ((path, node) ∷ m) w s = want_all-IsSorted m _ (
      want_ancestors-IsSorted (ancestors path) _
        (own (same_kind node.kind directory && not (behind_a_link tree path))))
    where
      own : (b : Bool) → IsSorted (if b then insert path node.mode w else w)
      own true = insert-IsSorted path _ w s
      own false = s

  directories-IsSorted : IsSorted (directories tree)
  unfolding directories
  directories-IsSorted = want_all-IsSorted tree [] tt

ancestors_from-lt :
    (read xs : Bytes) → All (λ a. lex a (read ++ xs) ≡ Ordering.lt) (ancestors_from read xs)
unfolding ancestors_from
ancestors_from-lt read [] = tt
ancestors_from-lt read (x ∷ xs) =
    go (x == slash && not (is_empty read))
      (rw (append_assoc read (x ∷ []) xs) at (ancestors_from-lt (read ++ (x ∷ [])) xs))
  where
    go :
        (b : Bool)
        → All (λ a. lex a (read ++ (x ∷ xs)) ≡ Ordering.lt) (ancestors_from (read ++ (x ∷ [])) xs)
        → All
            (λ a. lex a (read ++ (x ∷ xs)) ≡ Ordering.lt)
            (if b
              then read ∷ ancestors_from (read ++ (x ∷ [])) xs
              else ancestors_from (read ++ (x ∷ [])) xs)
    go true h = (lex_longer read x xs, h)
    go false h = h

-- The directories come in strict order of their paths, and every ancestor of a path lies below it
-- in that order, so a parent comes before what is in it.
pub directories_parents_first :
    (tree : Tree) (path : Bytes)
    → IsSorted (directories tree) × All (λ a. lex a path ≡ Ordering.lt) (ancestors path)
unfolding ancestors
directories_parents_first tree path = (directories-IsSorted tree, ancestors_from-lt [] path)
