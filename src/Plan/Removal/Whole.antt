-- ===== src/Plan/Removal/Whole.antt =====
-- Clearing a path whole (`remove_under` of source/src/extract/plan.rs).
use rules_oci_runtime.Prelude.{
  ◌≡◌, ◌↔◌, refl, ◌∙◌, Ordering, Bool, true, false, not, ◌&&◌, ◌||◌, Option, none, some, List, [],
  ◌∷◌, Bytes, ◌=b◌, =b_iff, if◌then◌else◌, arith, map, All, Bool-cases, inl, inr,
}
use rules_oci_runtime.OrderedMap.{is_lt, is_some, get, remove, contains_key, range_from}
use rules_oci_runtime.OrderedMap.Laws.{get-remove}
use rules_oci_runtime.OrderedMap.Sorted.{◌≺◌, Below, IsSorted, All-get, get-Below}
use rules_oci_runtime.Plan.Key.{lex}
use rules_oci_runtime.Plan.Key.Order.{lex_trans}
use rules_oci_runtime.Plan.Tree.{Node, Tree, starts_with, root_entry}
use rules_oci_runtime.Plan.Removal.{
  whole, bound_of, take_under, without_root, entries_under, key_of, doomed, remove_all,
  remove_under,
}
use rules_oci_runtime.Plan.Removal.Order.{
  starts_with-ge, starts_with_between, IsBeneath, lies_under_iff,
}

unfoldable pub mem : Bytes → List Bytes → Bool
mem p [] = false
mem p (q ∷ qs) = p =b q || mem p qs

pub get-remove_all :
    (ps : List Bytes) (p : Bytes) (tree : Tree)
    → get p (remove_all ps tree) ≡ (if mem p ps then none else get p tree)
unfolding remove_all mem
get-remove_all [] p tree = refl
get-remove_all (q ∷ qs) p tree =
    rw (get-remove_all qs p (remove q tree), get-remove p q tree) (ground arith)

-- A path below every key is no key.
contains-Below : (p : Bytes) (tree : Tree) → Below p tree → contains_key p tree ≡ false
unfolding contains_key
contains-Below p tree b = rw (get-Below p tree b)

-- A key of a map lies above what lies below the map.
above_first :
    (j p : Bytes) (tree : Tree) → Below j tree → contains_key p tree ≡ true → lex j p ≡ Ordering.lt
unfolding contains_key
above_first j p tree b h = go (get p tree) refl h
  where
    go : (r : Option Node) → get p tree ≡ r → is_some r ≡ true → lex j p ≡ Ordering.lt
    go none e k = cc
    go (some n) e k = All-get (λ (x : Bytes × Node). j ≺ x.0) p n tree b e

contains_nil : (p : Bytes) → contains_key {V = Node} p [] ≡ false
unfolding contains_key get
contains_nil p = refl

lt_cut :
    (j p bound : Bytes)
    → lex j p ≡ Ordering.lt
    → is_lt (lex j bound) ≡ false
    → is_lt (lex p bound) ≡ false
lt_cut j p bound h k = go (lex p bound) refl
  where
    go : (o : Ordering) → lex p bound ≡ o → is_lt o ≡ false
    go Ordering.eq e = refl
    go Ordering.gt e = refl
    go Ordering.lt e = cc (lex_trans j p bound h e)

contains-cons :
    (p j : Bytes) (n : Node) (m : Tree) → contains_key p ((j, n) ∷ m) ≡ (p =b j || contains_key p m)
unfolding contains_key get
contains-cons p j n m = ground arith

contains-range_from :
    (p bound : Bytes) (tree : Tree)
    → IsSorted tree
    → contains_key p (range_from bound tree) ≡ (contains_key p tree && not (is_lt (lex p bound)))
unfolding range_from
contains-range_from p bound [] s = unfold contains_key get in refl
contains-range_from p bound ((j, n) ∷ m) s = elim (Bool-cases (is_lt (lex j bound))) [
  | inl below ↦
      rw (below, contains-range_from p bound m s.1, contains-cons p j n m)
        (ground (arith, =b_iff p j, below))
  | inr above ↦
      rw (above, contains-cons p j n m)
        (ground (arith, =b_iff p j, above_first j p m s.0, lt_cut j p bound, above))
]

-- Every key lies at or above the bound.
abbrev pub AtLeast : Bytes → Tree → Type 0
AtLeast bound tree = All (λ (e : Bytes × Node). is_lt (lex e.0 bound) ≡ false) tree

pub range_from-AtLeast :
    (bound : Bytes) (tree : Tree) → IsSorted tree → AtLeast bound (range_from bound tree)
unfolding range_from
range_from-AtLeast bound [] s = tt
range_from-AtLeast bound ((j, n) ∷ m) s = elim (Bool-cases (is_lt (lex j bound))) [
  | inl below ↦ rw (below, range_from) (range_from-AtLeast bound m s.1)
  | inr above ↦ rw (above, range_from) (above, rest m s.0 above)
]
  where
    rest : (t : Tree) → Below j t → is_lt (lex j bound) ≡ false → AtLeast bound t
    rest [] b a = tt
    rest ((i, k) ∷ t) b a = (lt_cut j i bound b.0 a, rest t b.1 a)

pub range_from-IsSorted :
    (bound : Bytes) (tree : Tree) → IsSorted tree → IsSorted (range_from bound tree)
unfolding range_from
range_from-IsSorted bound [] s = tt
range_from-IsSorted bound ((j, n) ∷ m) s = elim (Bool-cases (is_lt (lex j bound))) [
  | inl below ↦ rw (below, range_from) (range_from-IsSorted bound m s.1)
  | inr above ↦ rw (above, range_from) s
]

contains-take_under :
    (p bound : Bytes) (tree : Tree)
    → IsSorted tree
    → AtLeast bound tree
    → contains_key p (take_under bound tree) ≡ (contains_key p tree && starts_with p bound)
unfolding take_under
contains-take_under p bound [] s a = unfold contains_key get in refl
contains-take_under p bound ((j, n) ∷ m) s a = elim (Bool-cases (starts_with j bound)) [
  | inl inside ↦
      rw
        (
          inside,
          contains-cons p j n m,
          contains-cons p j n (take_under bound m),
          contains-take_under p bound m s.1 a.1,
        )
        (ground (arith, =b_iff p j, inside))
  | inr outside ↦
      rw (outside, contains-cons p j n m, contains_nil p)
        (ground
          (arith, =b_iff p j, above_first j p m s.0, starts_with_between j p bound a.0, outside))
]

contains-without_root :
    (p : Bytes) (tree : Tree)
    → contains_key p (without_root tree) ≡ (contains_key p tree && not (p =b root_entry))
unfolding without_root
contains-without_root p [] = unfold contains_key get in refl
contains-without_root p ((j, n) ∷ m) = elim (Bool-cases (j =b root_entry)) [
  | inl root ↦
      rw (root, contains-without_root p m, contains-cons p j n m) (ground (arith, =b_iff p j, root))
  | inr other ↦
      rw
        (
          other,
          contains-cons p j n m,
          contains-cons p j n (without_root m),
          contains-without_root p m,
        )
        (ground (arith, =b_iff p j, other))
]

-- What lies under a directory: everything but the rootfs under the empty one.
unfoldable pub lies_under : Bytes → Bytes → Bool
lies_under dir p = starts_with p (bound_of dir) && not (p =b root_entry)

-- The range that is scanned holds the paths of the tree that lie under the directory.
pub contains-entries_under :
    (dir p : Bytes) (tree : Tree)
    → IsSorted tree
    → contains_key p (entries_under dir tree) ≡ (contains_key p tree && lies_under dir p)
unfolding entries_under lies_under
contains-entries_under dir p tree s =
    contains-without_root p _
    ∙ rw
        (
          contains-take_under p (bound_of dir) _ (range_from-IsSorted (bound_of dir) tree s)
              (range_from-AtLeast (bound_of dir) tree s),
          contains-range_from p (bound_of dir) tree s,
        )
        (ground (arith, starts_with-ge p (bound_of dir)))

mem-keys : (p : Bytes) (tree : Tree) → mem p (map key_of tree) ≡ contains_key p tree
unfolding mem
mem-keys p [] = unfold contains_key get in refl
mem-keys p ((j, n) ∷ m) = rw (mem-keys p m, contains-cons p j n m)

get-remove_under_lies :
    (tree : Tree) (dir p : Bytes)
    → IsSorted tree
    → get p (remove_under tree dir whole) ≡ (if lies_under dir p then none else get p tree)
unfolding remove_under doomed
get-remove_under_lies tree dir p s =
    get-remove_all (map key_of (entries_under dir tree)) p tree
    ∙ rw (mem-keys p (entries_under dir tree), contains-entries_under dir p tree s)
        (unfold contains_key in ground arith)

-- In a tree in order, clearing what lies under a path drops exactly the paths under it, and
-- leaves every other as it was; and under a path lies what goes on from it with a slash, or under
-- the empty path anything, but never the root entry.
pub get-remove_under-whole :
    (tree : Tree) (dir p : Bytes)
    → IsSorted tree
    → (get p (remove_under tree dir whole) ≡ (if lies_under dir p then none else get p tree))
      × ((lies_under dir p ≡ true) ↔ IsBeneath dir p)
get-remove_under-whole tree dir p s =
    (get-remove_under_lies tree dir p s, unfold lies_under in lies_under_iff dir p)
