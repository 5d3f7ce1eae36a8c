-- ===== src/Plan/Removal/Adjacent.antt =====
-- Paths that stand directly behind each other among those that an opaque marker asks about
-- (`remove_under` of source/src/extract/plan.rs).
use rules_oci_runtime.Prelude.{
  ℕ, ◌≡◌, ◌⊎◌, inl, inr, refl, sym, ap, ◌∙◌, Bool, true, false, not, Option, some, [], ◌∷◌, Bytes,
  ◌=b◌, =b_refl, if◌then◌else◌, arith, Bool-cases, both_true,
}
use mathlib.Core.Path.{subst}
use mathlib.Core.List.{reverse, reverse_aux}
use rules_oci_runtime.OrderedMap.{is_lt, range_from}
use rules_oci_runtime.OrderedMap.Sorted.{◌≺◌, Below, IsSorted}
use rules_oci_runtime.Plan.Key.{lex}
use rules_oci_runtime.Plan.Tree.{Node, Tree, starts_with, root_entry, names_itself}
use rules_oci_runtime.Plan.Removal.{
  bound_of, take_under, without_root, entries_under, is_layer, lower_doomed,
}
use rules_oci_runtime.Plan.Removal.Order.{starts_with-ge, starts_with_between}
use rules_oci_runtime.Plan.Removal.Whole.{
  mem, lies_under, AtLeast, range_from-AtLeast, range_from-IsSorted,
}

abbrev StartsWith : Bytes × Node → Tree → Type 0
StartsWith b [] = ⊥
StartsWith b (y ∷ ys) = y ≡ b

-- Somewhere in the list `b` stands directly behind `a`.
abbrev pub Adjacent : Bytes × Node → Bytes × Node → Tree → Type 0
Adjacent a b [] = ⊥
Adjacent a b (x ∷ xs) = ((x ≡ a) × StartsWith b xs) ⊎ Adjacent a b xs

module _ (a b : Bytes × Node) where
  Adjacent-range_from :
      (bound : Bytes) (tree : Tree)
      → is_lt (lex a.0 bound) ≡ false
      → Adjacent a b tree
      → Adjacent a b (range_from bound tree)
  unfolding range_from
  Adjacent-range_from bound [] h i = i
  Adjacent-range_from bound ((j, n) ∷ m) h (inl (e, s)) =
      rw (ap (λ (x : Bytes × Node). is_lt (lex x.0 bound)) e ∙ h) (inl (e, s))
  Adjacent-range_from bound ((j, n) ∷ m) h (inr i) = elim (Bool-cases (is_lt (lex j bound))) [
    | inl below ↦ rw below (Adjacent-range_from bound m h i)
    | inr above ↦ rw above (inr i)
  ]

  above_first : (j : Bytes) (m : Tree) → Below j m → Adjacent a b m → j ≺ a.0
  above_first j [] w i = elim i [ ]
  above_first j ((k, n) ∷ m) w (inl (e, s)) = subst (λ (x : Bytes × Node). j ≺ x.0) e w.0
  above_first j ((k, n) ∷ m) w (inr i) = above_first j m w.1 i

  Adjacent-take_under :
      (bound : Bytes) (tree : Tree)
      → IsSorted tree
      → AtLeast bound tree
      → starts_with a.0 bound ≡ true
      → starts_with b.0 bound ≡ true
      → Adjacent a b tree
      → Adjacent a b (take_under bound tree)
  unfolding take_under
  Adjacent-take_under bound [] s l u v i = i
  Adjacent-take_under bound ((j, n) ∷ m) s l u v (inl (e, w)) =
      rw (ap (λ (x : Bytes × Node). starts_with x.0 bound) e ∙ u) (inl (e, next m w))
    where
      next : (t : Tree) → StartsWith b t → StartsWith b (take_under bound t)
      next [] w = w
      next ((k, o) ∷ t) w =
          rw (ap (λ (x : Bytes × Node). starts_with x.0 bound) w ∙ v, take_under) w
  Adjacent-take_under bound ((j, n) ∷ m) s l u v (inr i) =
      rw (starts_with_between j a.0 bound l.0 (above_first j m s.0 i) u)
        (inr (Adjacent-take_under bound m s.1 l.1 u v i))

  Adjacent-without_root :
      (tree : Tree)
      → (a.0 =b root_entry) ≡ false
      → (b.0 =b root_entry) ≡ false
      → Adjacent a b tree
      → Adjacent a b (without_root tree)
  unfolding without_root
  Adjacent-without_root [] u v i = i
  Adjacent-without_root ((j, n) ∷ m) u v (inl (e, w)) =
      rw (ap (λ (x : Bytes × Node). x.0 =b root_entry) e ∙ u) (inl (e, next m w))
    where
      next : (t : Tree) → StartsWith b t → StartsWith b (without_root t)
      next [] w = w
      next ((k, o) ∷ t) w = rw (ap (λ (x : Bytes × Node). x.0 =b root_entry) w ∙ v, without_root) w
  Adjacent-without_root ((j, n) ∷ m) u v (inr i) = elim (Bool-cases (j =b root_entry)) [
    | inl root ↦ rw root (Adjacent-without_root m u v i)
    | inr other ↦ rw other (inr (Adjacent-without_root m u v i))
  ]

  Adjacent-onto : (xs acc : Tree) → Adjacent b a acc → Adjacent b a (reverse_aux xs acc)
  Adjacent-onto [] acc i = i
  Adjacent-onto (x ∷ xs) acc i = Adjacent-onto xs (x ∷ acc) (inr i)

  Adjacent-reverse_aux : (xs acc : Tree) → Adjacent a b xs → Adjacent b a (reverse_aux xs acc)
  Adjacent-reverse_aux [] acc i = elim i [ ]
  Adjacent-reverse_aux (x ∷ []) acc (inl (e, w)) = elim w [ ]
  Adjacent-reverse_aux (x ∷ (y ∷ ys)) acc (inl (e, w)) =
      Adjacent-onto ys (y ∷ (x ∷ acc)) (inl (w, e))
  Adjacent-reverse_aux (x ∷ xs) acc (inr i) = Adjacent-reverse_aux xs (x ∷ acc) i

  pub Adjacent-reverse : (xs : Tree) → Adjacent a b xs → Adjacent b a (reverse xs)
  Adjacent-reverse xs i = Adjacent-reverse_aux xs [] i

not_root : (x : Bool) → not x ≡ true → x ≡ false
not_root true h = cc
not_root false h = refl

pub Adjacent-entries_under :
    (dir : Bytes) (tree : Tree) (a b : Bytes × Node)
    → IsSorted tree
    → lies_under dir a.0 ≡ true
    → lies_under dir b.0 ≡ true
    → Adjacent a b tree
    → Adjacent a b (entries_under dir tree)
unfolding entries_under lies_under
Adjacent-entries_under dir tree a b s u v i =
    let (u₀, u₁) = (both_true (starts_with a.0 (bound_of dir)) (not (a.0 =b root_entry))).0 u in
    let (v₀, v₁) = (both_true (starts_with b.0 (bound_of dir)) (not (b.0 =b root_entry))).0 v in
    Adjacent-without_root a b _ (not_root (a.0 =b root_entry) u₁) (not_root (b.0 =b root_entry) v₁)
      (Adjacent-take_under a b (bound_of dir) _ (range_from-IsSorted (bound_of dir) tree s)
        (range_from-AtLeast (bound_of dir) tree s) u₀ v₀
        (Adjacent-range_from a b (bound_of dir) tree (starts_with-ge a.0 (bound_of dir) u₀) i))

module _ (d e : Bytes) (n₀ n₁ : Node) (l : ℕ) (c : names_itself d e ≡ false)
    (m₀ : is_layer n₀.named_by l ≡ false) (m₁ : is_layer n₁.named_by l ≡ true) where
  mem-lower_doomed_first :
      (xs : Tree) (ours : Option Bytes)
      → mem d (lower_doomed l ((e, n₁) ∷ ((d, n₀) ∷ xs)) ours) ≡ true
  unfolding lower_doomed mem
  mem-lower_doomed_first xs ours = rw (m₁, m₀, c, =b_refl d) refl

  -- What stands directly before a path that the layer named, does not hold it and was not named by
  -- the layer itself, is taken.
  pub mem-lower_doomed-Adjacent :
      (xs : Tree) (ours : Option Bytes)
      → Adjacent (e, n₁) (d, n₀) xs
      → mem d (lower_doomed l xs ours) ≡ true
  unfolding lower_doomed mem
  mem-lower_doomed-Adjacent [] ours i = elim i [ ]
  mem-lower_doomed-Adjacent ((j, n) ∷ []) ours (inl (p, w)) = elim w [ ]
  mem-lower_doomed-Adjacent (x ∷ (y ∷ xs)) ours (inl (p, w)) =
      subst (λ x. mem d (lower_doomed l (x ∷ (y ∷ xs)) ours) ≡ true) (sym p)
        (subst (λ y. mem d (lower_doomed l ((e, n₁) ∷ (y ∷ xs)) ours) ≡ true) (sym w)
          (mem-lower_doomed_first xs ours))
  mem-lower_doomed-Adjacent ((j, n) ∷ xs) ours (inr i) =
      let rest = mem-lower_doomed-Adjacent xs (if is_layer n.named_by l then some j else ours) i in
      ground (arith, rest)
