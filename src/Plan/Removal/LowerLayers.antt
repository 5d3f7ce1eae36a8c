-- ===== src/Plan/Removal/LowerLayers.antt =====
-- What an opaque marker clears (`remove_under` of source/src/extract/plan.rs).
use rules_oci_runtime.Prelude.{
  ℕ, ◌≡◌, ◌⊎◌, refl, sym, ◌∙◌, Bool, true, false, not, ◌&&◌, Option, none, some, [], ◌∷◌, ◌++◌,
  Bytes, ◌=b◌, eq_of_=b, if◌then◌else◌, arith, All, Bool-cases, inl, inr,
}
use mathlib.Core.List.{reverse, reverse_aux}
use rules_oci_runtime.Fsutil.{slash}
use rules_oci_runtime.OrderedMap.{is_lt, get, range_from}
use rules_oci_runtime.OrderedMap.Sorted.{◌≺◌, Below, IsSorted}
use mathlib.Core.Option.{some-injective}
use rules_oci_runtime.Plan.Key.{lex}
use rules_oci_runtime.Plan.Key.Order.{lex_of_eq}
use rules_oci_runtime.Plan.Tree.{Node, Tree, starts_with, root_entry, names_itself}
use rules_oci_runtime.Plan.Removal.{
  lower_layers, bound_of, take_under, without_root, entries_under, is_layer, lower_doomed, doomed,
  remove_under,
}
use rules_oci_runtime.Plan.Removal.Adjacent.{
  Adjacent, Adjacent-entries_under, Adjacent-reverse, mem-lower_doomed-Adjacent,
}
use rules_oci_runtime.Plan.Removal.Whole.{mem, get-remove_all, lies_under}

-- A selection of entries keeps what all entries have.
module _ {κ} (P : Bytes × Node → Type κ) where
  All-range_from : (bound : Bytes) (tree : Tree) → All P tree → All P (range_from bound tree)
  unfolding range_from
  All-range_from bound [] a = tt
  All-range_from bound ((j, n) ∷ m) a = elim (Bool-cases (is_lt (lex j bound))) [
    | inl e ↦ rw (e, range_from) (All-range_from bound m a.1)
    | inr e ↦ rw (e, range_from) a
  ]

  All-take_under : (bound : Bytes) (tree : Tree) → All P tree → All P (take_under bound tree)
  unfolding take_under
  All-take_under bound [] a = tt
  All-take_under bound ((j, n) ∷ m) a = elim (Bool-cases (starts_with j bound)) [
    | inl e ↦ rw (e, take_under) (a.0, All-take_under bound m a.1)
    | inr e ↦ rw (e, take_under) tt
  ]

  All-without_root : (tree : Tree) → All P tree → All P (without_root tree)
  unfolding without_root
  All-without_root [] a = tt
  All-without_root ((j, n) ∷ m) a = elim (Bool-cases (j =b root_entry)) [
    | inl e ↦ rw (e, without_root) (All-without_root m a.1)
    | inr e ↦ rw (e, without_root) (a.0, All-without_root m a.1)
  ]

  All-entries_under : (dir : Bytes) (tree : Tree) → All P tree → All P (entries_under dir tree)
  unfolding entries_under
  All-entries_under dir tree a = All-without_root _ (All-take_under _ _ (All-range_from _ tree a))

  All-reverse_aux : (xs acc : Tree) → All P xs → All P acc → All P (reverse_aux xs acc)
  All-reverse_aux [] acc a b = b
  All-reverse_aux (x ∷ xs) acc a b = All-reverse_aux xs (x ∷ acc) a.1 (a.0, b)

  All-reverse : (xs : Tree) → All P xs → All P (reverse xs)
  All-reverse xs a = All-reverse_aux xs [] a tt

entries_under-lies_under :
    (dir : Bytes) (tree : Tree) → All (λ e. lies_under dir e.0 ≡ true) (entries_under dir tree)
unfolding entries_under lies_under
entries_under-lies_under dir tree =
    rootless (take_under (bound_of dir) (range_from (bound_of dir) tree))
      (begins (range_from (bound_of dir) tree))
  where
    begins :
        (t : Tree)
        → All
            (λ (e : Bytes × Node). starts_with e.0 (bound_of dir) ≡ true)
            (take_under (bound_of dir) t)
    begins [] = tt
    begins ((j, n) ∷ m) = elim (Bool-cases (starts_with j (bound_of dir))) [
      | inl e ↦ rw (e, take_under) (e, begins m)
      | inr e ↦ rw (e, take_under) tt
    ]

    rootless :
        (t : Tree)
        → All (λ (e : Bytes × Node). starts_with e.0 (bound_of dir) ≡ true) t
        → All
            (λ (e : Bytes × Node).
              (starts_with e.0 (bound_of dir) && not (e.0 =b root_entry)) ≡ true)
            (without_root t)
    rootless [] a = tt
    rootless ((j, n) ∷ m) a = elim (Bool-cases (j =b root_entry)) [
      | inl e ↦ rw (e, without_root) (rootless m a.1)
      | inr e ↦ rw (e, without_root) (rw (a.0, e) refl, rootless m a.1)
    ]

-- A key stands once in a sorted tree.
All-unique :
    (p : Bytes) (n : Node) (tree : Tree)
    → IsSorted tree
    → get p tree ≡ some n
    → All (λ e. (p =b e.0) ≡ true → e.1 ≡ n) tree
unfolding get
All-unique p n [] s e = tt
All-unique p n ((j, m) ∷ t) s e = go (p =b j) refl e (All-unique p n t s.1)
  where
    above :
        (u : Tree)
        → (p =b j) ≡ true
        → Below j u
        → All (λ (x : Bytes × Node). (p =b x.0) ≡ true → x.1 ≡ n) u
    above [] d b = tt
    above ((i, k) ∷ u) d b =
        (λ h. cc (b.0, lex_of_eq j i (sym (eq_of_=b p j d) ∙ eq_of_=b p i h)), above u d b.1)

    go :
        (b : Bool)
        → (p =b j) ≡ b
        → (if b then some m else get p t) ≡ some n
        → (get p t ≡ some n → All (λ (x : Bytes × Node). (p =b x.0) ≡ true → x.1 ≡ n) t)
        → All (λ (x : Bytes × Node). (p =b x.0) ≡ true → x.1 ≡ n) ((j, m) ∷ t)
    go true d h ih = (λ _. some-injective m n h, above t d s.0)
    go false d h ih = (λ k. cc (d, k), ih h)

mem-lower_doomed :
    (l : ℕ) (p : Bytes) (es : Tree) (ours : Option Bytes)
    → All (λ e. (p =b e.0) ≡ true → is_layer e.1.named_by l ≡ true) es
    → mem p (lower_doomed l es ours) ≡ false
unfolding mem lower_doomed
mem-lower_doomed l p [] ours a = refl
mem-lower_doomed l p ((j, n) ∷ m) ours a =
    ground (arith, mem-lower_doomed l p m (if is_layer n.named_by l then some j else ours) a.1, a.0)

All-map {ℓ κ} :
    {P : Bytes × Node → Type ℓ} {Q : Bytes × Node → Type κ} (f : (e : Bytes × Node) → P e → Q e)
    (es : Tree)
    → All P es
    → All Q es
All-map f [] a = tt
All-map f (e ∷ es) a = (f e a.0, All-map f es a.1)

-- In a tree in order, a path survives an opaque marker as it was where the layer of the marker
-- named it last, or where it does not lie under the directory.
pub get-remove_under_lower :
    (tree : Tree) (dir p : Bytes) (l : ℕ) (n : Node)
    → IsSorted tree
    → get p tree ≡ some n
    → (is_layer n.named_by l ≡ true) ⊎ (lies_under dir p ≡ false)
    → get p (remove_under tree dir (lower_layers l)) ≡ some n
unfolding remove_under doomed
get-remove_under_lower tree dir p l n s e w =
    get-remove_all (lower_doomed l (reverse (entries_under dir tree)) none) p tree
    ∙ rw
        (
          mem-lower_doomed l p (reverse (entries_under dir tree)) none (All-reverse _ _ (spared w)),
          e,
        )
        refl
  where
    spared :
        (is_layer n.named_by l ≡ true) ⊎ (lies_under dir p ≡ false)
        → All
            (λ (x : Bytes × Node). (p =b x.0) ≡ true → is_layer x.1.named_by l ≡ true)
            (entries_under dir tree)
    spared (inl mine) =
        All-entries_under _ dir tree
          (All-map (λ x h k. rw (h k) mine) tree (All-unique p n tree s e))
    spared (inr elsewhere) =
        All-map (λ x h k. cc (h, elsewhere, eq_of_=b p x.0 k)) _ (entries_under-lies_under dir tree)

pub lex_longer : (d : Bytes) (c : ℕ) (xs : Bytes) → d ≺ d ++ (c ∷ xs)
unfolding lex
lex_longer [] c xs = refl
lex_longer (x ∷ d) c xs = ground (arith, lex_longer d c xs)

-- In a tree in order, an opaque marker takes from the tree a directory that lies under its own and
-- that its layer did not name, where the path directly behind the directory in the order of the
-- paths lies under the marker's directory too, was named by the layer and does not lie in the
-- directory that is taken; what the layer named in that directory stays all the same.
pub directory_lost :
    (tree : Tree) (dir d e y : Bytes) (l : ℕ) (n₀ n₁ n₂ : Node)
    → IsSorted tree
    → Adjacent (d, n₀) (e, n₁) tree
    → lies_under dir d ≡ true
    → lies_under dir e ≡ true
    → names_itself d e ≡ false
    → is_layer n₀.named_by l ≡ false
    → is_layer n₁.named_by l ≡ true
    → get (d ++ (slash ∷ y)) tree ≡ some n₂
    → is_layer n₂.named_by l ≡ true
    → (get d (remove_under tree dir (lower_layers l)) ≡ none)
      × (get (d ++ (slash ∷ y)) (remove_under tree dir (lower_layers l)) ≡ some n₂)
directory_lost tree dir d e y l n₀ n₁ n₂ s a u v c m₀ m₁ g m₂ = (
  unfold remove_under doomed in
      get-remove_all (lower_doomed l (reverse (entries_under dir tree)) none) d tree
      ∙ rw
          (mem-lower_doomed-Adjacent d e n₀ n₁ l c m₀ m₁ _ none
            (Adjacent-reverse _ _ _ (Adjacent-entries_under dir tree (d, n₀) (e, n₁) s u v a)))
          refl,
  get-remove_under_lower tree dir (d ++ (slash ∷ y)) l n₂ s g (inl m₂),
)
