-- ===== src/Plan/Directories/Ancestors.antt =====
-- The ancestors of a path of the tree (`ancestors` of source/src/extract/plan.rs).
use rules_oci_runtime.Prelude.{
  ℕ, ◌≡◌, refl, Bool, true, false, not, ◌&&◌, Option, none, some, List, [], ◌∷◌, ◌++◌, Bytes, ◌==◌,
  if◌then◌else◌, All, All-append, Bool-cases, inl, inr,
}
use mathlib.Core.List.{append-nil, append_assoc}
use rules_oci_runtime.Fsutil.{slash, is_empty}
use rules_oci_runtime.OrderedMap.{get, is_some}
use rules_oci_runtime.Plan.Tree.{
  Tree, Node, ancestors_from, ancestors, blocks, first_blocking, behind_a_link, or_else,
}

abbrev step : Bytes → ℕ → List Bytes
step read x = if x == slash && not (is_empty read) then read ∷ [] else []

ancestors_from-snoc :
    (read ys : Bytes) (x : ℕ)
    → ancestors_from read (ys ++ (x ∷ [])) ≡ ancestors_from read ys ++ step (read ++ ys) x
unfolding ancestors_from
ancestors_from-snoc read [] x = rw append-nil refl
ancestors_from-snoc read (y ∷ ys) x =
    rw (ancestors_from-snoc (read ++ (y ∷ [])) ys x, append_assoc read (y ∷ []) ys)
      (elim (Bool-cases (y == slash && not (is_empty read))) [
        | inl e ↦ rw e refl
        | inr e ↦ rw e refl
      ])

ancestors-snoc :
    (read : Bytes) (x : ℕ) → ancestors (read ++ (x ∷ [])) ≡ ancestors read ++ step read x
unfolding ancestors
ancestors-snoc read x = ancestors_from-snoc [] read x

module _ {κ} (P : Bytes → Type κ) where
  All-ancestors_from :
      (read xs : Bytes)
      → All P (ancestors read)
      → All P (ancestors_from read xs)
      → All (λ a. All P (ancestors a)) (ancestors_from read xs)
  unfolding ancestors_from
  All-ancestors_from read [] h k = tt
  All-ancestors_from read (x ∷ xs) h k =
      go (x == slash && not (is_empty read)) k
        (λ own. All-ancestors_from (read ++ (x ∷ [])) xs (rw (ancestors-snoc read x) own))
    where
      go :
          (b : Bool)
          → All P (
              if b
              then read ∷ ancestors_from (read ++ (x ∷ [])) xs
              else ancestors_from (read ++ (x ∷ [])) xs)
          → (All P (ancestors read ++ (if b then read ∷ [] else []))
              → All P (ancestors_from (read ++ (x ∷ [])) xs)
              → All (λ a. All P (ancestors a)) (ancestors_from (read ++ (x ∷ [])) xs))
          → All
              (λ a. All P (ancestors a))
              (if b
                then read ∷ ancestors_from (read ++ (x ∷ [])) xs
                else ancestors_from (read ++ (x ∷ [])) xs)
      go true k ih = (h, ih (All-append P (ancestors read) (read ∷ []) h (k.0, tt)) k.1)
      go false k ih = ih (All-append P (ancestors read) [] h tt) k

  -- What holds of every ancestor of a path holds of every ancestor of each of them.
  pub All-ancestors :
      (path : Bytes) → All P (ancestors path) → All (λ a. All P (ancestors a)) (ancestors path)
  unfolding ancestors
  All-ancestors path k = All-ancestors_from [] path tt k

-- Nothing that is no directory stands at the path.
abbrev pub Clear : Tree → Bytes → Type 0
Clear tree a = blocks a (get a tree) ≡ none

first_blocking-none :
    (tree : Tree) (ps : List Bytes) → is_some (first_blocking tree ps) ≡ false → All (Clear tree) ps
unfolding first_blocking
first_blocking-none tree [] h = tt
first_blocking-none tree (a ∷ ps) h =
    go (blocks a (get a tree)) refl h (first_blocking-none tree ps)
  where
    go :
        (r : Option (Bytes × Node))
        → blocks a (get a tree) ≡ r
        → is_some (or_else r (first_blocking tree ps)) ≡ false
        → (is_some (first_blocking tree ps) ≡ false → All (Clear tree) ps)
        → All (Clear tree) (a ∷ ps)
    go none e k ih = (e, ih k)
    go (some x) e k ih = cc

first_blocking-Clear :
    (tree : Tree) (ps : List Bytes) → All (Clear tree) ps → is_some (first_blocking tree ps) ≡ false
unfolding first_blocking
first_blocking-Clear tree [] h = refl
first_blocking-Clear tree (a ∷ ps) h = rw h.0 (first_blocking-Clear tree ps h.1)

pub behind_a_link-false :
    (tree : Tree) (path : Bytes)
    → behind_a_link tree path ≡ false
    → All (Clear tree) (ancestors path)
unfolding behind_a_link
behind_a_link-false tree path h = first_blocking-none tree (ancestors path) h

All-map {ℓ κ} :
    {P : Bytes → Type ℓ} {Q : Bytes → Type κ} (f : (a : Bytes) → P a → Q a) (ps : List Bytes)
    → All P ps
    → All Q ps
All-map f [] a = tt
All-map f (p ∷ ps) a = (f p a.0, All-map f ps a.1)

-- What is behind no link has only ancestors that are behind no link.
pub behind_a_link-ancestors :
    (tree : Tree) (path : Bytes)
    → behind_a_link tree path ≡ false
    → All (λ a. behind_a_link tree a ≡ false) (ancestors path)
unfolding behind_a_link
behind_a_link-ancestors tree path h =
    All-map (λ a c. first_blocking-Clear tree (ancestors a) c) (ancestors path)
      (All-ancestors (Clear tree) path (first_blocking-none tree (ancestors path) h))
