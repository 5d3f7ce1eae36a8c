-- ===== src/Plan/Removal/Order.antt =====
-- The keys that begin with a bound, and the order (source/src/extract/plan.rs).
use rules_oci_runtime.Prelude.{
  ◌≡◌, ◌≢◌, ◌↔◌, inl, inr, refl, sym, ap, ◌∙◌, Ordering, true, false, not, ◌&&◌, Option, none, some,
  [], ◌∷◌, ◌++◌, Bytes, ◌=b◌, =b_refl, eq_of_=b, Bool-cases, both_true, arith,
}
use rules_oci_runtime.OrderedMap.{is_lt, is_some}
use rules_oci_runtime.Plan.Key.{lex}
use rules_oci_runtime.Plan.Tree.{starts_with, root_entry}
use rules_oci_runtime.Fsutil.{slash}
use rules_oci_runtime.Whiteout.{strip_prefix}
use rules_oci_runtime.Whiteout.Meaning.{strip_prefix-append, strip_prefix-some}
use rules_oci_runtime.Plan.Removal.{bound_of}

-- What begins with a bound does not lie below it.
pub starts_with-ge : (p bound : Bytes) → starts_with p bound ≡ true → is_lt (lex p bound) ≡ false
unfolding starts_with lex
starts_with-ge [] [] h = refl
starts_with-ge (x ∷ xs) [] h = refl
starts_with-ge [] (b ∷ bs) h = cc
starts_with-ge (x ∷ xs) (b ∷ bs) h = ground (arith, starts_with-ge xs bs)

-- What lies between a bound and a path that begins with it begins with it too.
pub starts_with_between :
    (q p bound : Bytes)
    → is_lt (lex q bound) ≡ false
    → lex q p ≡ Ordering.lt
    → starts_with p bound ≡ true
    → starts_with q bound ≡ true
unfolding starts_with lex
starts_with_between q p [] h k s = refl
starts_with_between [] p (b ∷ bs) h k s = cc
starts_with_between (y ∷ ys) [] (b ∷ bs) h k s = cc
starts_with_between (y ∷ ys) (x ∷ xs) (b ∷ bs) h k s = ground (arith, starts_with_between ys xs bs)

-- A path beneath a directory: any but the rootfs beneath the empty one, and otherwise the
-- directory, a slash and anything.
abbrev pub IsBeneath : Bytes → Bytes → Type 0
IsBeneath [] p = p ≢ root_entry
IsBeneath (c ∷ dir) p = (p ≢ root_entry) × ((y : Bytes) × (p ≡ (c ∷ dir) ++ (slash ∷ y)))

starts_with_iff :
    (p bound : Bytes) → (starts_with p bound ≡ true) ↔ ((y : Bytes) × (p ≡ bound ++ y))
unfolding starts_with
starts_with_iff p bound =
    (λ h. go (strip_prefix bound p) refl h, λ (y, e). rw (e, strip_prefix-append bound y) refl)
  where
    go :
        (o : Option Bytes)
        → strip_prefix bound p ≡ o
        → is_some o ≡ true
        → (y : Bytes) × (p ≡ bound ++ y)
    go none e h = cc
    go (some y) e h = (y, strip_prefix-some bound p y e)

append_assoc : (xs ys zs : Bytes) → (xs ++ ys) ++ zs ≡ xs ++ (ys ++ zs)
append_assoc [] ys zs = refl
append_assoc (x ∷ xs) ys zs = ap (λ t. x ∷ t) (append_assoc xs ys zs)

not_root_iff : (p : Bytes) → (not (p =b root_entry) ≡ true) ↔ (p ≢ root_entry)
not_root_iff p = elim (Bool-cases (p =b root_entry)) [
  | inl e ↦ (λ h. absurd (cc (h, e)), λ n. absurd (n (eq_of_=b p root_entry e)))
  | inr e ↦ (λ h q. cc (e, q, =b_refl p), λ n. rw e refl)
]

pub lies_under_iff :
    (dir p : Bytes)
    → ((starts_with p (bound_of dir) && not (p =b root_entry)) ≡ true) ↔ IsBeneath dir p
lies_under_iff [] p = (
  λ h. (not_root_iff p).0 ((both_true (starts_with p []) _).0 h).1,
  λ n.
      (both_true (starts_with p []) _).1 ((starts_with_iff p []).1 (p, refl), (not_root_iff p).1 n),
)
lies_under_iff (c ∷ dir) p =
    let bound = (c ∷ dir) ++ (slash ∷ []) in
    (
      λ h.
          let (s, n) = (both_true (starts_with p bound) (not (p =b root_entry))).0 h in
          let (y, e) = (starts_with_iff p bound).0 s in
          ((not_root_iff p).0 n, (y, e ∙ append_assoc (c ∷ dir) (slash ∷ []) y)),
      λ (n, (y, e)). (both_true (starts_with p bound) (not (p =b root_entry))).1 (
        (starts_with_iff p bound).1 (y, e ∙ sym (append_assoc (c ∷ dir) (slash ∷ []) y)),
        (not_root_iff p).1 n,
      ),
    )
