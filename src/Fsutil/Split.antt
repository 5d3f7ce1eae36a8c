-- ===== src/Fsutil/Split.antt =====
-- Splitting at a separator and joining with it, for `components` of source/src/fsutil.rs.
use rules_oci_runtime.Prelude.{
  ℕ, ◌≡◌, ◌≢◌, refl, List, [], ◌∷◌, ◌++◌, Bytes, ◌==◌, arith, All, Bool-cases, inl, inr,
}
use rules_oci_runtime.Fsutil.{split_on, push_head}

-- A piece that holds no separator.
abbrev pub Lacks : ℕ → Bytes → Type 0
Lacks c = All (λ x. x ≢ c)

pub split_on-ne-nil : (c : ℕ) (xs : Bytes) → split_on c xs ≢ []
unfolding split_on
split_on-ne-nil c [] = ground arith
split_on-ne-nil c (x ∷ xs) = ground (arith, split_on-ne-nil c xs)

push_head-Lacks :
    (c x : ℕ) (ss : List Bytes) → x ≢ c → All (Lacks c) ss → All (Lacks c) (push_head x ss)
push_head-Lacks c x [] h k = ((h, tt), tt)
push_head-Lacks c x (s ∷ ss) h k = ((h, k.0), k.1)

-- No piece of a split holds the separator.
pub split_on-Lacks : (c : ℕ) (xs : Bytes) → All (Lacks c) (split_on c xs)
unfolding split_on
split_on-Lacks c [] = (tt, tt)
split_on-Lacks c (x ∷ xs) = elim (Bool-cases (x == c)) [
  | inl e ↦ rw e (tt, split_on-Lacks c xs)
  | inr e ↦ rw e (push_head-Lacks c x _ (ground arith) (split_on-Lacks c xs))
]

pub split_on_lacking : (c : ℕ) (xs : Bytes) → Lacks c xs → split_on c xs ≡ xs ∷ []
unfolding split_on
split_on_lacking c [] h = refl
split_on_lacking c (x ∷ xs) h = rw (split_on_lacking c xs h.1) (ground (arith, h.0))

pub split_on-append :
    (c : ℕ) (xs ys : Bytes) → Lacks c xs → split_on c (xs ++ (c ∷ ys)) ≡ xs ∷ split_on c ys
unfolding split_on
split_on-append c [] ys h = ground arith
split_on-append c (x ∷ xs) ys h = rw (split_on-append c xs ys h.1) (ground (arith, h.0))

push_head-append :
    (x : ℕ) (ss ts : List Bytes) → ss ≢ [] → push_head x (ss ++ ts) ≡ push_head x ss ++ ts
push_head-append x [] ts n = absurd (n refl)
push_head-append x (s ∷ ss) ts n = refl

-- A separator cuts a split in two, whatever stands before it.
pub split_on-cut :
    (c : ℕ) (xs ys : Bytes) → split_on c (xs ++ (c ∷ ys)) ≡ split_on c xs ++ split_on c ys
unfolding split_on
split_on-cut c [] ys = ground arith
split_on-cut c (x ∷ xs) ys = elim (Bool-cases (x == c)) [
  | inl e ↦ rw (e, split_on-cut c xs ys)
  | inr e ↦ rw (e, split_on-cut c xs ys) (push_head-append x _ _ (split_on-ne-nil c xs))
]
