-- ===== src/Plan/Key/Order.antt =====
-- The comparison of keys (`Key::cmp` of source/src/extract/plan.rs) and the order of bytes.
use rules_oci_runtime.Prelude.{
  ℕ, zero, suc, ◌+◌, ◌*◌, ◌/◌, ◌<◌, min, ◌≡◌, refl, sym, ap, ◌∙◌, ◌↔◌, compare, Ordering, [], ◌∷◌,
  Bytes, length, take, drop, ◌==◌, if◌then◌else◌, from_be_bytes, arith, AreBytes, length-take,
  length-drop,
}
use mathlib.Core.Path.{ap₂}
use rules_oci_runtime.Plan.Key.{then_cmp, cmp_remainder, cmp_words, key_cmp, lex}

compare_digit :
    (a b x y : ℕ)
    → x < 256
    → y < 256
    → compare (a * 256 + x) (b * 256 + y) ≡ then_cmp (compare a b) (compare x y)
compare_digit a b x y h k = ground arith

then_cmp_assoc : (a b c : Ordering) → then_cmp (then_cmp a b) c ≡ then_cmp a (then_cmp b c)
then_cmp_assoc Ordering.lt b c = refl
then_cmp_assoc Ordering.eq b c = refl
then_cmp_assoc Ordering.gt b c = refl

-- Words of one width compare as their bytes do, big end first.
compare-from_be_bytes :
    (xs ys : Bytes) (a b : ℕ)
    → length xs ≡ length ys
    → AreBytes xs
    → AreBytes ys
    → compare (from_be_bytes xs a) (from_be_bytes ys b) ≡ then_cmp (compare a b) (lex xs ys)
unfolding from_be_bytes lex
compare-from_be_bytes [] [] a b e h k = ground arith
compare-from_be_bytes [] (y ∷ ys) a b e h k = absurd (omega arith)
compare-from_be_bytes (x ∷ xs) [] a b e h k = absurd (omega arith)
compare-from_be_bytes (x ∷ xs) (y ∷ ys) a b e h k =
    compare-from_be_bytes xs ys _ _ (omega arith) h.1 k.1
    ∙ ap (λ o. then_cmp o (lex xs ys)) (compare_digit a b x y h.0 k.0)
    ∙ then_cmp_assoc (compare a b) (compare x y) (lex xs ys)

-- Equal widths can be cut anywhere.
lex_cut :
    (n : ℕ) (xs ys : Bytes)
    → length xs ≡ length ys
    → lex xs ys ≡ then_cmp (lex (take n xs) (take n ys)) (lex (drop n xs) (drop n ys))
unfolding lex
lex_cut zero xs ys e = refl
lex_cut (suc n) [] [] e = refl
lex_cut (suc n) [] (y ∷ ys) e = absurd (omega arith)
lex_cut (suc n) (x ∷ xs) [] e = absurd (omega arith)
lex_cut (suc n) (x ∷ xs) (y ∷ ys) e =
    ap (then_cmp (compare x y)) (lex_cut n xs ys (omega arith))
    ∙ sym (then_cmp_assoc (compare x y) _ _)

-- The common length decides first, and then the lengths.
lex_common :
    (c : ℕ) (xs ys : Bytes)
    → c ≡ min (length xs) (length ys)
    → lex xs ys ≡ then_cmp (lex (take c xs) (take c ys)) (compare (length xs) (length ys))
unfolding lex
lex_common zero [] [] e = ground arith
lex_common zero [] (y ∷ ys) e = ground arith
lex_common zero (x ∷ xs) [] e = ground arith
lex_common zero (x ∷ xs) (y ∷ ys) e = absurd (omega arith)
lex_common (suc c) [] ys e = absurd (omega arith)
lex_common (suc c) (x ∷ xs) [] e = absurd (omega arith)
lex_common (suc c) (x ∷ xs) (y ∷ ys) e =
    ap (then_cmp (compare x y)) (lex_common c xs ys (omega arith))
    ∙ sym (then_cmp_assoc (compare x y) _ _)
    ∙ ap (then_cmp (then_cmp (compare x y) (lex (take c xs) (take c ys)))) (ground arith)

cmp_remainder-eq-lex :
    (xs ys : Bytes) (o : Ordering)
    → length xs ≡ length ys
    → cmp_remainder xs ys o ≡ then_cmp (lex xs ys) o
unfolding cmp_remainder lex
cmp_remainder-eq-lex [] [] o e = refl
cmp_remainder-eq-lex [] (y ∷ ys) o e = absurd (omega arith)
cmp_remainder-eq-lex (x ∷ xs) [] o e = absurd (omega arith)
cmp_remainder-eq-lex (x ∷ xs) (y ∷ ys) o e = ground (arith, cmp_remainder-eq-lex xs ys o)

AreBytes-take : (n : ℕ) (xs : Bytes) → AreBytes xs → AreBytes (take n xs)
AreBytes-take zero xs h = tt
AreBytes-take (suc n) [] h = tt
AreBytes-take (suc n) (x ∷ xs) h = (h.0, AreBytes-take n xs h.1)

AreBytes-drop : (n : ℕ) (xs : Bytes) → AreBytes xs → AreBytes (drop n xs)
AreBytes-drop zero xs h = h
AreBytes-drop (suc n) [] h = tt
AreBytes-drop (suc n) (x ∷ xs) h = AreBytes-drop n xs h.1

if_then_cmp :
    (a b : ℕ) (o : Ordering) → (if a == b then o else compare a b) ≡ then_cmp (compare a b) o
if_then_cmp a b o = ground arith

cmp_words-eq-lex :
    (k : ℕ) (xs ys : Bytes) (o : Ordering)
    → length xs ≡ length ys
    → AreBytes xs
    → AreBytes ys
    → cmp_words k xs ys o ≡ then_cmp (lex xs ys) o
unfolding cmp_words
cmp_words-eq-lex zero xs ys o e h k = cmp_remainder-eq-lex xs ys o e
cmp_words-eq-lex (suc n) xs ys o e h k =
    let words : compare (from_be_bytes (take 8 xs) 0) (from_be_bytes (take 8 ys) 0)
        ≡ lex (take 8 xs) (take 8 ys) =
      compare-from_be_bytes (take 8 xs) (take 8 ys) 0 0
        (omega (arith, length-take 8 xs, length-take 8 ys)) (AreBytes-take 8 xs h)
        (AreBytes-take 8 ys k) in
    let rest : cmp_words n (drop 8 xs) (drop 8 ys) o ≡ then_cmp (lex (drop 8 xs) (drop 8 ys)) o =
      cmp_words-eq-lex n (drop 8 xs) (drop 8 ys) o
        (omega (arith, length-drop 8 xs, length-drop 8 ys)) (AreBytes-drop 8 xs h)
        (AreBytes-drop 8 ys k) in
    if_then_cmp (from_be_bytes (take 8 xs) 0) (from_be_bytes (take 8 ys) 0)
      (cmp_words n (drop 8 xs) (drop 8 ys) o)
    ∙ ap₂ then_cmp words rest
    ∙ sym (then_cmp_assoc (lex (take 8 xs) (take 8 ys)) _ o)
    ∙ ap (λ t. then_cmp t o) (sym (lex_cut 8 xs ys e))

-- The comparison of two paths of the tree, given as bytes, is that of the byte strings.
pub key_cmp-eq-lex : (xs ys : Bytes) → AreBytes xs → AreBytes ys → key_cmp xs ys ≡ lex xs ys
unfolding key_cmp
key_cmp-eq-lex xs ys h k =
    let c = min (length xs) (length ys) in
    cmp_words-eq-lex (c / 8) (take c xs) (take c ys) _
      (omega (arith, length-take c xs, length-take c ys)) (AreBytes-take c xs h)
      (AreBytes-take c ys k)
    ∙ sym (lex_common c xs ys refl)

pub lex_refl : (xs : Bytes) → lex xs xs ≡ Ordering.eq
unfolding lex
lex_refl [] = refl
lex_refl (x ∷ xs) = ground (arith, lex_refl xs)

pub lex_of_eq : (xs ys : Bytes) → xs ≡ ys → lex xs ys ≡ Ordering.eq
lex_of_eq xs ys e = rw (← e) (lex_refl xs)

pub eq_of_lex : (xs ys : Bytes) → lex xs ys ≡ Ordering.eq → xs ≡ ys
unfolding lex
eq_of_lex [] [] h = refl
eq_of_lex [] (y ∷ ys) h = cc
eq_of_lex (x ∷ xs) [] h = cc
eq_of_lex (x ∷ xs) (y ∷ ys) h = ground (arith, eq_of_lex xs ys)

pub lex_swap : (xs ys : Bytes) → (lex xs ys ≡ Ordering.lt) ↔ (lex ys xs ≡ Ordering.gt)
unfolding lex
lex_swap [] [] = (λ h. cc, λ h. cc)
lex_swap [] (y ∷ ys) = (λ h. refl, λ h. refl)
lex_swap (x ∷ xs) [] = (λ h. cc, λ h. cc)
lex_swap (x ∷ xs) (y ∷ ys) =
    (λ h. ground (arith, (lex_swap xs ys).0), λ h. ground (arith, (lex_swap xs ys).1))

pub lex_trans :
    (xs ys zs : Bytes) → lex xs ys ≡ Ordering.lt → lex ys zs ≡ Ordering.lt → lex xs zs ≡ Ordering.lt
unfolding lex
lex_trans xs [] [] h k = cc
lex_trans xs (y ∷ ys) [] h k = cc
lex_trans [] ys (z ∷ zs) h k = refl
lex_trans (x ∷ xs) [] (z ∷ zs) h k = cc
lex_trans (x ∷ xs) (y ∷ ys) (z ∷ zs) h k = ground (arith, lex_trans xs ys zs)
