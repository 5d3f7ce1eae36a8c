-- ===== src/Plan/Key.antt =====
-- `Key::cmp`: the order of the paths in the tree, compared eight bytes at a time.
pub mod Order
use rules_oci_runtime.Prelude.{
  ℕ, zero, suc, ◌/◌, min, compare, Ordering, Bool, true, false, List, [], ◌∷◌, Bytes, length, take,
  drop, ◌==◌, if◌then◌else◌, from_be_bytes,
}

-- `Ordering::then`
abbrev pub then_cmp : Ordering → Ordering → Ordering
then_cmp Ordering.lt o = Ordering.lt
then_cmp Ordering.eq o = o
then_cmp Ordering.gt o = Ordering.gt

-- The bytes that no word takes, and then the lengths.
cmp_remainder : Bytes → Bytes → Ordering → Ordering
cmp_remainder (x ∷ xs) (y ∷ ys) lengths =
    let rest = cmp_remainder xs ys lengths in if x == y then rest else compare x y
cmp_remainder _ _ lengths = lengths

-- The loop over `chunks_exact(8)`, by the number of chunks.
cmp_words : ℕ → Bytes → Bytes → Ordering → Ordering
cmp_words zero ours theirs lengths = cmp_remainder ours theirs lengths
cmp_words (suc chunks) ours theirs lengths =
    let a = from_be_bytes (take 8 ours) 0 in
    let b = from_be_bytes (take 8 theirs) 0 in
    let rest = cmp_words chunks (drop 8 ours) (drop 8 theirs) lengths in
    if a == b then rest else compare a b

unfoldable pub key_cmp : Bytes → Bytes → Ordering
unfolding cmp_words cmp_remainder
key_cmp ours theirs =
    let common = min (length ours) (length theirs) in
    cmp_words (common / 8) (take common ours) (take common theirs)
      (compare (length ours) (length theirs))

-- The order of byte strings, `[u8]`'s own `cmp`.
unfoldable pub lex : Bytes → Bytes → Ordering
lex [] [] = Ordering.eq
lex [] (y ∷ ys) = Ordering.lt
lex (x ∷ xs) [] = Ordering.gt
lex (x ∷ xs) (y ∷ ys) = then_cmp (compare x y) (lex xs ys)
