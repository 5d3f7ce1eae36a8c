-- ===== src/Spec/Mounts/Accepted.antt =====
-- The bind mounts that `BindMount::parse` of source/src/spec.rs accepts.
use rules_oci_runtime.Prelude.{
  ℕ, ◌≡◌, ◌≢◌, inl, inr, refl, Bool, true, false, not, ◌||◌, Option, none, some, List, [], ◌∷◌,
  Bytes, ◌==◌, if◌then◌else◌, any, keep_if, All, codes, ok, err, ok-injective, Bool-cases, arith,
}
use mathlib.Core.Path.{subst}
use rules_oci_runtime.Errors.{invalid_mount}
use rules_oci_runtime.Fsutil.{is_empty, split_on}
use rules_oci_runtime.Fsutil.Split.{Lacks, split_on-Lacks}
use rules_oci_runtime.Spec.Env.{split_once, with_first}
use rules_oci_runtime.Spec.Mounts.{
  BindMount, fields, first_fields, second_fields, is_whitespace, begins_with_slash, is_given,
  given_options, or_rw, parse_fields, parse,
}
use rules_oci_runtime.Spec.Mounts.RoundTrip.{IsOption, IsBindMount}

-- What stands before the separator does not hold it; where there is none, nothing does.
abbrev Separated : ℕ → Bytes → Option (Bytes × Bytes) → Type 0
Separated c xs none = Lacks c xs
Separated c xs (some (before, behind)) = Lacks c before

split_once-Separated : (c : ℕ) (xs : Bytes) → Separated c xs (split_once c xs)
unfolding split_once
split_once-Separated c [] = tt
split_once-Separated c (x ∷ xs) = elim (Bool-cases (x == c)) [
  | inl e ↦ rw e tt
  | inr e ↦ rw e (go (split_once c xs) (split_once-Separated c xs) (ground arith))
]
  where
    go :
        (o : Option (Bytes × Bytes))
        → Separated c xs o
        → x ≢ c
        → Separated c (x ∷ xs) (with_first x o)
    go none h n = (n, h)
    go (some (a, b)) h n = (n, h)

fields-Lacks : (value : Bytes) → Lacks b':' (fields value).0 × Lacks b':' (fields value).1
unfolding fields
fields-Lacks value = go (split_once b':' value) (split_once-Separated b':' value)
  where
    behind :
        (source rest : Bytes) (o : Option (Bytes × Bytes))
        → Separated b':' rest o
        → Lacks b':' source
        → Lacks b':' (second_fields source rest o).0 × Lacks b':' (second_fields source rest o).1
    behind source rest none h k = (k, h)
    behind source rest (some (d, os)) h k = (k, h)

    go :
        (o : Option (Bytes × Bytes))
        → Separated b':' value o
        → Lacks b':' (first_fields value o).0 × Lacks b':' (first_fields value o).1
    go none h = (h, tt)
    go (some (source, rest)) h =
        behind source rest (split_once b':' rest) (split_once-Separated b':' rest) h

kept-IsOption :
    (os : List Bytes)
    → All (Lacks b',') os
    → any (any is_whitespace) (keep_if is_given os) ≡ false
    → All IsOption (keep_if is_given os)
kept-IsOption [] h s = tt
kept-IsOption (o ∷ os) h s = go (is_given o) refl s (kept-IsOption os h.1)
  where
    apart : (a b : Bool) → (a || b) ≡ false → (a ≡ false) × (b ≡ false)
    apart false b e = (refl, e)
    apart true b e = cc

    go :
        (b : Bool)
        → is_given o ≡ b
        → any (any is_whitespace) (if b then o ∷ keep_if is_given os else keep_if is_given os)
          ≡ false
        → (any (any is_whitespace) (keep_if is_given os) ≡ false
            → All IsOption (keep_if is_given os))
        → All IsOption (if b then o ∷ keep_if is_given os else keep_if is_given os)
    go false e s ih = ih s
    go true e s ih =
        let (a, b) = apart _ _ s in (record { given = e; single = h.0; unspaced = a }, ih b)

rw_unspaced : any is_whitespace (codes "rw") ≡ false
unfolding is_whitespace
rw_unspaced = refl

rw-IsOption : IsOption (codes "rw")
rw-IsOption = record {
  given = refl;
  single = ((λ e. omega arith), ((λ e. omega arith), tt));
  unspaced = rw_unspaced;
}

or_rw-IsOption : (os : List Bytes) → All IsOption os → All IsOption (or_rw os)
or_rw-IsOption [] h = (rw-IsOption, tt)
or_rw-IsOption (o ∷ os) h = h

or_rw-ne-nil : (os : List Bytes) → or_rw os ≢ []
or_rw-ne-nil [] e = cc
or_rw-ne-nil (o ∷ os) e = cc

given_options-IsOption :
    (text : Bytes)
    → any (any is_whitespace) (given_options text) ≡ false
    → All IsOption (given_options text)
unfolding given_options
given_options-IsOption text s = kept-IsOption (split_on b',' text) (split_on-Lacks b',' text) s

-- A bind mount that is accepted has a source and an absolute destination without colons, and at
-- least one option, each of them given, without commas and without white space.
pub parse-IsBindMount : (value : Bytes) (m : BindMount) → parse value ≡ ok m → IsBindMount m
unfolding parse parse_fields
parse-IsBindMount value m h = missing (is_empty source) (is_empty destination) refl refl h
  where
    source : Bytes
    source = (fields value).0

    destination : Bytes
    destination = (fields value).1

    options : Bytes
    options = (fields value).2

    spaced :
        (b : Bool)
        → any (any is_whitespace) (given_options options) ≡ b
        → is_empty source ≡ false
        → begins_with_slash destination ≡ true
        → (if b
            then err (invalid_mount value)
            else ok (record {
              source = source;
              destination = destination;
              options = or_rw (given_options options);
            }))
          ≡ ok m
        → IsBindMount m
    spaced true e n a k = cc
    spaced false e n a k =
        let lacks = fields-Lacks value in
        subst IsBindMount (ok-injective _ m k) (record {
          source_given = n;
          source_single = lacks.0;
          destination_single = lacks.1;
          destination_absolute = a;
          options_given = or_rw-ne-nil (given_options options);
          options = or_rw-IsOption (given_options options) (given_options-IsOption options e);
        })

    relative :
        (b : Bool)
        → begins_with_slash destination ≡ b
        → is_empty source ≡ false
        → (if not b
            then err (invalid_mount value)
            else if any (any is_whitespace) (given_options options)
            then err (invalid_mount value)
            else ok (record {
              source = source;
              destination = destination;
              options = or_rw (given_options options);
            }))
          ≡ ok m
        → IsBindMount m
    relative false e n k = cc
    relative true e n k = spaced _ refl n e k

    missing :
        (s d : Bool)
        → is_empty source ≡ s
        → is_empty destination ≡ d
        → (if s || d
            then err (invalid_mount value)
            else if not (begins_with_slash destination)
            then err (invalid_mount value)
            else if any (any is_whitespace) (given_options options)
            then err (invalid_mount value)
            else ok (record {
              source = source;
              destination = destination;
              options = or_rw (given_options options);
            }))
          ≡ ok m
        → IsBindMount m
    missing true d e f k = cc
    missing false true e f k = cc
    missing false false e f k = relative _ refl e k
