-- ===== src/Whiteout/Meaning.antt =====
-- What `of` of source/src/extract/whiteout.rs makes of a name.
use rules_oci_runtime.Prelude.{
  ℕ, suc, ◌≡◌, ◌≢◌, refl, Option, none, some, [], ◌∷◌, ◌++◌, Bytes, ◌=b◌, eq_of_=b, if◌then◌else◌,
  drop, length, arith, codes, take-append,
}
use rules_oci_runtime.Fsutil.{slash, is_empty}
use rules_oci_runtime.Fsutil.Split.{Lacks}
use rules_oci_runtime.Whiteout.{
  prefix, opaque_marker, Whiteout, opaque, named, invalid, rposition, split, strip_prefix, rejoin,
  of, of_split,
}

rposition_lacking : (c : ℕ) (xs : Bytes) → Lacks c xs → rposition c xs ≡ none
unfolding rposition
rposition_lacking c [] h = refl
rposition_lacking c (x ∷ xs) h = rw (rposition_lacking c xs h.1) (ground (arith, h.0))

rposition-append :
    (c : ℕ) (xs ys : Bytes) → Lacks c ys → rposition c (xs ++ (c ∷ ys)) ≡ some (length xs)
unfolding rposition
rposition-append c [] ys h = rw (rposition_lacking c ys h) (ground arith)
rposition-append c (x ∷ xs) ys h = rw (rposition-append c xs ys h)

drop_past : (c : ℕ) (xs ys : Bytes) → drop (suc (length xs)) (xs ++ (c ∷ ys)) ≡ ys
drop_past c [] ys = refl
drop_past c (x ∷ xs) ys = drop_past c xs ys

-- A name in a directory is taken apart into the two.
pub split-rejoin : (dir name : Bytes) → Lacks slash name → split (rejoin dir name) ≡ (dir, name)
unfolding split rejoin
split-rejoin [] name h = rw (rposition_lacking slash name h)
split-rejoin (d ∷ ds) name h = rw (
  rposition-append slash (d ∷ ds) name h,
  take-append (d ∷ ds) (slash ∷ name),
  drop_past slash (d ∷ ds) name,
)

pub strip_prefix-append : (ps xs : Bytes) → strip_prefix ps (ps ++ xs) ≡ some xs
unfolding strip_prefix
strip_prefix-append [] xs = refl
strip_prefix-append (p ∷ ps) xs = rw (strip_prefix-append ps xs) (ground arith)

pub strip_prefix-some : (ps xs rest : Bytes) → strip_prefix ps xs ≡ some rest → xs ≡ ps ++ rest
unfolding strip_prefix
strip_prefix-some [] xs rest h = ground arith
strip_prefix-some (p ∷ ps) [] rest h = cc
strip_prefix-some (p ∷ ps) (x ∷ xs) rest h = ground (arith, strip_prefix-some ps xs rest)

strip_prefix-none : (ps xs : Bytes) → strip_prefix ps xs ≡ none → (ys : Bytes) → xs ≢ ps ++ ys
strip_prefix-none ps xs h ys e = cc (h, e, strip_prefix-append ps ys)

-- What the opaque marker has behind the prefix.
abbrev pub opaque_rest : Bytes
opaque_rest = codes ".wh..opq"

-- What a name that begins with `.wh.` marks, by what follows the prefix.
unfoldable pub meaning : Bytes → Bytes → Whiteout
meaning dir rest =
    if rest =b opaque_rest
    then opaque dir
    else if is_empty rest
    then invalid
    else named (rejoin dir rest)

prefix-Lacks : (rest : Bytes) → Lacks slash rest → Lacks slash (prefix ++ rest)
prefix-Lacks rest h = (omega arith, (omega arith, (omega arith, (omega arith, h))))

of_split_marker : (dir rest : Bytes) → of_split dir (prefix ++ rest) ≡ some (meaning dir rest)
unfolding meaning strip_prefix ◌=b◌
of_split_marker dir [] = refl
of_split_marker dir (x ∷ rest) = ground arith

-- A marker in any directory means what its name says: the opaque marker empties the directory,
-- the bare prefix is invalid, and any other hides the path beside it.
pub of_marker :
    (dir rest : Bytes)
    → Lacks slash rest
    → of (rejoin dir (prefix ++ rest)) ≡ some (meaning dir rest)
unfolding of
of_marker dir rest h =
    rw (split-rejoin dir (prefix ++ rest) (prefix-Lacks rest h)) (of_split_marker dir rest)

-- An entry whose name does not begin with `.wh.` marks nothing.
pub of_ordinary :
    (dir name : Bytes)
    → Lacks slash name
    → ((rest : Bytes) → name ≢ prefix ++ rest)
    → of (rejoin dir name) ≡ none
unfolding of
of_ordinary dir name h n = rw (split-rejoin dir name h) (go (strip_prefix prefix name) refl)
  where
    go : (r : Option Bytes) → strip_prefix prefix name ≡ r → of_split dir name ≡ none
    go none e = rw e (ground (arith, n opaque_rest, eq_of_=b name opaque_marker))
    go (some rest) e = absurd (n rest (strip_prefix-some prefix name rest e))
