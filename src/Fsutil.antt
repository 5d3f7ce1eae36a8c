-- ===== src/Fsutil.antt =====
-- The path helpers of source/src/fsutil.rs: `components`, `safe_components`,
-- `canonical_entry_path` and `names_the_root`. The helpers that act on the host's file system are
-- not here.
pub mod Split
pub mod Canonical
pub mod Under
use rules_oci_runtime.Prelude.{
  ℕ, ◌+◌, Bool, true, false, not, ◌&&◌, ◌||◌, Option, none, some, List, [], ◌∷◌, ◌++◌, Bytes, ◌==◌,
  ◌=b◌, if◌then◌else◌, keep_if, codes,
}

abbrev pub slash : ℕ
slash = b'/'

-- `CURRENT_DIR` and `PARENT_DIR`.
abbrev pub current_dir : Bytes
current_dir = b'.' ∷ []

abbrev pub parent_dir : Bytes
parent_dir = b'.' ∷ b'.' ∷ []

abbrev pub is_empty : Bytes → Bool
is_empty [] = true
is_empty (x ∷ xs) = false

-- `slice::split`: the pieces between separators, one more than there are separators.
abbrev pub push_head : ℕ → List Bytes → List Bytes
push_head x [] = (x ∷ []) ∷ []
push_head x (s ∷ ss) = (x ∷ s) ∷ ss

unfoldable pub split_on : ℕ → Bytes → List Bytes
split_on c [] = [] ∷ []
split_on c (x ∷ xs) = let rest = split_on c xs in if x == c then [] ∷ rest else push_head x rest

-- The components that are not dropped.
unfoldable pub names_somewhere : Bytes → Bool
names_somewhere component = not (is_empty component) && not (component =b current_dir)

unfoldable pub components : Bytes → List Bytes
unfolding split_on names_somewhere
components path = keep_if names_somewhere (split_on slash path)

-- The scan of `safe_components`: `none` at the first `..`, otherwise whether anything is named.
unfoldable pub scan_components : List Bytes → Bool → Option Bool
scan_components [] names_something = some names_something
scan_components (component ∷ rest) names_something =
    let more = scan_components rest true in if component =b parent_dir then none else more

abbrev pub safe_result : List Bytes → Option Bool → Option (List Bytes)
safe_result cs (some true) = some cs
safe_result cs (some false) = none
safe_result cs none = none

unfoldable pub safe_components : Bytes → Option (List Bytes)
unfolding scan_components
safe_components path = safe_result (components path) (scan_components (components path) false)

-- The loop that joins the components in the caller's buffer.
unfoldable pub join_loop : Bytes → List Bytes → Bytes
join_loop out [] = out
join_loop out (component ∷ rest) =
    join_loop ((if is_empty out then out else out ++ (slash ∷ [])) ++ component) rest

abbrev pub joined : Option (List Bytes) → Option Bytes
joined none = none
joined (some cs) = some (join_loop [] cs)

-- `some out` where the source returns true and leaves `out` in the buffer, `none` where it
-- returns false.
unfoldable pub canonical_entry_path : Bytes → Option Bytes
unfolding safe_components join_loop
canonical_entry_path path = joined (safe_components path)

abbrev pub no_components : List Bytes → Bool
no_components [] = true
no_components (c ∷ cs) = false

unfoldable pub names_the_root : Bytes → Bool
names_the_root path = not (is_empty path) && no_components (components path)
