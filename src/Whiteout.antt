-- ===== src/Whiteout.antt =====
-- The whiteout markers of source/src/extract/whiteout.rs.
pub mod Meaning
pub mod Targets
use rules_oci_runtime.Prelude.{
  ℕ, suc, Bool, true, false, Option, none, some, List, [], ◌∷◌, ◌++◌, Bytes, ◌==◌, ◌=b◌,
  if◌then◌else◌, take, drop, codes,
}
use rules_oci_runtime.Fsutil.{slash, is_empty}

-- `PREFIX` and `OPAQUE`.
abbrev pub prefix : Bytes
prefix = codes ".wh."

abbrev pub opaque_marker : Bytes
opaque_marker = codes ".wh..wh..opq"

pub data Whiteout : Type 0 where
  -- Hides what the lower layers put in the directory; the rootfs where it is empty.
  opaque : Bytes → Whiteout
  -- Hides the one path that it names.
  named : Bytes → Whiteout
  -- `.wh.` with nothing after it.
  invalid : Whiteout

abbrev pub later_position : Bool → Option ℕ → Option ℕ
later_position here (some i) = some (suc i)
later_position true none = some 0
later_position false none = none

-- `iter().rposition(|&byte| byte == b'/')`
unfoldable pub rposition : ℕ → Bytes → Option ℕ
rposition c [] = none
rposition c (x ∷ xs) = later_position (x == c) (rposition c xs)

abbrev pub split_at : Bytes → Option ℕ → Bytes × Bytes
split_at path (some at) = (take at path, drop (suc at) path)
split_at path none = ([], path)

-- The directory that a path stands in, and its last component.
unfoldable pub split : Bytes → Bytes × Bytes
unfolding rposition
split path = split_at path (rposition slash path)

-- `slice::strip_prefix`
unfoldable pub strip_prefix : Bytes → Bytes → Option Bytes
strip_prefix [] xs = some xs
strip_prefix (p ∷ ps) [] = none
strip_prefix (p ∷ ps) (x ∷ xs) = if p == x then strip_prefix ps xs else none

-- The path that a marker in `dir` names, put back together.
unfoldable pub rejoin : Bytes → Bytes → Bytes
rejoin dir target = if is_empty dir then target else dir ++ (slash ∷ target)

abbrev pub of_target : Bytes → Option Bytes → Option Whiteout
of_target dir none = none
of_target dir (some []) = some invalid
of_target dir (some (x ∷ xs)) = some (named (rejoin dir (x ∷ xs)))

abbrev pub of_split : Bytes → Bytes → Option Whiteout
of_split dir name =
    if name =b opaque_marker then some (opaque dir) else of_target dir (strip_prefix prefix name)

-- What a path marks for removal, or `none` where it is an ordinary entry.
unfoldable pub of : Bytes → Option Whiteout
unfolding split strip_prefix rejoin
of path = let (dir, name) = split path in of_split dir name
