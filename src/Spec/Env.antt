-- ===== src/Spec/Env.antt =====
-- `resolve_env` and `push_env`: the environment of the container's process.
pub mod Laws
pub mod Definition
pub mod Accepted
pub mod Resolved
use rules_oci_runtime.Prelude.{
  ℕ, zero, suc, Bool, true, false, not, ◌&&◌, ◌||◌, Option, none, some, List, [], ◌∷◌, ◌++◌, Bytes,
  ◌==◌, ◌=b◌, if◌then◌else◌, any, set, codes, Result, ok, err, ◌>>=◌, ok_or,
}
use rules_oci_runtime.Fsutil.{is_empty}
use rules_oci_runtime.Errors.{Error, invalid_env}

-- `ImageConfig`, what the source reads of it.
pub record ImageConfig : Type 0 where
  pub env : Option (List Bytes)
  pub entrypoint : Option (List Bytes)
  pub cmd : Option (List Bytes)
  pub working_dir : Option Bytes

-- `DEFAULT_PATH`
abbrev pub default_path : Bytes
default_path = codes "/usr/local/sbin:/usr/local/bin:/usr/sbin:/usr/bin:/sbin:/bin"

-- `Option::unwrap_or_default` on a list
abbrev pub or_empty : Option (List Bytes) → List Bytes
or_empty none = []
or_empty (some xs) = xs

abbrev pub with_first : ℕ → Option (Bytes × Bytes) → Option (Bytes × Bytes)
with_first x none = none
with_first x (some (before, behind)) = some (x ∷ before, behind)

-- `str::split_once` on a character
unfoldable pub split_once : ℕ → Bytes → Option (Bytes × Bytes)
split_once c [] = none
split_once c (x ∷ xs) =
    let rest = with_first x (split_once c xs) in if x == c then some ([], xs) else rest

-- The two vectors of `resolve_env`.
pub record Env : Type 0 where
  pub names : List Bytes
  pub values : List Bytes

abbrev pub later : Option ℕ → Option ℕ
later none = none
later (some i) = some (suc i)

-- `names.iter().position(|existing| existing == name)`
unfoldable pub position : Bytes → List Bytes → Option ℕ
position name [] = none
position name (n ∷ names) =
    let rest = later (position name names) in if n =b name then some 0 else rest

abbrev pub define : Env → Bytes → Bytes → Option ℕ → Env
define s name entry (some index) = record s { values = set s.values index entry }
define s name entry none = record {
  names = s.names ++ (name ∷ []);
  values = s.values ++ (entry ∷ []);
}

-- `name.is_empty() || name.contains('\0')`
abbrev pub is_refused : Bytes → Bool
is_refused name = is_empty name || any (λ c. c == 0) name

unfoldable pub push_name : Env → Bytes → Bytes → Result Error Env
unfolding position
push_name s entry name =
    if is_refused name
    then err (invalid_env entry)
    else ok (define s name entry (position name s.names))

abbrev pub push_split : Env → Bytes → Option (Bytes × Bytes) → Result Error Env
push_split s entry none = err (invalid_env entry)
push_split s entry (some (name, value)) = push_name s entry name

unfoldable pub push_env : Env → Bytes → Result Error Env
unfolding split_once push_name
push_env s entry = push_split s entry (split_once b'=' entry)

-- The loops `for entry in ... { push_env(...)? }`.
unfoldable pub push_all : Env → List Bytes → Result Error Env
unfolding push_env
push_all s [] = ok s
push_all s (entry ∷ more) = push_env s entry >>= λ s'. push_all s' more

-- `names.iter().any(|name| name == ...)`
abbrev pub is_named : Env → Bytes → Bool
is_named s name = any (λ n. n =b name) s.names

abbrev pub or_xterm : Option Bytes → Bytes
or_xterm none = codes "xterm"
or_xterm (some term) = term

-- The entry of a default, where the name is not there yet.
unfoldable pub push_default : Bool → Bytes → Bytes → Env → Result Error Env
unfolding push_env
push_default wanted name value s =
    if wanted && not (is_named s name) then push_env s (name ++ (b'=' ∷ value)) else ok s

-- `term` is the variable TERM of this process, where it has one.
unfoldable pub resolve_env :
    ImageConfig → List Bytes → Bool → Option Bytes → Result Error (List Bytes)
unfolding push_all push_default
resolve_env image extra terminal term =
    push_all (record { names = []; values = [] }) (or_empty image.env) >>= λ s₁.
    push_all s₁ extra >>= λ s₂. push_default true (codes "PATH") default_path s₂ >>= λ s₃.
    push_default terminal (codes "TERM") (or_xterm term) s₃ >>= λ s₄. ok s₄.values
