-- ===== src/Cli/References.antt =====
-- References in braces, for `expand_env` of source/src/cli.rs.
use rules_oci_runtime.Prelude.{
  ℕ, ◌≡◌, ◌≢◌, refl, ap, ◌∙◌, false, Option, [], ◌∷◌, ◌++◌, Bytes, ◌==◌, codes, arith,
}
use mathlib.Core.List.{append_assoc, append-nil}
use rules_oci_runtime.Fsutil.Split.{Lacks}
use rules_oci_runtime.Cli.{outside, braced, or_nothing, step, expand_from, expand_env}

apart : (x c : ℕ) → x ≢ c → (x == c) ≡ false
apart x c n = ground (arith, n)

module _ (vars : Bytes → Option Bytes) where
  expand_from-outside :
      (xs ys : Bytes)
      → Lacks b'$' xs
      → expand_from vars outside (xs ++ ys) ≡ xs ++ expand_from vars outside ys
  unfolding expand_from step
  expand_from-outside [] ys h = refl
  expand_from-outside (x ∷ xs) ys h =
      rw (apart x b'$' h.0) (ap (λ t. x ∷ t) (expand_from-outside xs ys h.1))

  expand_from-braced :
      (name read ys : Bytes)
      → Lacks b'}' name
      → expand_from vars (braced read) (name ++ (b'}' ∷ ys))
        ≡ or_nothing (vars (read ++ name)) ++ expand_from vars outside ys
  unfolding expand_from step
  expand_from-braced [] read ys h = rw (append-nil read) refl
  expand_from-braced (c ∷ name) read ys h = rw (apart c b'}' h.0) (
      expand_from-braced name (read ++ (c ∷ [])) ys h.1
      ∙ ap (λ t. or_nothing (vars t) ++ expand_from vars outside ys)
          (append_assoc read (c ∷ []) name))

  expand_from-unclosed :
      (rest read : Bytes)
      → Lacks b'}' rest
      → expand_from vars (braced read) rest ≡ codes "${" ++ (read ++ rest)
  unfolding expand_from step
  expand_from-unclosed [] read h = rw (append-nil read) refl
  expand_from-unclosed (c ∷ rest) read h = rw (apart c b'}' h.0) (
      expand_from-unclosed rest (read ++ (c ∷ [])) h.1
      ∙ ap (λ t. codes "${" ++ t) (append_assoc read (c ∷ []) rest))

-- A text without `$` stays as it is. A name in braces behind it is replaced by its value, or by
-- nothing where it has none, and what follows is expanded; braces that are never closed stay.
pub expand_env-braced :
    (vars : Bytes → Option Bytes) (before name behind rest : Bytes)
    → Lacks b'$' before
    → Lacks b'}' name
    → Lacks b'}' rest
    → (expand_env vars (before ++ (codes "${" ++ (name ++ (b'}' ∷ behind))))
        ≡ before ++ (or_nothing (vars name) ++ expand_env vars behind))
      × (expand_env vars (before ++ (codes "${" ++ rest)) ≡ before ++ (codes "${" ++ rest))
unfolding expand_env expand_from step
expand_env-braced vars before name behind rest h k l = (
  expand_from-outside vars before _ h
      ∙ ap (λ t. before ++ t) (expand_from-braced vars name [] behind k),
  expand_from-outside vars before _ h ∙ ap (λ t. before ++ t) (expand_from-unclosed vars rest [] l),
)
