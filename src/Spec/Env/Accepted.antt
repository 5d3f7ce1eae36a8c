-- ===== src/Spec/Env/Accepted.antt =====
-- When the loops of `resolve_env` of source/src/spec.rs accept what they are given.
use rules_oci_runtime.Prelude.{
  ◌≡◌, ◌↔◌, refl, sym, ap, ◌∙◌, Bool, true, false, not, ◌&&◌, Option, List, [], ◌∷◌, ◌++◌, Bytes,
  if◌then◌else◌, all, codes, Result, ok, err, ◌>>=◌, >>=-eq-ok, both_true,
}
use rules_oci_runtime.Errors.{Error}
use rules_oci_runtime.Spec.Env.{
  ImageConfig, Env, or_empty, default_path, or_xterm, split_once, push_env, push_all, push_default,
  is_named, resolve_env,
}
use rules_oci_runtime.Spec.Env.Laws.{is_definition, push_env_iff}

pub push_all-append :
    (xs ys : List Bytes) (s : Env)
    → push_all s (xs ++ ys) ≡ (push_all s xs >>= λ s'. push_all s' ys)
unfolding push_all
push_all-append [] ys s = refl
push_all-append (x ∷ xs) ys s = go (push_env s x) (push_all-append xs ys)
  where
    go :
        (r : Result Error Env)
        → ((s' : Env) → push_all s' (xs ++ ys) ≡ (push_all s' xs >>= λ s''. push_all s'' ys))
        → (r >>= λ s'. push_all s' (xs ++ ys))
          ≡ ((r >>= λ s'. push_all s' xs) >>= λ s'. push_all s' ys)
    go (ok s') ih = ih s'
    go (err e) ih = refl

push_all_iff :
    (es : List Bytes) (s : Env)
    → ((s' : Env) × (push_all s es ≡ ok s')) ↔ (all is_definition es ≡ true)
unfolding push_all
push_all_iff [] s = (λ _. refl, λ _. (s, refl))
push_all_iff (e ∷ es) s = (
  λ (s', h).
      let (v, h₁, h₂) = >>=-eq-ok (push_env s e) _ h in
      rw ((push_env_iff s e).0 (v, h₁), (push_all_iff es v).0 (s', h₂)) refl,
  λ h.
      let (a, b) = (both_true (is_definition e) (all is_definition es)).0 h in
      let (v, h₁) = (push_env_iff s e).1 a in
      let (s', h₂) = (push_all_iff es v).1 b in (s', ap (λ r. r >>= λ s'. push_all s' es) h₁ ∙ h₂),
)

push_default_ok :
    (wanted : Bool) (name value : Bytes) (s : Env)
    → is_definition (name ++ (b'=' ∷ value)) ≡ true
    → (s' : Env) × (push_default wanted name value s ≡ ok s')
unfolding push_default
push_default_ok wanted name value s d = go (wanted && not (is_named s name))
  where
    go :
        (b : Bool)
        → (s' : Env) × ((if b then push_env s (name ++ (b'=' ∷ value)) else ok s) ≡ ok s')
    go true = (push_env_iff s (name ++ (b'=' ∷ value))).1 d
    go false = (s, refl)

path_defines : is_definition (codes "PATH" ++ (b'=' ∷ default_path)) ≡ true
unfolding split_once
path_defines = refl

term_defines : (value : Bytes) → is_definition (codes "TERM" ++ (b'=' ∷ value)) ≡ true
unfolding split_once
term_defines value = refl

pub resolve_env-all :
    (image : ImageConfig) (extra : List Bytes) (terminal : Bool) (term : Option Bytes)
    → ((values : List Bytes) × (resolve_env image extra terminal term ≡ ok values))
      ↔ (all is_definition (or_empty image.env ++ extra) ≡ true)
unfolding resolve_env
resolve_env-all image extra terminal term = (
  λ (values, h).
      let (s₁, h₁, k₁) = >>=-eq-ok (push_all empty (or_empty image.env)) _ h in
      let (s₂, h₂, k₂) = >>=-eq-ok (push_all s₁ extra) _ k₁ in
      (push_all_iff (or_empty image.env ++ extra) empty).0 (
        s₂,
        push_all-append (or_empty image.env) extra empty
            ∙ ap (λ r. r >>= λ s'. push_all s' extra) h₁
            ∙ h₂,
      ),
  λ d.
      let (s₂, h) = (push_all_iff (or_empty image.env ++ extra) empty).1 d in
      let (s₁, h₁, h₂) =
        >>=-eq-ok (push_all empty (or_empty image.env)) _
          (sym (push_all-append (or_empty image.env) extra empty) ∙ h) in
      let (s₃, h₃) = push_default_ok true (codes "PATH") default_path s₂ path_defines in
      let (s₄, h₄) =
        push_default_ok terminal (codes "TERM") (or_xterm term) s₃ (term_defines (or_xterm term)) in
      (s₄.values, rw (h₁, h₂, h₃, h₄) refl),
)
  where
    empty : Env
    empty = record { names = []; values = [] }
