-- ===== src/Spec/Env/Resolved.antt =====
-- The environment that `resolve_env` of source/src/spec.rs gives.
use rules_oci_runtime.Prelude.{
  ◌≡◌, ◌↔◌, inl, inr, refl, sym, ap, ◌∙◌, Bool, true, false, not, ◌&&◌, ◌||◌, Option, none, some,
  List, [], ◌∷◌, ◌++◌, Bytes, ◌=b◌, eq_of_=b, if◌then◌else◌, any, All, all_iff, codes, ok, ◌>>=◌,
  >>=-eq-ok, ok-injective, Bool-cases,
}
use mathlib.Core.Path.{subst}
use rules_oci_runtime.Spec.Env.Accepted.{push_all-append, resolve_env-all}
use rules_oci_runtime.Spec.Env.Definition.{IsDefinition, is_definition_iff}
use rules_oci_runtime.Spec.Env.{
  ImageConfig, Env, or_empty, default_path, or_xterm, split_once, push_env, push_all, push_default,
  is_named, resolve_env,
}
use rules_oci_runtime.Spec.Env.Laws.{
  name_of, is_some_name, entry_of, Aligned, is_definition, push_env-Defined,
}

abbrev pub or_last : Option Bytes → Option Bytes → Option Bytes
or_last (some a) b = some a
or_last none b = b

-- The last of the entries that has the name.
unfoldable pub last_named : Bytes → List Bytes → Option Bytes
last_named name [] = none
last_named name (e ∷ es) =
    or_last (last_named name es) (if is_some_name name (name_of e) then some e else none)

-- What a name has where no entry defines it.
unfoldable pub default_entry : Bool → Option Bytes → Bytes → Option Bytes
default_entry terminal term name =
    if codes "PATH" =b name
    then some (codes "PATH=" ++ default_path)
    else if terminal && codes "TERM" =b name
    then some (codes "TERM=" ++ or_xterm term)
    else none

or_last_assoc : (a b c : Option Bytes) → or_last (or_last a b) c ≡ or_last a (or_last b c)
or_last_assoc none b c = refl
or_last_assoc (some a) b c = refl

or_last-none : (a : Option Bytes) → or_last a none ≡ a
or_last-none none = refl
or_last-none (some a) = refl

-- A step that leaves the vectors aligned, and what it defines.
record Pushed (s s' : Env) (defined : Bytes → Option Bytes) : Type 0 where
  pub aligned : Aligned s'.names s'.values
  pub looked_up : (m : Bytes) → entry_of m s'.values ≡ or_last (defined m) (entry_of m s.values)

push_env-Pushed :
    (s s' : Env) (entry : Bytes)
    → Aligned s.names s.values
    → push_env s entry ≡ ok s'
    → Pushed s s' (λ m. if is_some_name m (name_of entry) then some entry else none)
push_env-Pushed s s' entry a h =
    let (name, e, d) = push_env-Defined s s' entry a h in
    record {
      aligned = d.aligned;
      looked_up = λ m. d.looked_up m ∙ rw e (go (name =b m) (entry_of m s.values));
    }
  where
    go :
        (b : Bool) (rest : Option Bytes)
        → (if b then some entry else rest) ≡ or_last (if b then some entry else none) rest
    go true rest = refl
    go false rest = refl

push_all-Pushed :
    (es : List Bytes) (s s' : Env)
    → Aligned s.names s.values
    → push_all s es ≡ ok s'
    → Pushed s s' (λ m. last_named m es)
unfolding push_all last_named
push_all-Pushed [] s s' a h =
    subst (λ x. Pushed s x (λ m. none)) (ok-injective s s' h)
      (record { aligned = a; looked_up = λ m. refl })
push_all-Pushed (e ∷ es) s s' a h =
    let (v, h₁, h₂) = >>=-eq-ok _ _ h in
    let p = push_env-Pushed s v e a h₁ in
    let q = push_all-Pushed es v s' p.aligned h₂ in
    record {
      aligned = q.aligned;
      looked_up = λ m.
          q.looked_up m
          ∙ ap (or_last (last_named m es)) (p.looked_up m)
          ∙ sym (or_last_assoc (last_named m es) _ _);
    }

-- The names are the ones that have an entry.
is_some : Option Bytes → Bool
is_some none = false
is_some (some a) = true

is_named-entry_of :
    (ns vs : List Bytes) (name : Bytes)
    → Aligned ns vs
    → any (λ n. n =b name) ns ≡ is_some (entry_of name vs)
unfolding entry_of is_some
is_named-entry_of [] [] name a = refl
is_named-entry_of [] (v ∷ vs) name a = absurd a
is_named-entry_of (n ∷ ns) [] name a = absurd a
is_named-entry_of (n ∷ ns) (v ∷ vs) name a =
    rw (a.0, is_named-entry_of ns vs name a.1) (go (n =b name))
  where
    go :
        (b : Bool)
        → (b || is_some (entry_of name vs)) ≡ is_some (if b then some v else entry_of name vs)
    go true = refl
    go false = refl

push_default-looked_up :
    (wanted : Bool) (name value : Bytes) (s s' : Env)
    → Aligned s.names s.values
    → name_of (name ++ (b'=' ∷ value)) ≡ some name
    → push_default wanted name value s ≡ ok s'
    → Aligned s'.names s'.values
      × ((m : Bytes)
          → entry_of m s'.values
            ≡ or_last
                (entry_of m s.values)
                (if wanted && name =b m then some (name ++ (b'=' ∷ value)) else none))
unfolding push_default is_some
push_default-looked_up false name value s s' a e h =
    subst
      (λ x.
        Aligned x.names x.values
        × ((m : Bytes) → entry_of m x.values ≡ or_last (entry_of m s.values) none))
      (ok-injective s s' h) (a, λ m. sym (or_last-none _))
push_default-looked_up true name value s s' a e h = elim (Bool-cases (is_named s name)) [
  | inl n ↦
      let same : ok s ≡ ok s' =
        subst (λ b. (if not b then push_env s entry else ok s) ≡ ok s') n h in
      subst
        (λ x.
          Aligned x.names x.values
          × ((m : Bytes) → entry_of m x.values ≡ or_last (entry_of m s.values) (given m)))
        (ok-injective s s' same)
        (
          a,
          λ m. elim (Bool-cases (name =b m)) [
            | inl f ↦ kept (entry_of m s.values) (given m) (
                subst (λ k. is_some (entry_of k s.values) ≡ true) (eq_of_=b name m f)
                  (sym (is_named-entry_of s.names s.values name a) ∙ n))
            | inr f ↦ rw f (sym (or_last-none (entry_of m s.values)))
          ],
        )
  | inr n ↦
      let p =
        push_env-Pushed s s' entry a
          (subst (λ b. (if not b then push_env s entry else ok s) ≡ ok s') n h) in
      (
        p.aligned,
        λ m.
            p.looked_up m
            ∙ rw e (elim (Bool-cases (name =b m)) [
              | inl f ↦ rw f (
                  absent (entry_of m s.values) (some entry) (
                    subst (λ k. is_some (entry_of k s.values) ≡ false) (eq_of_=b name m f)
                      (sym (is_named-entry_of s.names s.values name a) ∙ n)))
              | inr f ↦ rw f (sym (or_last-none (entry_of m s.values)))
            ]),
      )
]
  where
    entry : Bytes
    entry = name ++ (b'=' ∷ value)

    given : Bytes → Option Bytes
    given m = if name =b m then some entry else none

    kept : (o y : Option Bytes) → is_some o ≡ true → o ≡ or_last o y
    kept none y h = cc
    kept (some x) y h = refl

    absent : (o y : Option Bytes) → is_some o ≡ false → y ≡ or_last o y
    absent none y h = refl
    absent (some x) y h = cc

path-named : name_of (codes "PATH" ++ (b'=' ∷ default_path)) ≡ some (codes "PATH")
unfolding split_once
path-named = refl

term-named : (value : Bytes) → name_of (codes "TERM" ++ (b'=' ∷ value)) ≡ some (codes "TERM")
unfolding split_once
term-named value = refl

-- Where the environment is resolved, each name has the last entry that defines it among those of
-- the image and then the extra ones; where none does, PATH has its default, TERM that of the
-- terminal if there is one, and no other name has an entry.
pub resolve_env-looked_up :
    (image : ImageConfig) (extra : List Bytes) (terminal : Bool) (term : Option Bytes)
    (values : List Bytes)
    → resolve_env image extra terminal term ≡ ok values
    → (name : Bytes)
    → entry_of name values
      ≡ or_last (last_named name (or_empty image.env ++ extra)) (default_entry terminal term name)
unfolding resolve_env entry_of default_entry
resolve_env-looked_up image extra terminal term values h name =
    let (s₁, h₁, k₁) = >>=-eq-ok (push_all empty (or_empty image.env)) _ h in
    let (s₂, h₂, k₂) = >>=-eq-ok _ _ k₁ in
    let (s₃, h₃, k₃) = >>=-eq-ok _ _ k₂ in
    let (s₄, h₄, k₄) = >>=-eq-ok _ _ k₃ in
    let both : push_all empty (or_empty image.env ++ extra) ≡ ok s₂ =
      push_all-append (or_empty image.env) extra empty
      ∙ ap (λ r. r >>= λ s'. push_all s' extra) h₁
      ∙ h₂ in
    let p = push_all-Pushed (or_empty image.env ++ extra) empty s₂ tt both in
    let q = push_default-looked_up true (codes "PATH") default_path s₂ s₃ p.aligned path-named h₃ in
    let r =
      push_default-looked_up terminal (codes "TERM") (or_xterm term) s₃ s₄ q.0
        (term-named (or_xterm term)) h₄ in
    ap (entry_of name) (sym (ok-injective s₄.values values k₄))
    ∙ r.1 name
    ∙ rw (q.1 name, p.looked_up name)
        (chosen (last_named name (or_empty image.env ++ extra)) (codes "PATH" =b name)
          (terminal && codes "TERM" =b name) _ _)
  where
    empty : Env
    empty = record { names = []; values = [] }

    chosen :
        (o : Option Bytes) (p t : Bool) (x y : Bytes)
        → or_last
            (or_last (or_last o none) (if p then some x else none))
            (if t then some y else none)
          ≡ or_last o (if p then some x else if t then some y else none)
    chosen (some a) p t x y = refl
    chosen none true t x y = refl
    chosen none false t x y = refl

-- The environment resolves exactly when every entry, of the image and extra, is NAME=VALUE with a
-- name that is not empty and holds neither `=` nor NUL.
pub resolve_env_iff :
    (image : ImageConfig) (extra : List Bytes) (terminal : Bool) (term : Option Bytes)
    → ((values : List Bytes) × (resolve_env image extra terminal term ≡ ok values))
      ↔ All IsDefinition (or_empty image.env ++ extra)
resolve_env_iff image extra terminal term =
    let entries = all_iff is_definition is_definition_iff (or_empty image.env ++ extra) in
    (
      λ h. entries.0 ((resolve_env-all image extra terminal term).0 h),
      λ a. (resolve_env-all image extra terminal term).1 (entries.1 a),
    )
