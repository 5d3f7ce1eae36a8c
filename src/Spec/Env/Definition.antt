-- ===== src/Spec/Env/Definition.antt =====
-- What is accepted as NAME=VALUE (`push_env` of source/src/spec.rs), and what a text is split into.
use rules_oci_runtime.Prelude.{
  ℕ, ◌≡◌, ◌≢◌, ◌↔◌, inl, inr, refl, ap, true, false, not, ◌||◌, Option, none, some, [], ◌∷◌, ◌++◌,
  Bytes, ◌==◌, ==_iff, ==_refl, any, All, Bool-cases,
}
use mathlib.Core.Path.{subst}
use rules_oci_runtime.Spec.Env.{split_once, with_first, is_refused}
use rules_oci_runtime.Spec.Env.Laws.{is_accepted, is_definition}

-- What a text is split into makes the text, at the first separator.
abbrev pub Joined : ℕ → Bytes → Option (Bytes × Bytes) → Type 0
Joined c xs none = Unit
Joined c xs (some (before, behind)) = (xs ≡ before ++ (c ∷ behind)) × All (λ x. x ≢ c) before

other_of : (x c : ℕ) → (x == c) ≡ false → x ≢ c
other_of x c e h = cc (e, (==_iff x c).1 h)

pub split_once-Joined : (c : ℕ) (xs : Bytes) → Joined c xs (split_once c xs)
unfolding split_once
split_once-Joined c [] = tt
split_once-Joined c (x ∷ xs) = elim (Bool-cases (x == c)) [
  | inl e ↦ rw e (ap (λ y. y ∷ xs) ((==_iff x c).0 e), tt)
  | inr e ↦ rw e (go (other_of x c e) (split_once c xs) (split_once-Joined c xs))
]
  where
    go : x ≢ c → (o : Option (Bytes × Bytes)) → Joined c xs o → Joined c (x ∷ xs) (with_first x o)
    go n none h = tt
    go n (some (a, b)) h = (ap (λ t. x ∷ t) h.0, (n, h.1))

-- A text is split at the separator that no other stands before.
split_once_first :
    (c : ℕ) (before behind : Bytes)
    → All (λ x. x ≢ c) before
    → split_once c (before ++ (c ∷ behind)) ≡ some (before, behind)
unfolding split_once
split_once_first c [] behind a = rw (==_refl c) refl
split_once_first c (x ∷ before) behind a = elim (Bool-cases (x == c)) [
  | inl e ↦ absurd (a.0 ((==_iff x c).0 e))
  | inr e ↦ rw (e, split_once_first c before behind a.1) refl
]

-- `NAME=VALUE`, the name not empty and without a NUL.
pub record IsDefinition (entry : Bytes) : Type 0 where
  pub name : Bytes
  pub value : Bytes
  pub joined : entry ≡ name ++ (b'=' ∷ value)
  pub given : name ≢ []
  pub single : All (λ c. c ≢ b'=') name
  pub clean : All (λ c. c ≢ 0) name

is_refused_iff :
    (name : Bytes) → (not (is_refused name) ≡ true) ↔ ((name ≢ []) × All (λ c. c ≢ 0) name)
is_refused_iff [] = (λ h. cc, λ h. absurd (h.0 refl))
is_refused_iff (x ∷ xs) = (λ h. (λ e. cc, clean (x ∷ xs) h), λ h. cleaned (x ∷ xs) h.1)
  where
    clean : (ys : Bytes) → not (any (λ c. c == 0) ys) ≡ true → All (λ c. c ≢ 0) ys
    clean [] h = tt
    clean (y ∷ ys) h = elim (Bool-cases (y == 0)) [
      | inl e ↦ absurd (cc (h, e))
      | inr e ↦ (other_of y 0 e, clean ys (subst (λ b. not (b || any (λ c. c == 0) ys) ≡ true) e h))
    ]

    cleaned : (ys : Bytes) → All (λ c. c ≢ 0) ys → not (any (λ c. c == 0) ys) ≡ true
    cleaned [] a = refl
    cleaned (y ∷ ys) a = elim (Bool-cases (y == 0)) [
      | inl e ↦ absurd (a.0 ((==_iff y 0).0 e))
      | inr e ↦ rw e (cleaned ys a.1)
    ]

pub is_definition_iff : (entry : Bytes) → (is_definition entry ≡ true) ↔ IsDefinition entry
is_definition_iff entry = (
  go (split_once b'=' entry) (split_once-Joined b'=' entry),
  λ d.
      rw (d.joined, split_once_first b'=' d.name d.value d.single)
        ((is_refused_iff d.name).1 (d.given, d.clean)),
)
  where
    go :
        (o : Option (Bytes × Bytes))
        → Joined b'=' entry o
        → is_accepted o ≡ true
        → IsDefinition entry
    go none j h = cc
    go (some (n, v)) j h =
        let (g, c) = (is_refused_iff n).0 h in
        record { name = n; value = v; joined = j.0; given = g; single = j.1; clean = c }
