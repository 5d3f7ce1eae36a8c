-- ===== src/Spec/Env/Laws.antt =====
-- What `push_env` of source/src/spec.rs does to what the names stand for.
use rules_oci_runtime.Prelude.{
  ℕ, ◌≡◌, ◌↔◌, inl, inr, refl, sym, ap, ◌∙◌, Bool, true, false, not, Option, none, some, List, [],
  ◌∷◌, Bytes, ◌=b◌, =b_refl, eq_of_=b, if◌then◌else◌, ok, err, ok-injective, Bool-cases,
}
use mathlib.Core.Path.{subst}
use rules_oci_runtime.Errors.{invalid_env}
use rules_oci_runtime.Spec.Env.{
  Env, split_once, later, position, define, is_refused, push_name, push_split, push_env,
}

abbrev pub first_of : Option (Bytes × Bytes) → Option Bytes
first_of none = none
first_of (some (name, value)) = some name

-- The name that an entry defines.
abbrev pub name_of : Bytes → Option Bytes
name_of entry = first_of (split_once b'=' entry)

abbrev pub is_some_name : Bytes → Option Bytes → Bool
is_some_name name none = false
is_some_name name (some n) = n =b name

-- What the entries hold for a name: the first that has it.
unfoldable pub entry_of : Bytes → List Bytes → Option Bytes
entry_of name [] = none
entry_of name (v ∷ vs) =
    let rest = entry_of name vs in if is_some_name name (name_of v) then some v else rest

-- The names are those of the values.
abbrev pub Aligned : List Bytes → List Bytes → Type 0
Aligned [] [] = Unit
Aligned [] (v ∷ vs) = ⊥
Aligned (n ∷ ns) [] = ⊥
Aligned (n ∷ ns) (v ∷ vs) = (name_of v ≡ some n) × Aligned ns vs

pub record Defined (s s' : Env) (name entry : Bytes) : Type 0 where
  pub aligned : Aligned s'.names s'.values
  pub looked_up :
      (m : Bytes) → entry_of m s'.values ≡ (if name =b m then some entry else entry_of m s.values)

abbrev define_at : List Bytes → List Bytes → Bytes → Bytes → Env
define_at ns vs name entry =
    define (record { names = ns; values = vs }) name entry (position name ns)

-- Defining past the first name.
define_at-cons :
    (n v name entry : Bytes) (ns vs : List Bytes)
    → (n =b name) ≡ false
    → define_at (n ∷ ns) (v ∷ vs) name entry ≡ record {
      names = n ∷ (define_at ns vs name entry).names;
      values = v ∷ (define_at ns vs name entry).values;
    }
unfolding position
define_at-cons n v name entry ns vs e = rw e (go (position name ns))
  where
    go :
        (o : Option ℕ)
        → define (record { names = n ∷ ns; values = v ∷ vs }) name entry (later o) ≡ record {
          names = n ∷ (define (record { names = ns; values = vs }) name entry o).names;
          values = v ∷ (define (record { names = ns; values = vs }) name entry o).values;
        }
    go none = refl
    go (some i) = refl

=b_false : (n m : Bytes) → (n =b m) ≡ false → (m =b n) ≡ false
=b_false n m e = elim (Bool-cases (m =b n)) [
  | inl f ↦ cc (e, =b_refl n, eq_of_=b m n f)
  | inr f ↦ f
]

swapped :
    {A : Type 0} (n name m : Bytes) (x y z : A)
    → (n =b name) ≡ false
    → (if n =b m then x else if name =b m then y else z)
      ≡ (if name =b m then y else if n =b m then x else z)
swapped n name m x y z e = elim (Bool-cases (n =b m)) [
  | inl f ↦
      let apart : (name =b m) ≡ false = rw (← eq_of_=b n m f) (=b_false n name e) in
      rw (f, apart) refl
  | inr f ↦ rw f refl
]

define-Defined :
    (name entry : Bytes) (ns vs : List Bytes)
    → name_of entry ≡ some name
    → Aligned ns vs
    → Defined (record { names = ns; values = vs }) (define_at ns vs name entry) name entry
unfolding entry_of position
define-Defined name entry [] [] h a = record { aligned = (h, tt); looked_up = λ m. rw h refl }
define-Defined name entry [] (v ∷ vs) h a = absurd a
define-Defined name entry (n ∷ ns) [] h a = absurd a
define-Defined name entry (n ∷ ns) (v ∷ vs) h a = elim (Bool-cases (n =b name)) [
  | inl e ↦ rw e (record {
    aligned = (h ∙ ap some (sym (eq_of_=b n name e)), a.1);
    looked_up = λ m. rw (h, a.0, eq_of_=b n name e) (twice (name =b m) (entry_of m vs));
  })
  | inr e ↦
      let ih = define-Defined name entry ns vs h a.1 in
      rw (define_at-cons n v name entry ns vs e) (record {
        aligned = (a.0, ih.aligned);
        looked_up = λ m.
            rw (a.0, ih.looked_up m) (swapped n name m (some v) (some entry) (entry_of m vs) e);
      })
]
  where
    twice :
        (b : Bool) (rest : Option Bytes)
        → (if b then some entry else rest) ≡ (if b then some entry else if b then some v else rest)
    twice true rest = refl
    twice false rest = refl

-- An entry defines a name that is not refused.
abbrev pub is_accepted : Option (Bytes × Bytes) → Bool
is_accepted none = false
is_accepted (some (name, value)) = not (is_refused name)

abbrev pub is_definition : Bytes → Bool
is_definition entry = is_accepted (split_once b'=' entry)

-- `push_env` on an entry that defines something, and on any other.
pub push_env-Defined :
    (s s' : Env) (entry : Bytes)
    → Aligned s.names s.values
    → push_env s entry ≡ ok s'
    → (name : Bytes) × (name_of entry ≡ some name) × Defined s s' name entry
unfolding push_env push_name
push_env-Defined s s' entry a h = go (split_once b'=' entry) refl h
  where
    go :
        (o : Option (Bytes × Bytes))
        → split_once b'=' entry ≡ o
        → push_split s entry o ≡ ok s'
        → (name : Bytes) × (name_of entry ≡ some name) × Defined s s' name entry
    go none e k = cc
    go (some (name, value)) e k = accepted (is_refused name) k
      where
        accepted :
            (b : Bool)
            → (if b
                then err (invalid_env entry)
                else ok (define s name entry (position name s.names)))
              ≡ ok s'
            → (name : Bytes) × (name_of entry ≡ some name) × Defined s s' name entry
        accepted true k = cc
        accepted false k =
            subst (λ x. (name : Bytes) × (name_of entry ≡ some name) × Defined s x name entry)
              (ok-injective _ s' k)
              (name, rw e refl, define-Defined name entry s.names s.values (rw e refl) a)

pub push_env_iff :
    (s : Env) (entry : Bytes)
    → ((s' : Env) × (push_env s entry ≡ ok s')) ↔ (is_definition entry ≡ true)
unfolding push_env push_name
push_env_iff s entry = go (split_once b'=' entry)
  where
    go :
        (o : Option (Bytes × Bytes))
        → ((s' : Env) × (push_split s entry o ≡ ok s')) ↔ (is_accepted o ≡ true)
    go none = (λ (s', k). cc, λ k. cc)
    go (some (name, value)) = elim (Bool-cases (is_refused name)) [
      | inl r ↦ rw r (λ (s', k). cc, λ k. cc)
      | inr r ↦ rw r (λ (s', k). refl, λ k. (_, refl))
    ]
