-- ===== src/Plan/Resolve/Linked.antt =====
-- The paths that the hard links of an image name (`linked` of source/src/extract/plan.rs).
use rules_oci_runtime.Prelude.{
  ◌≡◌, ◌↔◌, ◌⊎◌, inl, inr, refl, sym, ap, ◌∙◌, Bool, true, false, ◌||◌, List, [], ◌∷◌, ◌++◌, Bytes,
  ◌=b◌, =b_refl, eq_of_=b, if◌then◌else◌, arith, Bool-cases,
}
use mathlib.Core.Path.{subst}
use rules_oci_runtime.Entries.{hard_link, Entry, Table}
use rules_oci_runtime.Plan.Tree.{same_kind}
use rules_oci_runtime.Plan.Placeable.Members.{Among, Among-append_left}
use rules_oci_runtime.Plan.Tree.Kinds.{same_kind_iff}
use rules_oci_runtime.Plan.Resolve.{contains, linked_in, linked}

pub contains_iff : (p : Bytes) (qs : List Bytes) → (contains p qs ≡ true) ↔ Among p qs
unfolding contains
contains_iff p [] = (λ h. cc, λ a. elim a [ ])
contains_iff p (q ∷ qs) =
    let ih = contains_iff p qs in
    (
      λ h. elim (Bool-cases (p =b q)) [
        | inl e ↦ inl (eq_of_=b p q e)
        | inr e ↦ inr (ih.0 (subst (λ b. (b || contains p qs) ≡ true) e h))
      ],
      there ih.1,
    )
  where
    there :
        (Among p qs → contains p qs ≡ true)
        → (p ≡ q) ⊎ Among p qs
        → (p =b q || contains p qs) ≡ true
    there f (inl e) = subst (λ x. (p =b x || contains p qs) ≡ true) e (rw (=b_refl p) refl)
    there f (inr a) = subst (λ b. (p =b q || b) ≡ true) (sym (f a)) (ground arith)

-- A hard link of the image names the path.
abbrev pub IsLinked : Bytes → List Table → Type 0
IsLinked p tables =
    (t : Table) × Among t tables
    × (f : Entry) × Among f t.entries
    × (f.kind ≡ hard_link)
    × (f.link ≡ p)

Among-linked_in :
    (p : Bytes) (es : List Entry)
    → Among p (linked_in es) ↔ ((f : Entry) × Among f es × (f.kind ≡ hard_link) × (f.link ≡ p))
unfolding linked_in
Among-linked_in p [] = (λ a. elim a [ ], λ (f, a, k, e). elim a [ ])
Among-linked_in p (e ∷ es) =
    go (same_kind e.kind hard_link) (same_kind_iff e.kind hard_link) (Among-linked_in p es)
  where
    go :
        (b : Bool)
        → (b ≡ true) ↔ (e.kind ≡ hard_link)
        → Among p (linked_in es) ↔ ((f : Entry) × Among f es × (f.kind ≡ hard_link) × (f.link ≡ p))
        → Among p (if b then e.link ∷ linked_in es else linked_in es)
          ↔ ((f : Entry) × Among f (e ∷ es) × (f.kind ≡ hard_link) × (f.link ≡ p))
    go true s ih = (there, back)
      where
        there :
            (p ≡ e.link) ⊎ Among p (linked_in es)
            → (f : Entry) × Among f (e ∷ es) × (f.kind ≡ hard_link) × (f.link ≡ p)
        there (inl q) = (e, inl refl, s.0 refl, sym q)
        there (inr a) = let (f, i, k, q) = ih.0 a in (f, inr i, k, q)

        back :
            (f : Entry) × Among f (e ∷ es) × (f.kind ≡ hard_link) × (f.link ≡ p)
            → (p ≡ e.link) ⊎ Among p (linked_in es)
        back (f, inl i, k, q) = inl (sym q ∙ ap (λ (f : Entry). f.link) i)
        back (f, inr i, k, q) = inr (ih.1 (f, i, k, q))
    go false s ih = (λ a. let (f, i, k, q) = ih.0 a in (f, inr i, k, q), back)
      where
        back :
            (f : Entry) × Among f (e ∷ es) × (f.kind ≡ hard_link) × (f.link ≡ p)
            → Among p (linked_in es)
        back (f, inl i, k, q) = absurd (cc (s.1 (ap (λ (f : Entry). f.kind) (sym i) ∙ k)))
        back (f, inr i, k, q) = ih.1 (f, i, k, q)

Among-append_right : (p : Bytes) (xs ys : List Bytes) → Among p ys → Among p (xs ++ ys)
Among-append_right p [] ys a = a
Among-append_right p (x ∷ xs) ys a = inr (Among-append_right p xs ys a)

Among-append : (p : Bytes) (xs ys : List Bytes) → Among p (xs ++ ys) → Among p xs ⊎ Among p ys
Among-append p [] ys a = inr a
Among-append p (x ∷ xs) ys (inl e) = inl (inl e)
Among-append p (x ∷ xs) ys (inr a) = elim (Among-append p xs ys a) [
  | inl b ↦ inl (inr b)
  | inr b ↦ inr b
]

pub linked_iff : (p : Bytes) (tables : List Table) → Among p (linked tables) ↔ IsLinked p tables
unfolding linked
linked_iff p [] = (λ a. elim a [ ], λ h. elim h.1 [ ])
linked_iff p (t ∷ ts) = (there (linked_iff p ts), back (linked_iff p ts))
  where
    there :
        Among p (linked ts) ↔ IsLinked p ts
        → Among p (linked_in t.entries ++ linked ts)
        → IsLinked p (t ∷ ts)
    there ih a = elim (Among-append p (linked_in t.entries) (linked ts) a) [
      | inl b ↦ let (f, j, k, q) = (Among-linked_in p t.entries).0 b in (t, inl refl, f, j, k, q)
      | inr b ↦ let (u, i, f, j, k, q) = ih.0 b in (u, inr i, f, j, k, q)
    ]

    back :
        Among p (linked ts) ↔ IsLinked p ts
        → IsLinked p (t ∷ ts)
        → Among p (linked_in t.entries ++ linked ts)
    back ih (u, inl i, f, j, k, q) =
        Among-append_left p (linked_in t.entries) (linked ts)
          ((Among-linked_in p t.entries).1 (f, subst (λ (u : Table). Among f u.entries) i j, k, q))
    back ih (u, inr i, f, j, k, q) =
        Among-append_right p (linked_in t.entries) (linked ts) (ih.1 (u, i, f, j, k, q))
