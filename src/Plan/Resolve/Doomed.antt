-- ===== src/Plan/Resolve/Doomed.antt =====
-- The bodies that a layer need not place (`Plan::resolve` of source/src/extract/plan.rs).
use rules_oci_runtime.Prelude.{
  ℕ, ◌≡◌, ◌≢◌, ◌↔◌, ◌⊎◌, inl, inr, refl, sym, ap, ◌∙◌, Bool, true, false, not, ◌&&◌, ◌||◌, Option,
  none, some, List, [], ◌∷◌, Bytes, ◌==◌, ==_iff, ◌=b◌, =b_refl, eq_of_=b, arith, any, Bool-cases,
  both_true,
}
use mathlib.Core.Path.{subst}
use mathlib.Core.Option.{some-injective}
use rules_oci_runtime.Entries.{
  Kind, file, directory, symlink, hard_link, sparse, unsupported, Entry, Table, is_file,
}
use rules_oci_runtime.OrderedMap.{get, is_some}
use rules_oci_runtime.Whiteout
use rules_oci_runtime.Plan.Tree.{Node, Tree}
use rules_oci_runtime.Plan.Placeable.Members.{Among}
use rules_oci_runtime.Plan.Resolve.Linked.{contains_iff, linked_iff}
use rules_oci_runtime.Plan.Resolve.{contains, linked, owned_by, is_doomed, doomed_of, is_nil}

-- Some entry of the list has this path and is doomed.
abbrev pub dooms : Tree → List Bytes → ℕ → Bytes → List Entry → Bool
dooms tree links l path = any (λ (e : Entry). path =b e.path && is_doomed tree links l e)

pub contains-doomed_of :
    (tree : Tree) (links : List Bytes) (l : ℕ) (path : Bytes) (es : List Entry)
    → contains path (doomed_of tree links l es) ≡ dooms tree links l path es
unfolding contains doomed_of
contains-doomed_of tree links l path [] = refl
contains-doomed_of tree links l path (e ∷ es) = elim (Bool-cases (is_doomed tree links l e)) [
  | inl d ↦ rw (d, contains-doomed_of tree links l path es) (ground arith)
  | inr d ↦ rw (d, contains-doomed_of tree links l path es) (ground arith)
]

pub contains_nil-dooms :
    (tree : Tree) (links : List Bytes) (l : ℕ) (path : Bytes) (es : List Entry)
    → is_nil (doomed_of tree links l es) ≡ true
    → dooms tree links l path es ≡ false
contains_nil-dooms tree links l path es h =
    sym (contains-doomed_of tree links l path es) ∙ none_in (doomed_of tree links l es) h
  where
    none_in : (ps : List Bytes) → is_nil ps ≡ true → contains path ps ≡ false
    none_in [] k = unfold contains in refl
    none_in (p ∷ ps) k = cc

-- A body that layer `l` need not place: it is the body of a file, its name is no marker, no hard
-- link of the image names it, and where anything stands at its path it comes of another layer.
pub record IsNeedless (tree : Tree) (tables : List Table) (l : ℕ) (entry : Entry) : Type 0 where
  pub body : (entry.kind ≡ file) ⊎ (entry.kind ≡ sparse)
  pub no_marker : Whiteout.of entry.path ≡ none
  pub unlinked :
      (t : Table)
      → Among t tables
      → (f : Entry) → Among f t.entries
      → f.kind ≡ hard_link
      → f.link ≢ entry.path
  pub elsewhere : (node : Node) → get entry.path tree ≡ some node → node.owner.0 ≢ l

-- Some entry of the path holds such a body.
abbrev pub IsReplaced : Tree → List Table → ℕ → Bytes → List Entry → Type 0
IsReplaced tree tables l path entries =
    (entry : Entry) × Among entry entries × (path ≡ entry.path) × IsNeedless tree tables l entry

module _ {A : Type 0} where
  any_iff :
      (test : A → Bool) (xs : List A)
      → (any test xs ≡ true) ↔ ((x : A) × Among x xs × (test x ≡ true))
  any_iff test xs = (found xs, λ (x, a, e). tested xs x a e)
    where
      found : (xs : List A) → any test xs ≡ true → (x : A) × Among x xs × (test x ≡ true)
      found [] h = cc
      found (x ∷ xs) h = elim (Bool-cases (test x)) [
        | inl e ↦ (x, inl refl, e)
        | inr e ↦
            let (y, a, f) = found xs (subst (λ b. (b || any test xs) ≡ true) e h) in (y, inr a, f)
      ]

      tested : (xs : List A) (x : A) → Among x xs → test x ≡ true → any test xs ≡ true
      tested [] x a e = elim a [ ]
      tested (y ∷ xs) x (inl p) e = subst (λ b. (b || any test xs) ≡ true) (sym e ∙ ap test p) refl
      tested (y ∷ xs) x (inr a) e =
          subst (λ b. (test y || b) ≡ true) (sym (tested xs x a e)) (ground arith)

is_file_iff : (k : Kind) → (is_file k ≡ true) ↔ ((k ≡ file) ⊎ (k ≡ sparse))
unfolding is_file
is_file_iff k = (kept k, λ e. elim e [ inl f ↦ ap is_file f | inr f ↦ ap is_file f ])
  where
    kept : (k : Kind) → is_file k ≡ true → (k ≡ file) ⊎ (k ≡ sparse)
    kept file h = inl refl
    kept sparse h = inr refl
    kept directory h = cc
    kept symlink h = cc
    kept hard_link h = cc
    kept unsupported h = cc

is_none_iff {ℓ} : {A : Type ℓ} (o : Option A) → (not (is_some o) ≡ true) ↔ (o ≡ none)
is_none_iff none = (λ h. refl, λ h. refl)
is_none_iff (some a) = (λ h. cc, λ h. cc)

owned_by_iff :
    (l : ℕ) (o : Option Node)
    → (not (owned_by l o) ≡ true) ↔ ((node : Node) → o ≡ some node → node.owner.0 ≢ l)
owned_by_iff l none = (λ h node e. cc, λ h. refl)
owned_by_iff l (some n) = (
  λ h node e o.
      cc (h, (==_iff n.owner.0 l).1 (ap (λ (n : Node). n.owner.0) (some-injective n node e) ∙ o)),
  λ h. elim (Bool-cases (n.owner.0 == l)) [
    | inl e ↦ absurd (h n refl ((==_iff n.owner.0 l).0 e))
    | inr e ↦ rw e refl
  ],
)

is_doomed_iff :
    (tree : Tree) (tables : List Table) (l : ℕ) (e : Entry)
    → (is_doomed tree (linked tables) l e ≡ true) ↔ IsNeedless tree tables l e
unfolding is_doomed
is_doomed_iff tree tables l e = (
  λ h.
      let (ab, cd) = (both_true _ _).0 h in
      let (a, b) = (both_true _ _).0 ab in
      let (c, d) =
        (both_true (not (contains e.path (linked tables))) (not (owned_by l (get e.path tree)))).0
          cd in
      record {
        body = (is_file_iff e.kind).0 a;
        no_marker = (is_none_iff (Whiteout.of e.path)).0 b;
        unlinked = λ t i f j k q. cc (
          c,
          (contains_iff e.path (linked tables)).1 ((linked_iff e.path tables).1 (t, i, f, j, k, q)),
        );
        elsewhere = (owned_by_iff l (get e.path tree)).0 d;
      },
  λ n. (both_true _ _).1 (
    (both_true _ _).1
        ((is_file_iff e.kind).1 n.body, (is_none_iff (Whiteout.of e.path)).1 n.no_marker),
    (both_true _ _).1 (
      not_linked n.unlinked (Bool-cases (contains e.path (linked tables))),
      (owned_by_iff l (get e.path tree)).1 n.elsewhere,
    ),
  ),
)
  where
    not_linked :
        ((t : Table)
          → Among t tables
          → (f : Entry) → Among f t.entries
          → f.kind ≡ hard_link
          → f.link ≢ e.path)
        → (contains e.path (linked tables) ≡ true) ⊎ (contains e.path (linked tables) ≡ false)
        → not (contains e.path (linked tables)) ≡ true
    not_linked u (inl h) =
        let (t, i, f, j, k, q) =
          (linked_iff e.path tables).0 ((contains_iff e.path (linked tables)).0 h) in
        absurd (u t i f j k q)
    not_linked u (inr h) = rw h refl

pub dooms_iff :
    (tree : Tree) (tables : List Table) (l : ℕ) (path : Bytes) (es : List Entry)
    → (dooms tree (linked tables) l path es ≡ true) ↔ IsReplaced tree tables l path es
dooms_iff tree tables l path es =
    let found = any_iff (λ (e : Entry). path =b e.path && is_doomed tree (linked tables) l e) es in
    (
      λ h.
          let (e, a, t) = found.0 h in
          let (p, d) = (both_true _ _).0 t in
          (e, a, eq_of_=b path e.path p, (is_doomed_iff tree tables l e).0 d),
      λ (e, a, p, n). found.1 (
        e,
        a,
        (both_true _ _).1
            (subst (λ x. (path =b x) ≡ true) p (=b_refl path), (is_doomed_iff tree tables l e).1 n),
      ),
    )
