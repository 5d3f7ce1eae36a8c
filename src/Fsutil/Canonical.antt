-- ===== src/Fsutil/Canonical.antt =====
-- The spelling that `canonical_entry_path` of source/src/fsutil.rs gives a path.
use rules_oci_runtime.Prelude.{
  ◌≡◌, ◌≢◌, refl, sym, ap, ◌∙◌, Bool, true, false, not, ◌||◌, Option, none, some, List, [], ◌∷◌,
  ◌++◌, Bytes, ◌=b◌, arith, All, if◌then◌else◌, Bool-cases, inl, inr, keep_if, ◌↔◌,
}
use mathlib.Core.List.{append_assoc}
use rules_oci_runtime.Fsutil.{
  split_on, components, names_somewhere, parent_dir, is_empty, scan_components, safe_components,
  safe_result, join_loop, joined, canonical_entry_path, slash, names_the_root, no_components,
}
use rules_oci_runtime.Fsutil.Split.{Lacks, split_on-Lacks, split_on_lacking, split_on-append}

-- A component as the tree holds it: it names something, and it is one component.
pub record IsComponent (c : Bytes) : Type 0 where
  pub somewhere : names_somewhere c ≡ true
  pub single : Lacks slash c

-- One component that does not climb out.
pub record IsSafe (c : Bytes) : Type 0 where
  pub component : IsComponent c
  pub stays : (c =b parent_dir) ≡ false

keep_if-IsComponent :
    (cs : List Bytes) → All (Lacks slash) cs → All IsComponent (keep_if names_somewhere cs)
keep_if-IsComponent [] h = tt
keep_if-IsComponent (c ∷ cs) h = elim (Bool-cases (names_somewhere c)) [
  | inl e ↦ rw e (record { somewhere = e; single = h.0 }, keep_if-IsComponent cs h.1)
  | inr e ↦ rw e (keep_if-IsComponent cs h.1)
]

pub components-IsComponent : (path : Bytes) → All IsComponent (components path)
unfolding components
components-IsComponent path = keep_if-IsComponent _ (split_on-Lacks slash path)

-- Components joined by single separators.
abbrev pub join : List Bytes → Bytes
join [] = []
join (c ∷ []) = c
join (c ∷ (d ∷ ds)) = c ++ (slash ∷ join (d ∷ ds))

keep_if-All : (cs : List Bytes) → All IsComponent cs → keep_if names_somewhere cs ≡ cs
keep_if-All [] h = refl
keep_if-All (c ∷ cs) h = rw (h.0.somewhere, keep_if-All cs h.1)

split_on-join :
    (c : Bytes) (cs : List Bytes)
    → All IsComponent (c ∷ cs)
    → split_on slash (join (c ∷ cs)) ≡ c ∷ cs
split_on-join c [] h = split_on_lacking slash c h.0.single
split_on-join c (d ∷ ds) h =
    split_on-append slash c _ h.0.single ∙ ap (λ t. c ∷ t) (split_on-join d ds h.1)

pub components-join : (cs : List Bytes) → All IsComponent cs → components (join cs) ≡ cs
unfolding components split_on
components-join [] h = refl
components-join (c ∷ cs) h = rw (split_on-join c cs h) (keep_if-All (c ∷ cs) h)

pub is_empty-append : (xs ys : Bytes) → is_empty xs ≡ false → is_empty (xs ++ ys) ≡ false
is_empty-append [] ys h = cc
is_empty-append (x ∷ xs) ys h = refl

join_loop_onto :
    (out : Bytes) (cs : List Bytes) (d : Bytes)
    → is_empty out ≡ false
    → All IsComponent (d ∷ cs)
    → join_loop out (d ∷ cs) ≡ out ++ (slash ∷ join (d ∷ cs))
unfolding join_loop
join_loop_onto out [] d e h = rw e (append_assoc out (slash ∷ []) d)
join_loop_onto out (c ∷ cs) d e h =
    rw
      (
        e,
        append_assoc out (slash ∷ []) d,
        join_loop_onto (out ++ (slash ∷ d)) cs c (is_empty-append out _ e) h.1,
      )
      (append_assoc out _ _)

pub IsComponent-ne-nil : (c : Bytes) → IsComponent c → is_empty c ≡ false
unfolding names_somewhere
IsComponent-ne-nil [] h = cc (h.somewhere)
IsComponent-ne-nil (x ∷ xs) h = refl

join_loop-eq-join : (cs : List Bytes) → All IsComponent cs → join_loop [] cs ≡ join cs
unfolding join_loop
join_loop-eq-join [] h = refl
join_loop-eq-join (c ∷ []) h = refl
join_loop-eq-join (c ∷ (d ∷ ds)) h = join_loop_onto c ds d (IsComponent-ne-nil c h.0) h.1

-- What the scan of `safe_components` accepts.
scan_components-some :
    (cs : List Bytes) (b r : Bool)
    → scan_components cs b ≡ some r
    → All (λ c. (c =b parent_dir) ≡ false) cs × (r ≡ (b || not (no_components cs)))
unfolding scan_components
scan_components-some [] b r h = (tt, ground arith)
scan_components-some (c ∷ cs) b r h =
    let ih = scan_components-some cs true r in
    ((ground arith, (ih (ground arith)).0), ground (arith, ih (ground arith)))

scan_components_safe :
    (cs : List Bytes) (b : Bool)
    → All IsSafe cs
    → scan_components cs b ≡ some (b || not (no_components cs))
unfolding scan_components
scan_components_safe [] b h = ground arith
scan_components_safe (c ∷ cs) b h = rw (h.0.stays, scan_components_safe cs true h.1) (ground arith)

All-IsSafe :
    (cs : List Bytes) → All IsComponent cs → All (λ c. (c =b parent_dir) ≡ false) cs → All IsSafe cs
All-IsSafe [] h k = tt
All-IsSafe (c ∷ cs) h k = (record { component = h.0; stays = k.0 }, All-IsSafe cs h.1 k.1)

pub All-IsComponent : (cs : List Bytes) → All IsSafe cs → All IsComponent cs
All-IsComponent [] h = tt
All-IsComponent (c ∷ cs) h = (h.0.component, All-IsComponent cs h.1)

-- What an accepted path and its canonical spelling are.
pub record Accepts (path out : Bytes) : Type 0 where
  pub spelled : out ≡ join (components path)
  pub safe : All IsSafe (components path)
  pub named : components path ≢ []
  pub same : components out ≡ components path

safe_components-some :
    (path : Bytes) (cs : List Bytes)
    → safe_components path ≡ some cs
    → (cs ≡ components path) × All IsSafe (components path) × (components path ≢ [])
unfolding safe_components
safe_components-some path cs h = go (scan_components (components path) false) refl h
  where
    go :
        (r : Option Bool)
        → scan_components (components path) false ≡ r
        → safe_result (components path) r ≡ some cs
        → (cs ≡ components path) × All IsSafe (components path) × (components path ≢ [])
    go none e k = cc
    go (some false) e k = cc
    go (some true) e k =
        let f = scan_components-some (components path) false true e in
        (
          cc,
          All-IsSafe (components path) (components-IsComponent path) f.0,
          λ n. cc (f.1, ap no_components n),
        )

pub canonical_entry_path-some :
    (path out : Bytes) → canonical_entry_path path ≡ some out → Accepts path out
unfolding canonical_entry_path
canonical_entry_path-some path out h = go (safe_components path) refl h
  where
    go :
        (r : Option (List Bytes))
        → safe_components path ≡ r
        → joined r ≡ some out
        → Accepts path out
    go none e k = cc
    go (some cs) e k =
        let f = safe_components-some path cs e in
        let spelled : out ≡ join (components path) =
          cc (f.0, join_loop-eq-join (components path) (components-IsComponent path)) in
        record {
          spelled = spelled;
          safe = f.1;
          named = f.2;
          same = ap components spelled ∙ components-join _ (components-IsComponent path);
        }

no_components-ne-nil : (cs : List Bytes) → cs ≢ [] → no_components cs ≡ false
no_components-ne-nil [] n = absurd (n refl)
no_components-ne-nil (c ∷ cs) n = refl

-- Safe components, at least one, are accepted.
pub canonical_entry_path_safe :
    (path : Bytes)
    → All IsSafe (components path)
    → components path ≢ []
    → canonical_entry_path path ≡ some (join (components path))
unfolding canonical_entry_path
canonical_entry_path_safe path h n =
    rw
      (
        canonical_entry_path,
        safe_components,
        scan_components_safe (components path) false h,
        no_components-ne-nil _ n,
        join_loop-eq-join (components path) (All-IsComponent _ h),
      )
      refl

-- The canonical spelling of a path is its own canonical spelling, and names the same components:
-- none of them is empty, `.` or `..`.
pub canonical_entry_path_idempotent :
    (path out : Bytes)
    → canonical_entry_path path ≡ some out
    → (canonical_entry_path out ≡ some out)
      × (components out ≡ components path)
      × All IsSafe (components out)
canonical_entry_path_idempotent path out h =
    let a = canonical_entry_path-some path out h in
    let safe : All IsSafe (components out) = rw a.same a.safe in
    (
      canonical_entry_path_safe out safe (λ e. a.named (sym a.same ∙ e))
          ∙ ap some (ap join a.same ∙ sym a.spelled),
      a.same,
      safe,
    )

-- Two accepted paths have one canonical spelling exactly when they name the same components.
pub canonical_entry_path_iff :
    (p q a b : Bytes)
    → canonical_entry_path p ≡ some a
    → canonical_entry_path q ≡ some b
    → (a ≡ b) ↔ (components p ≡ components q)
canonical_entry_path_iff p q a b h k =
    let f = canonical_entry_path-some p a h in
    let g = canonical_entry_path-some q b k in
    (λ e. sym f.same ∙ ap components e ∙ g.same, λ e. f.spelled ∙ ap join e ∙ sym g.spelled)

unfoldable pub climbs : List Bytes → Bool
climbs [] = false
climbs (c ∷ cs) = c =b parent_dir || climbs cs

-- Whether `..` is among the components of a path.
unfoldable pub climbs_out : Bytes → Bool
unfolding climbs
climbs_out path = climbs (components path)

climbs-scan_components :
    (cs : List Bytes) (b : Bool)
    → scan_components cs b ≡ (if climbs cs then none else some (b || not (no_components cs)))
unfolding climbs scan_components
climbs-scan_components [] b = ground arith
climbs-scan_components (c ∷ cs) b = rw (climbs-scan_components cs true) (ground arith)

is_empty-components : (path : Bytes) → is_empty path ≡ true → no_components (components path) ≡ true
unfolding components split_on names_somewhere
is_empty-components [] h = refl
is_empty-components (x ∷ xs) h = cc

-- What each path is: empty, the rootfs, out of it, or an entry of it; and only the last has a
-- canonical spelling.
pub canonical_entry_path_cases :
    (path : Bytes)
    → canonical_entry_path path ≡ (
        if is_empty path || names_the_root path || climbs_out path
        then none
        else some (join (components path)))
unfolding canonical_entry_path names_the_root climbs_out
canonical_entry_path_cases path = ground (
  arith,
  climbs-scan_components (components path) false,
  join_loop-eq-join (components path) (components-IsComponent path),
  is_empty-components path,
)
