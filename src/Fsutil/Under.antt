-- ===== src/Fsutil/Under.antt =====
-- The components of a path with another one behind it (source/src/fsutil.rs).
use rules_oci_runtime.Prelude.{
  ◌≡◌, ◌≢◌, refl, sym, ap, ◌∙◌, Bool, false, ◌||◌, some, List, [], ◌∷◌, ◌++◌, Bytes, arith, All,
  All-append, if◌then◌else◌, keep_if,
}
use mathlib.Core.List.{append_assoc}
use rules_oci_runtime.Fsutil.{
  split_on, components, names_somewhere, is_empty, slash, canonical_entry_path,
}
use rules_oci_runtime.Fsutil.Split.{split_on-cut, split_on_lacking}
use rules_oci_runtime.Fsutil.Canonical.{
  IsComponent, IsSafe, join, climbs, climbs_out, All-IsComponent, IsComponent-ne-nil,
  is_empty-append, canonical_entry_path_safe,
}

-- A path under a directory; an empty directory is the rootfs.
unfoldable pub under_dir : Bytes → Bytes → Bytes
under_dir dir path = if is_empty dir then path else dir ++ (slash ∷ path)

keep_if-append {ℓ} :
    {A : Type ℓ} (p : A → Bool) (xs ys : List A)
    → keep_if p (xs ++ ys) ≡ keep_if p xs ++ keep_if p ys
keep_if-append p [] ys = refl
keep_if-append p (x ∷ xs) ys = rw (keep_if-append p xs ys) (ground arith)

pub components-under_dir :
    (dir path : Bytes) → components (under_dir dir path) ≡ components dir ++ components path
unfolding components under_dir split_on names_somewhere
components-under_dir [] path = refl
components-under_dir (d ∷ ds) path =
    ap (keep_if names_somewhere) (split_on-cut slash (d ∷ ds) path)
    ∙ keep_if-append names_somewhere (split_on slash (d ∷ ds)) (split_on slash path)

climbs-append : (cs ds : List Bytes) → climbs (cs ++ ds) ≡ (climbs cs || climbs ds)
unfolding climbs
climbs-append [] ds = refl
climbs-append (c ∷ cs) ds = rw (climbs-append cs ds) (ground arith)

pub climbs_out-under_dir :
    (dir path : Bytes) → climbs_out (under_dir dir path) ≡ (climbs_out dir || climbs_out path)
unfolding climbs_out
climbs_out-under_dir dir path =
    rw (components-under_dir dir path) (climbs-append (components dir) (components path))

pub components_single : (c : Bytes) → IsComponent c → components c ≡ c ∷ []
unfolding components
components_single c h = rw (split_on_lacking slash c h.single, h.somewhere)

join-snoc :
    (d : Bytes) (ds : List Bytes) (c : Bytes)
    → join (d ∷ (ds ++ (c ∷ []))) ≡ join (d ∷ ds) ++ (slash ∷ c)
join-snoc d [] c = refl
join-snoc d (e ∷ es) c =
    rw (join-snoc e es c) (sym (append_assoc d (slash ∷ join (e ∷ es)) (slash ∷ c)))

join-ne-nil :
    (d : Bytes) (ds : List Bytes) → All IsComponent (d ∷ ds) → is_empty (join (d ∷ ds)) ≡ false
join-ne-nil d [] h = IsComponent-ne-nil d h.0
join-ne-nil d (e ∷ es) h = is_empty-append d _ (IsComponent-ne-nil d h.0)

join-under_dir :
    (cs : List Bytes) (c : Bytes)
    → All IsComponent cs
    → join (cs ++ (c ∷ [])) ≡ under_dir (join cs) c
unfolding under_dir
join-under_dir [] c h = refl
join-under_dir (d ∷ ds) c h = rw (join-ne-nil d ds h) (join-snoc d ds c)

append-ne-nil : (cs : List Bytes) (c : Bytes) → cs ++ (c ∷ []) ≢ []
append-ne-nil [] c e = cc
append-ne-nil (d ∷ ds) c e = cc

-- A safe component under a directory that is spelled canonically is spelled canonically.
pub canonical_entry_path-under_dir :
    (dir c : Bytes)
    → dir ≡ join (components dir)
    → All IsSafe (components dir)
    → IsSafe c
    → canonical_entry_path (under_dir dir c) ≡ some (under_dir dir c)
canonical_entry_path-under_dir dir c e h k =
    let parts : components (under_dir dir c) ≡ components dir ++ (c ∷ []) =
      components-under_dir dir c
      ∙ ap (λ t. components dir ++ t) (components_single c k.component) in
    let safe : All IsSafe (components (under_dir dir c)) =
      rw parts (All-append IsSafe (components dir) (c ∷ []) h (k, tt)) in
    let joined : join (components (under_dir dir c)) ≡ under_dir dir c =
      ap join parts
      ∙ join-under_dir (components dir) c (All-IsComponent _ h)
      ∙ ap (λ t. under_dir t c) (sym e) in
    canonical_entry_path_safe (under_dir dir c) safe
      (λ n. append-ne-nil (components dir) c (sym parts ∙ n))
    ∙ ap some joined
