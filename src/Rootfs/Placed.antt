-- ===== src/Rootfs/Placed.antt =====
-- What `check` of source/src/rootfs.rs asks of a table, against a description of it.
use rules_oci_runtime.Prelude.{
  ℕ, suc, ◌≤◌, ◌<◌, ◌≡◌, ◌≢◌, ◌↔◌, ◌⊎◌, inl, inr, refl, sym, ap, ◌∙◌, Bool, true, false, ◌&&◌, ◌||◌,
  Option, none, some, List, [], ◌∷◌, Bytes, All, ◌=b◌, =b_iff, ltb, leb, length, if◌then◌else◌,
  Result, ok, err, arith,
}
use Prim.Native.String.{◌++◌ as ◌<>◌}
use mathlib.Core.Path.{subst}
use rules_oci_runtime.Errors.{IoError, other}
use rules_oci_runtime.Entries.{
  Kind, file, directory, symlink, hard_link, sparse, unsupported, code, Entry,
}
use rules_oci_runtime.Entries
use rules_oci_runtime.Plan.Tree.{root_entry}
use rules_oci_runtime.Rootfs.Kept.{
  IsKept, AreFiles, AreListed, IsCanonical, IsServable, >>_iff, guard_iff, unless_iff, &&_iff,
  ||_iff, iff_trans, canonical_iff, IsKept-kept_entry, kept_entry-IsKept,
}
use rules_oci_runtime.Rootfs.{
  RootfsTable, canonical, kept_entry, malformed, check_file, check_files, check_layers,
  check_symlink, check_symlinks, check_hard_link, check_hard_links, names_no_layer,
  entries_canonical, layers_canonical, directories_canonical, check,
}

check_files_iff :
    (layers : List Entries.Table) (l : ℕ) (files : List ℕ) (last : ℕ)
    → (check_files layers l files last ≡ ok tt) ↔ AreFiles layers l last files
unfolding check_files malformed
check_files_iff layers l [] last = (λ h. tt, λ h. refl)
check_files_iff layers l (e ∷ files) last = (
  λ h. to (check_files_iff layers l files) (kept_entry layers l e file) refl h,
  from (check_files_iff layers l files),
)
  where
    Rest : Type 0
    Rest =
        (offset : ℕ) → (check_files layers l files offset ≡ ok tt) ↔ AreFiles layers l offset files

    to :
        Rest
        → (o : Option Entry) → kept_entry layers l e file ≡ o
        → check_file o last (λ offset. check_files layers l files offset) ≡ ok tt
        → AreFiles layers l last (e ∷ files)
    to rest none k h = cc
    to rest (some found) k h =
        let (kept, same) = IsKept-kept_entry layers l e file found k in
        let at = ap (λ (x : Entry). x.offset) (sym same) in
        in_order (ltb found.offset last) refl h
          (λ b r. (kept, subst (λ x. last ≤ x) at b, subst (λ x. AreFiles layers l x files) at r))
      where
        in_order :
            (b : Bool)
            → ltb found.offset last ≡ b
            → (if b
                then err (other ("rootfs table " <> "lists a layer's files out of order"))
                else check_files layers l files found.offset)
              ≡ ok tt
            → (last ≤ found.offset
                → AreFiles layers l found.offset files
                → AreFiles layers l last (e ∷ files))
            → AreFiles layers l last (e ∷ files)
        in_order true b g f = cc
        in_order false b g f = f (ground arith) ((rest found.offset).0 g)

    from :
        Rest
        → AreFiles layers l last (e ∷ files)
        → check_file (kept_entry layers l e file) last (λ offset. check_files layers l files offset)
          ≡ ok tt
    from rest (k, b, r) =
        let here : ltb k.entry.offset last ≡ false = ground arith in
        rw (kept_entry-IsKept layers l e file k, here) ((rest k.entry.offset).1 r)

check_layers_iff :
    (layers : List Entries.Table) (l : ℕ) (files : List (List ℕ))
    → (check_layers layers l files ≡ ok tt) ↔ AreListed layers l files
unfolding check_layers
check_layers_iff layers l [] = (λ h. tt, λ h. refl)
check_layers_iff layers l (files ∷ more) =
    let both = >>_iff (check_files layers l files 0) (check_layers layers (suc l) more) in
    let here = check_files_iff layers l files 0 in
    let rest = check_layers_iff layers (suc l) more in
    (λ h. (here.0 (both.0 h).0, rest.0 (both.0 h).1), λ h. both.1 (here.1 h.0, rest.1 h.1))

IsKept-iff :
    (layers : List Entries.Table) (l e : ℕ) (kind : Kind)
    (test : Option Entry → Result IoError (Unit {0})) (P : Entry → Type 0)
    → (test none ≢ ok tt)
    → ((found : Entry) → (test (some found) ≡ ok tt) ↔ P found)
    → (test (kept_entry layers l e kind) ≡ ok tt) ↔ ((k : IsKept layers kind l e) × P k.entry)
IsKept-iff layers l e kind test P absent present = (
  λ h. to (kept_entry layers l e kind) refl h,
  λ (k, p). rw (kept_entry-IsKept layers l e kind k) ((present k.entry).1 p),
)
  where
    to :
        (o : Option Entry)
        → kept_entry layers l e kind ≡ o
        → test o ≡ ok tt
        → (k : IsKept layers kind l e) × P k.entry
    to none k h = absurd (absent h)
    to (some found) k h =
        let (kept, same) = IsKept-kept_entry layers l e kind found k in
        (kept, subst P (sym same) ((present found).0 h))

check_symlinks_iff :
    (layers : List Entries.Table) (symlinks : List (ℕ × ℕ))
    → (check_symlinks layers symlinks ≡ ok tt)
      ↔ All (λ (p : ℕ × ℕ). IsKept layers symlink p.0 p.1) symlinks
unfolding check_symlinks malformed
check_symlinks_iff layers [] = (λ h. tt, λ h. refl)
check_symlinks_iff layers ((l, e) ∷ more) =
    let both =
      >>_iff (check_symlink (kept_entry layers l e symlink)) (check_symlinks layers more) in
    let here =
      IsKept-iff layers l e symlink check_symlink (λ found. Unit {0}) (λ h. cc)
        (λ found. (λ h. tt, λ h. refl)) in
    let rest = check_symlinks_iff layers more in
    (
      λ h. ((here.0 (both.0 h).0).0, rest.0 (both.0 h).1),
      λ h. both.1 (here.1 (h.0, tt), rest.1 h.1),
    )

check_hard_links_iff :
    (layers : List Entries.Table) (hard_links : List (ℕ × ℕ))
    → (check_hard_links layers hard_links ≡ ok tt)
      ↔ All
          (λ (p : ℕ × ℕ). (k : IsKept layers hard_link p.0 p.1) × IsCanonical k.entry.link)
          hard_links
unfolding check_hard_links malformed
check_hard_links_iff layers [] = (λ h. tt, λ h. refl)
check_hard_links_iff layers ((l, e) ∷ more) =
    let both =
      >>_iff (check_hard_link (kept_entry layers l e hard_link)) (check_hard_links layers more) in
    let here =
      IsKept-iff layers l e hard_link check_hard_link (λ found. IsCanonical found.link) (λ h. cc)
        (λ found.
          iff_trans (guard_iff (canonical found.link) "names a hard link it does not hold")
            (canonical_iff found.link)) in
    let rest = check_hard_links_iff layers more in
    (λ h. (here.0 (both.0 h).0, rest.0 (both.0 h).1), λ h. both.1 (here.1 h.0, rest.1 h.1))

names_no_layer_iff :
    (n : ℕ) (xattrs : List (ℕ × Bytes × Bytes))
    → (names_no_layer n xattrs ≡ false) ↔ All (λ (x : ℕ × Bytes × Bytes). x.0 < n) xattrs
unfolding names_no_layer
names_no_layer_iff n [] = (λ h. tt, λ h. refl)
names_no_layer_iff n ((l, path, names) ∷ more) =
    let both = ||_iff (leb n l) (names_no_layer n more) in
    let rest = names_no_layer_iff n more in
    (
      λ h. let here = (both.0 h).0 in (ground arith, rest.0 (both.0 h).1),
      λ h.
          let here : leb n l ≡ false = (let small = h.0 in ground arith) in
          both.1 (here, rest.1 h.1),
    )

all_iff :
    {A : Type 0} (test : A → Bool) (tests : List A → Bool) (P : A → Type 0)
    → tests [] ≡ true
    → ((a : A) (more : List A) → tests (a ∷ more) ≡ (test a && tests more))
    → ((a : A) → (test a ≡ true) ↔ P a)
    → (xs : List A) → (tests xs ≡ true) ↔ All P xs
all_iff test tests P nil cons each [] = (λ h. tt, λ h. nil)
all_iff test tests P nil cons each (a ∷ more) =
    let both = &&_iff (test a) (tests more) in
    let rest = all_iff test tests P nil cons each more in
    (
      λ h. let k = both.0 (sym (cons a more) ∙ h) in ((each a).0 k.0, rest.0 k.1),
      λ h. cons a more ∙ both.1 ((each a).1 h.0, rest.1 h.1),
    )

layers_canonical_iff :
    (layers : List Entries.Table)
    → (layers_canonical layers ≡ true)
      ↔ All
          (λ (table : Entries.Table). All (λ (e : Entry). IsCanonical e.path) table.entries)
          layers
unfolding layers_canonical entries_canonical
layers_canonical_iff =
    all_iff (λ (table : Entries.Table). entries_canonical table.entries) layers_canonical _ refl
      (λ a more. refl)
      (λ table.
        all_iff (λ (e : Entry). canonical e.path) entries_canonical _ refl (λ a more. refl)
          (λ e. canonical_iff e.path) table.entries)

directories_canonical_iff :
    (directories : List (Bytes × ℕ))
    → (directories_canonical directories ≡ true)
      ↔ All (λ (d : Bytes × ℕ). (d.0 ≡ root_entry) ⊎ IsCanonical d.0) directories
unfolding directories_canonical
directories_canonical_iff =
    all_iff (λ (d : Bytes × ℕ). d.0 =b root_entry || canonical d.0) directories_canonical _ refl
      (λ a more. refl) each
  where
    each :
        (d : Bytes × ℕ)
        → ((d.0 =b root_entry || canonical d.0) ≡ true) ↔ ((d.0 ≡ root_entry) ⊎ IsCanonical d.0)
    each d = (λ h. to (d.0 =b root_entry) refl h, from)
      where
        to :
            (b : Bool)
            → (d.0 =b root_entry) ≡ b
            → (b || canonical d.0) ≡ true
            → (d.0 ≡ root_entry) ⊎ IsCanonical d.0
        to true e h = inl ((=b_iff d.0 root_entry).0 e)
        to false e h = inr ((canonical_iff d.0).0 h)

        from : (d.0 ≡ root_entry) ⊎ IsCanonical d.0 → (d.0 =b root_entry || canonical d.0) ≡ true
        from (inl e) = rw ((=b_iff d.0 root_entry).1 e) refl
        from (inr c) = or_true (d.0 =b root_entry) (canonical d.0) ((canonical_iff d.0).1 c)
          where
            or_true : (a b : Bool) → b ≡ true → (a || b) ≡ true
            or_true true b h = refl
            or_true false b h = h

-- The check accepts a table exactly when everything that the work and the attributes name by index
-- is there: the files, in stream order, the symlinks, the hard links with canonical targets and the
-- layers, and every path is canonical, or the root's among the directories.
pub check_iff : (t : RootfsTable) → (check t ≡ ok tt) ↔ IsServable t
unfolding check
check_iff t =
    let a = >>_iff (check_layers t.layers 0 t.work.files) _ in
    let b = >>_iff (check_symlinks t.layers t.work.symlinks) _ in
    let c = >>_iff (check_hard_links t.layers t.work.hard_links) _ in
    let d =
      >>_iff
        (if names_no_layer (length t.layers) t.xattrs
          then malformed "names a layer it does not hold"
          else ok tt)
        _ in
    let e =
      guard_iff (layers_canonical t.layers && directories_canonical t.directories)
        "holds a path that is not under the rootfs" in
    let paths = &&_iff (layers_canonical t.layers) (directories_canonical t.directories) in
    let no_layer =
      unless_iff (names_no_layer (length t.layers) t.xattrs) "names a layer it does not hold" in
    (
      λ h.
          let (h₁, k₁) = a.0 h in
          let (h₂, k₂) = b.0 k₁ in
          let (h₃, k₃) = c.0 k₂ in
          let (h₄, k₄) = d.0 k₃ in
          let (h₅, h₆) = paths.0 (e.0 k₄) in
          record {
            files = (check_layers_iff t.layers 0 t.work.files).0 h₁;
            symlinks = (check_symlinks_iff t.layers t.work.symlinks).0 h₂;
            hard_links = (check_hard_links_iff t.layers t.work.hard_links).0 h₃;
            xattrs = (names_no_layer_iff (length t.layers) t.xattrs).0 (no_layer.0 h₄);
            entries = (layers_canonical_iff t.layers).0 h₅;
            directories = (directories_canonical_iff t.directories).0 h₆;
          },
      λ s. a.1 (
        (check_layers_iff t.layers 0 t.work.files).1 s.files,
        b.1 (
          (check_symlinks_iff t.layers t.work.symlinks).1 s.symlinks,
          c.1 (
            (check_hard_links_iff t.layers t.work.hard_links).1 s.hard_links,
            d.1 (
              no_layer.1 ((names_no_layer_iff (length t.layers) t.xattrs).1 s.xattrs),
              e.1 (
                  paths.1 (
                    (layers_canonical_iff t.layers).1 s.entries,
                    (directories_canonical_iff t.directories).1 s.directories,
                  )),
            ),
          ),
        ),
      ),
    )
