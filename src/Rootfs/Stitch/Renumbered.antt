-- ===== src/Rootfs/Stitch/Renumbered.antt =====
-- The entries that a stitched table's work names (`Table::stitch` of source/src/rootfs.rs).
use rules_oci_runtime.Prelude.{
  ℕ, zero, suc, ◌+◌, ◌≡◌, inl, inr, refl, sym, ap, ◌∙◌, Bool, true, false, Option, none, some, List,
  [], ◌∷◌, ◌++◌, Bytes, ◌==◌, ==_iff, get_elem?, if◌then◌else◌, arith,
}
use mathlib.Core.Path.{subst}
use mathlib.Core.Option.{some-injective}
use rules_oci_runtime.Entries.{Entry, Table}
use rules_oci_runtime.Plan.Tree.{entry_at}
use rules_oci_runtime.Plan.Placeable.{Work, and_then}
use rules_oci_runtime.Plan.Placeable.Members.{Among, Among-append_left}
use rules_oci_runtime.Plan.Resolve.{Plan, resolve}
use rules_oci_runtime.Rootfs.{RootfsTable}
use rules_oci_runtime.Rootfs.Stitch.{
  StitchedLayer, files_at, of_layer, placed_in, unused, mark, keep, number, stitched_layer,
  stitch_layers, index_in, renumbered, renumber_files, renumber_layers, renumber_pairs, kept_tables,
  stitch_plan, stitch,
}
use rules_oci_runtime.Rootfs.Stitch.Marked.{
  mark_placed, length-mark, length-unused, number-keep_first, get_elem?-number, unmarked,
}

-- One entry under its new index.
module _ (old new : List Table) where
  pub record IsSame (l e e' : ℕ) : Type 0 where
    pub entry : Entry
    pub before : entry_at old (l, e) ≡ some entry
    pub after : entry_at new (l, e') ≡ some entry

  -- The files of a layer, entry by entry and in the same order.
  abbrev pub SameFiles : ℕ → List ℕ → List ℕ → Type 0
  SameFiles l [] [] = Unit
  SameFiles l (e ∷ es) (e' ∷ es') = IsSame l e e' × SameFiles l es es'
  SameFiles l _ _ = ⊥

  -- The same of each layer, from the one numbered `l`.
  abbrev pub SameLayers : ℕ → List (List ℕ) → List (List ℕ) → Type 0
  SameLayers l [] [] = Unit
  SameLayers l (files ∷ more) (files' ∷ more') =
      SameFiles l files files' × SameLayers (suc l) more more'
  SameLayers l _ _ = ⊥

  abbrev pub SamePairs : List (ℕ × ℕ) → List (ℕ × ℕ) → Type 0
  SamePairs [] [] = Unit
  SamePairs (p ∷ ps) (q ∷ qs) = (p.0 ≡ q.0) × IsSame p.0 p.1 q.1 × SamePairs ps qs
  SamePairs _ _ = ⊥

  pub record IsSameWork (work work' : Work) : Type 0 where
    pub files : SameLayers 0 work.files work'.files
    pub symlinks : SamePairs work.symlinks work'.symlinks
    pub hard_links : SamePairs work.hard_links work'.hard_links

and_then-eq-some :
    {A B : Type 0} (o : Option A) (f : A → Option B) (b : B)
    → and_then o f ≡ some b
    → (a : A) × (o ≡ some a) × (f a ≡ some b)
and_then-eq-some none f b h = cc
and_then-eq-some (some a) f b h = (a, refl, h)

Among-append_right : (e : ℕ) (xs ys : List ℕ) → Among e ys → Among e (xs ++ ys)
Among-append_right e [] ys m = m
Among-append_right e (x ∷ xs) ys m = inr (Among-append_right e xs ys m)

Among-of_layer : (l e : ℕ) (pairs : List (ℕ × ℕ)) → Among (l, e) pairs → Among e (of_layer l pairs)
Among-of_layer l e [] m = absurd m
Among-of_layer l e ((layer, entry) ∷ more) m = go (layer == l) refl m (Among-of_layer l e more)
  where
    go :
        (b : Bool)
        → (layer == l) ≡ b
        → Among (l, e) ((layer, entry) ∷ more)
        → (Among (l, e) more → Among e (of_layer l more))
        → Among e (if b then entry ∷ of_layer l more else of_layer l more)
    go true s (inl k) ih = inl (ap (λ (p : ℕ × ℕ). p.1) k)
    go true s (inr m) ih = inr (ih m)
    go false s (inl k) ih =
        let one : l ≡ layer = ap (λ (p : ℕ × ℕ). p.0) k in
        let two : (layer == l) ≡ true = (==_iff layer l).1 (sym one) in cc
    go false s (inr m) ih = ih m

kept-stitch_layers :
    (work : Work) (start : ℕ) (digests : List Bytes) (tables : List Table) (l : ℕ)
    (s : StitchedLayer)
    → get_elem? (stitch_layers start work digests tables) l ≡ some s
    → (digest : Bytes) × (table : Table) × (get_elem? tables l ≡ some table)
      × (s ≡ stitched_layer work (start + l) digest table)
unfolding stitch_layers
kept-stitch_layers work start (digest ∷ digests) (table ∷ tables) zero s h = (
  digest,
  table,
  refl,
  sym (some-injective _ s h) ∙ ap (λ x. stitched_layer work x digest table) (omega arith),
)
kept-stitch_layers work start (digest ∷ digests) (table ∷ tables) (suc l) s h =
    let (d, t, k, e) = kept-stitch_layers work (suc start) digests tables l s h in
    (d, t, k, e ∙ ap (λ x. stitched_layer work x d t) (omega arith))
kept-stitch_layers work start [] tables l s h = cc
kept-stitch_layers work start (digest ∷ digests) [] l s h = cc

get_elem?-kept_tables :
    (layers : List StitchedLayer) (l : ℕ) (s : StitchedLayer)
    → get_elem? layers l ≡ some s
    → get_elem? (kept_tables layers) l ≡ some s.kept
get_elem?-kept_tables [] l s h = cc
get_elem?-kept_tables (x ∷ layers) zero s h =
    ap (λ (s : StitchedLayer). some s.kept) (some-injective x s h)
get_elem?-kept_tables (x ∷ layers) (suc l) s h = get_elem?-kept_tables layers l s h

module _ (work : Work) (digests : List Bytes) (tables : List Table) where
  abbrev layers : List StitchedLayer
  layers = stitch_layers 0 work digests tables

  renumbered-IsSame :
      (l e e' : ℕ)
      → Among e (placed_in work l)
      → renumbered layers l e ≡ some e'
      → IsSame tables (kept_tables layers) l e e'
  unfolding renumbered entry_at
  renumbered-IsSame l e e' m h = at_layer (get_elem? layers l) refl h
    where
      at_layer :
          (o : Option StitchedLayer)
          → get_elem? layers l ≡ o
          → index_in o e ≡ some e'
          → IsSame tables (kept_tables layers) l e e'
      at_layer none k h = cc
      at_layer (some s) k h =
          let (digest, table, t, x₀) = kept-stitch_layers work 0 digests tables l s k in
          let first : 0 + l ≡ l = omega arith in
          let x = x₀ ∙ ap (λ y. stitched_layer work y digest table) first in
          let used : List Bool = mark (placed_in work l) (unused table.entries) in
          let here : get_elem? (number 0 used) e ≡ some e' =
            subst (λ (s : StitchedLayer). get_elem? s.index e ≡ some e') x h in
          let (b, g) = get_elem?-number used 0 e e' here in
          let (c, g') = unmarked (placed_in work l) (unused table.entries) e b g in
          let marked = mark_placed (placed_in work l) (unused table.entries) e c m g' in
          let (entry, f, f') =
            number-keep_first used table.entries e e'
              (length-mark (placed_in work l) (unused table.entries) ∙ length-unused table.entries)
              marked here in
          let there : get_elem? (kept_tables layers) l
              ≡ some (record { layer = digest; entries = keep used table.entries }) =
            get_elem?-kept_tables layers l s k ∙ ap (λ (s : StitchedLayer). some s.kept) x in
          record { entry = entry; before = rw t f; after = rw there f' }

  renumber_files-SameFiles :
      (l : ℕ) (files files' : List ℕ)
      → ((e : ℕ) → Among e files → Among e (placed_in work l))
      → renumber_files layers l files ≡ some files'
      → SameFiles tables (kept_tables layers) l files files'
  unfolding renumber_files
  renumber_files-SameFiles l [] [] m h = tt
  renumber_files-SameFiles l [] (e' ∷ files') m h = cc
  renumber_files-SameFiles l (e ∷ files) files' m h =
      let (e', h₁, k₁) = and_then-eq-some (renumbered layers l e) _ files' h in
      let (es', h₂, k₂) = and_then-eq-some (renumber_files layers l files) _ files' k₁ in
      subst (SameFiles tables (kept_tables layers) l (e ∷ files))
        (some-injective (e' ∷ es') files' k₂)
        (
          renumbered-IsSame l e e' (m e (inl refl)) h₁,
          renumber_files-SameFiles l files es' (λ x a. m x (inr a)) h₂,
        )

  renumber_layers-SameLayers :
      (l : ℕ) (files files' : List (List ℕ))
      → ((i : ℕ) → get_elem? files i ≡ get_elem? work.files (l + i))
      → renumber_layers layers l files ≡ some files'
      → SameLayers tables (kept_tables layers) l files files'
  unfolding renumber_layers
  renumber_layers-SameLayers l [] [] m h = tt
  renumber_layers-SameLayers l [] (es' ∷ files') m h = cc
  renumber_layers-SameLayers l (es ∷ files) files' m h =
      let (es', h₁, k₁) = and_then-eq-some (renumber_files layers l es) _ files' h in
      let (ess', h₂, k₂) = and_then-eq-some (renumber_layers layers (suc l) files) _ files' k₁ in
      let first : get_elem? work.files l ≡ some es =
        ap (get_elem? work.files) (omega arith) ∙ sym (m 0) in
      subst (SameLayers tables (kept_tables layers) l (es ∷ files))
        (some-injective (es' ∷ ess') files' k₂)
        (
          renumber_files-SameFiles l es es'
              (λ e a.
                rw first (
                  Among-append_left e es (of_layer l work.symlinks ++ of_layer l work.hard_links)
                    a))
              h₁,
          renumber_layers-SameLayers (suc l) files ess'
              (λ i. m (suc i) ∙ ap (get_elem? work.files) (omega arith)) h₂,
        )

  renumber_pairs-SamePairs :
      (pairs pairs' : List (ℕ × ℕ))
      → ((l e : ℕ) → Among (l, e) pairs → Among e (placed_in work l))
      → renumber_pairs layers pairs ≡ some pairs'
      → SamePairs tables (kept_tables layers) pairs pairs'
  unfolding renumber_pairs
  renumber_pairs-SamePairs [] [] m h = tt
  renumber_pairs-SamePairs [] (p ∷ pairs') m h = cc
  renumber_pairs-SamePairs ((l, e) ∷ pairs) pairs' m h =
      let (e', h₁, k₁) = and_then-eq-some (renumbered layers l e) _ pairs' h in
      let (ps', h₂, k₂) = and_then-eq-some (renumber_pairs layers pairs) _ pairs' k₁ in
      subst (SamePairs tables (kept_tables layers) ((l, e) ∷ pairs))
        (some-injective ((l, e') ∷ ps') pairs' k₂)
        (
          refl,
          renumbered-IsSame l e e' (m l e (inl refl)) h₁,
          renumber_pairs-SamePairs pairs ps' (λ x y a. m x y (inr a)) h₂,
        )

  stitch_plan-IsSameWork :
      (manifest platform : Bytes) (plan : Plan) (t : RootfsTable)
      → plan.tables ≡ tables
      → stitch_plan manifest platform digests plan work ≡ some t
      → IsSameWork tables t.layers work t.work
  unfolding stitch_plan
  stitch_plan-IsSameWork manifest platform plan t same h =
      let (files, h₁, k₁) =
        and_then-eq-some (renumber_layers layers 0 work.files) _ t (rw same at h) in
      let (symlinks, h₂, k₂) = and_then-eq-some (renumber_pairs layers work.symlinks) _ t k₁ in
      let (hard_links, h₃, k₃) = and_then-eq-some (renumber_pairs layers work.hard_links) _ t k₂ in
      subst (λ (t : RootfsTable). IsSameWork tables t.layers work t.work) (some-injective _ t k₃)
        (record {
          files =
              renumber_layers-SameLayers 0 work.files files
                (λ i. ap (get_elem? work.files) (omega arith)) h₁;
          symlinks =
              renumber_pairs-SamePairs work.symlinks symlinks
                (λ l e a. Among-append_right e (files_at (get_elem? work.files l)) _ (
                  Among-append_left e (of_layer l work.symlinks) _
                    (Among-of_layer l e work.symlinks a)))
                h₂;
          hard_links =
              renumber_pairs-SamePairs work.hard_links hard_links
                (λ l e a. Among-append_right e (files_at (get_elem? work.files l)) _ (
                  Among-append_right e (of_layer l work.symlinks) _
                    (Among-of_layer l e work.hard_links a)))
                h₃;
        })

-- When a table is stitched from layers, their plan has a work, and the table's work names the same
-- entries in the same order: each file of each layer, each symlink and each hard link of the plan
-- has its layer and, under its new index, the very entry that the plan's index had.
pub stitch-IsSameWork :
    (manifest platform : Bytes) (digests : List Bytes) (tables : List Table) (t : RootfsTable)
    → stitch manifest platform digests tables ≡ some t
    → (work : Work) × ((resolve digests tables).work ≡ some work)
      × IsSameWork (resolve digests tables).tables t.layers work t.work
unfolding stitch
stitch-IsSameWork manifest platform digests tables t h =
    let (work, w, k) = and_then-eq-some (resolve digests tables).work _ t h in
    (
      work,
      w,
      stitch_plan-IsSameWork work digests (resolve digests tables).tables manifest platform
          (resolve digests tables) t refl k,
    )
