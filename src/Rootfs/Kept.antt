-- ===== src/Rootfs/Kept.antt =====
-- A table of source/src/rootfs.rs that can be served, described without its check.
use rules_oci_runtime.Prelude.{
  ℕ, suc, ◌≤◌, ◌<◌, ◌≡◌, ◌↔◌, ◌⊎◌, refl, ap, Bool, true, false, ◌&&◌, ◌||◌, Option, none, some,
  List, [], ◌∷◌, Bytes, All, =b_iff, length, get_elem?, if◌then◌else◌, Result, ok, err, ◌>>◌,
}
use Prim.Native.String.{String}
use mathlib.Core.Option.{some-injective}
use rules_oci_runtime.Plan.Tree.Kinds.{same_kind_iff}
use rules_oci_runtime.Errors.{IoError}
use rules_oci_runtime.Entries.{
  Kind, file, directory, symlink, hard_link, sparse, unsupported, code, Entry,
}
use rules_oci_runtime.Entries
use rules_oci_runtime.Fsutil.{canonical_entry_path}
use rules_oci_runtime.Plan.Tree.{root_entry, same_kind}
use rules_oci_runtime.Rootfs.{
  RootfsTable, canonical, is_spelled, entry_in, of_kind, kept_entry, malformed,
}

module _ (layers : List Entries.Table) where
  -- The table of the layer has the entry, of the kind.
  pub record IsKept (kind : Kind) (l e : ℕ) : Type 0 where
    pub table : Entries.Table
    pub layer : get_elem? layers l ≡ some table
    pub entry : Entry
    pub found : get_elem? table.entries e ≡ some entry
    pub of_kind : entry.kind ≡ kind

  -- Entries of regular files, none of which begins before the one before it.
  abbrev pub AreFiles : ℕ → ℕ → List ℕ → Type 0
  AreFiles l last [] = Unit
  AreFiles l last (e ∷ files) =
      (k : IsKept file l e) × (last ≤ k.entry.offset) × AreFiles l k.entry.offset files

  -- The same of each layer, from the one numbered `l`.
  abbrev pub AreListed : ℕ → List (List ℕ) → Type 0
  AreListed l [] = Unit
  AreListed l (files ∷ more) = AreFiles l 0 files × AreListed (suc l) more

-- A path that is its own canonical spelling.
abbrev pub IsCanonical : Bytes → Type 0
IsCanonical path = canonical_entry_path path ≡ some path

pub record IsServable (t : RootfsTable) : Type 0 where
  pub files : AreListed t.layers 0 t.work.files
  pub symlinks : All (λ (p : ℕ × ℕ). IsKept t.layers symlink p.0 p.1) t.work.symlinks
  pub hard_links :
      All
        (λ (p : ℕ × ℕ). (k : IsKept t.layers hard_link p.0 p.1) × IsCanonical k.entry.link)
        t.work.hard_links
  pub xattrs : All (λ (x : ℕ × Bytes × Bytes). x.0 < length t.layers) t.xattrs
  pub entries :
      All
        (λ (table : Entries.Table). All (λ (e : Entry). IsCanonical e.path) table.entries)
        t.layers
  pub directories : All (λ (d : Bytes × ℕ). (d.0 ≡ root_entry) ⊎ IsCanonical d.0) t.directories

pub >>_iff : (a b : Result IoError (Unit {0})) → (a >> b ≡ ok tt) ↔ ((a ≡ ok tt) × (b ≡ ok tt))
>>_iff (err e) b = (λ h. cc, λ h. cc)
>>_iff (ok tt) b = (λ h. (refl, h), λ h. h.1)

pub guard_iff :
    (b : Bool) (what : String) → ((if b then ok tt else malformed what) ≡ ok tt) ↔ (b ≡ true)
unfolding malformed
guard_iff true what = (λ h. refl, λ h. refl)
guard_iff false what = (λ h. cc, λ h. cc)

pub unless_iff :
    (b : Bool) (what : String) → ((if b then malformed what else ok tt) ≡ ok tt) ↔ (b ≡ false)
unfolding malformed
unless_iff true what = (λ h. cc, λ h. cc)
unless_iff false what = (λ h. refl, λ h. refl)

pub &&_iff : (a b : Bool) → ((a && b) ≡ true) ↔ ((a ≡ true) × (b ≡ true))
&&_iff true b = (λ h. (refl, h), λ h. h.1)
&&_iff false b = (λ h. cc, λ h. cc)

pub ||_iff : (a b : Bool) → ((a || b) ≡ false) ↔ ((a ≡ false) × (b ≡ false))
||_iff true b = (λ h. cc, λ h. cc)
||_iff false b = (λ h. (refl, h), λ h. h.1)

pub iff_trans : {A B C : Type 0} → A ↔ B → B ↔ C → A ↔ C
iff_trans f g = (λ a. g.0 (f.0 a), λ c. f.1 (g.1 c))

pub canonical_iff : (path : Bytes) → (canonical path ≡ true) ↔ IsCanonical path
unfolding canonical
canonical_iff path = go (canonical_entry_path path)
  where
    go : (o : Option Bytes) → (is_spelled path o ≡ true) ↔ (o ≡ some path)
    go none = (λ h. cc, λ h. cc)
    go (some out) =
        (λ h. ap some ((=b_iff out path).0 h), λ h. (=b_iff out path).1 (some-injective out path h))

pub IsKept-kept_entry :
    (layers : List Entries.Table) (l e : ℕ) (kind : Kind) (found : Entry)
    → kept_entry layers l e kind ≡ some found
    → (k : IsKept layers kind l e) × (k.entry ≡ found)
unfolding kept_entry
IsKept-kept_entry layers l e kind found h = at_table (get_elem? layers l) refl h
  where
    at_entry :
        (table : Entries.Table) (o : Option Entry)
        → get_elem? layers l ≡ some table
        → get_elem? table.entries e ≡ o
        → of_kind kind o ≡ some found
        → (k : IsKept layers kind l e) × (k.entry ≡ found)
    at_entry table none t f k = cc
    at_entry table (some entry) t f k = of (same_kind entry.kind kind) refl k
      where
        of :
            (b : Bool)
            → same_kind entry.kind kind ≡ b
            → ◌≡◌ {A = Option Entry} (if b then some entry else none) (some found)
            → (k : IsKept layers kind l e) × (k.entry ≡ found)
        of false s j = cc
        of true s j = (
          record {
            table = table;
            layer = t;
            entry = entry;
            found = f;
            of_kind = (same_kind_iff entry.kind kind).0 s;
          },
          some-injective entry found j,
        )

    at_table :
        (o : Option Entries.Table)
        → get_elem? layers l ≡ o
        → of_kind kind (entry_in o e) ≡ some found
        → (k : IsKept layers kind l e) × (k.entry ≡ found)
    at_table none t k = cc
    at_table (some table) t k = at_entry table (get_elem? table.entries e) t refl k

pub kept_entry-IsKept :
    (layers : List Entries.Table) (l e : ℕ) (kind : Kind) (k : IsKept layers kind l e)
    → kept_entry layers l e kind ≡ some k.entry
unfolding kept_entry
kept_entry-IsKept layers l e kind k =
    rw (k.layer, k.found, (same_kind_iff k.entry.kind kind).1 k.of_kind) refl
