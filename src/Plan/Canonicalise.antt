-- ===== src/Plan/Canonicalise.antt =====
-- `canonicalise`: every path of every table in the form that the walk resolves it to.
use rules_oci_runtime.Prelude.{
  ◌≡◌, ◌≢◌, refl, ◌⊎◌, inl, inr, Bool, true, false, Option, none, some, List, [], ◌∷◌, Bytes,
  if◌then◌else◌,
}
use rules_oci_runtime.Fsutil.{names_the_root, canonical_entry_path}
use rules_oci_runtime.Fsutil.Canonical.{canonical_entry_path_idempotent}
use mathlib.Core.Option.{some-injective}
use mathlib.Core.Path.{subst}
use rules_oci_runtime.Plan.Tree.Kinds.{same_kind_iff}
use rules_oci_runtime.Entries.{Kind, directory, hard_link, Entry, Table, code}
use rules_oci_runtime.Plan.Tree.{same_kind, root_entry}

abbrev pub with_link : Entry → Option Bytes → Option Entry
with_link entry none = none
with_link entry (some link) = some (record entry { link = link })

abbrev pub with_path : Entry → Option Bytes → Option Entry
with_path entry none = none
with_path entry (some path) =
    if same_kind entry.kind hard_link
    then with_link (record entry { path = path }) (canonical_entry_path entry.link)
    else some (record entry { path = path })

-- One round of the inner loop; `none` where the function returns false.
unfoldable pub canonicalise_entry : Entry → Option Entry
canonicalise_entry entry =
    if names_the_root entry.path
    then (if same_kind entry.kind directory
        then some (record entry { path = root_entry })
        else none)
    else with_path entry (canonical_entry_path entry.path)

abbrev pub cons_option {ℓ} : {A : Type ℓ} → Option A → Option (List A) → Option (List A)
cons_option none more = none
cons_option (some a) none = none
cons_option (some a) (some rest) = some (a ∷ rest)

unfoldable pub canonicalise_entries : List Entry → Option (List Entry)
unfolding canonicalise_entry
canonicalise_entries [] = some []
canonicalise_entries (entry ∷ more) =
    cons_option (canonicalise_entry entry) (canonicalise_entries more)

abbrev pub with_entries : Table → Option (List Entry) → Option Table
with_entries table none = none
with_entries table (some entries) = some (record table { entries = entries })

unfoldable pub canonicalise : List Table → Option (List Table)
unfolding canonicalise_entries
canonicalise [] = some []
canonicalise (table ∷ more) =
    cons_option (with_entries table (canonicalise_entries table.entries)) (canonicalise more)

-- The path of an entry that has been through `canonicalise`.
pub record IsCanonical (entry : Entry) : Type 0 where
  pub path :
      ((entry.path ≡ root_entry) × (same_kind entry.kind directory ≡ true))
      ⊎ (canonical_entry_path entry.path ≡ some entry.path)
  pub link :
      same_kind entry.kind hard_link ≡ true → canonical_entry_path entry.link ≡ some entry.link

-- What an entry is after `canonicalise`: the same but for the spelling of its path and, where it is
-- a hard link, of its link; and the two are canonical.
pub record IsRespelled (before after : Entry) : Type 0 where
  pub kept : after ≡ record before { path = after.path; link = after.link }
  pub path :
      ((names_the_root before.path ≡ true) × (before.kind ≡ directory) × (after.path ≡ root_entry))
      ⊎ ((names_the_root before.path ≡ false)
          × (canonical_entry_path before.path ≡ some after.path))
  pub link :
      ((before.kind ≡ hard_link) × (canonical_entry_path before.link ≡ some after.link))
      ⊎ ((before.kind ≢ hard_link) × (after.link ≡ before.link))
  pub canonical : IsCanonical after

idempotent :
    (path out : Bytes) → canonical_entry_path path ≡ some out → canonical_entry_path out ≡ some out
idempotent path out h = (canonical_entry_path_idempotent path out h).0

no_hard_link : (k : Kind) → same_kind k hard_link ≡ false → k ≢ hard_link
no_hard_link k f e = cc (f, (same_kind_iff k hard_link).1 e)

with_link-IsRespelled :
    (before after : Entry) (path : Bytes) (l : Option Bytes)
    → names_the_root before.path ≡ false
    → canonical_entry_path before.path ≡ some path
    → before.kind ≡ hard_link
    → canonical_entry_path before.link ≡ l
    → with_link (record before { path = path }) l ≡ some after
    → IsRespelled before after
with_link-IsRespelled before after path none n p k e h = cc
with_link-IsRespelled before after path (some link) n p k e h =
    subst (IsRespelled before) (some-injective _ after h) (record {
      kept = refl;
      path = inr (n, p);
      link = inl (k, e);
      canonical = record {
        path = inr (idempotent before.path path p);
        link = λ _. idempotent before.link link e;
      };
    })

with_path-IsRespelled :
    (before after : Entry) (p : Option Bytes)
    → names_the_root before.path ≡ false
    → canonical_entry_path before.path ≡ p
    → with_path before p ≡ some after
    → IsRespelled before after
with_path-IsRespelled before after none n e h = cc
with_path-IsRespelled before after (some path) n e h = go (same_kind before.kind hard_link) refl h
  where
    go :
        (b : Bool)
        → same_kind before.kind hard_link ≡ b
        → (if b
            then with_link (record before { path = path }) (canonical_entry_path before.link)
            else some (record before { path = path }))
          ≡ some after
        → IsRespelled before after
    go true d k =
        with_link-IsRespelled before after path _ n e ((same_kind_iff before.kind hard_link).0 d)
          refl k
    go false d k = subst (IsRespelled before) (some-injective _ after k) (record {
      kept = refl;
      path = inr (n, e);
      link = inr (no_hard_link before.kind d, refl);
      canonical = record { path = inr (idempotent before.path path e); link = λ c. cc (d, c) };
    })

canonicalise_entry-IsRespelled :
    (before after : Entry) → canonicalise_entry before ≡ some after → IsRespelled before after
unfolding canonicalise_entry
canonicalise_entry-IsRespelled before after h =
    go (names_the_root before.path) (same_kind before.kind directory) refl refl h
  where
    is_no_link : same_kind before.kind directory ≡ true → same_kind before.kind hard_link ≡ false
    is_no_link d = rw ((same_kind_iff before.kind directory).0 d) (unfold code in refl)

    go :
        (b d : Bool)
        → names_the_root before.path ≡ b
        → same_kind before.kind directory ≡ d
        → (if b
            then (if d then some (record before { path = root_entry }) else none)
            else with_path before (canonical_entry_path before.path))
          ≡ some after
        → IsRespelled before after
    go true true n e k = subst (IsRespelled before) (some-injective _ after k) (record {
      kept = refl;
      path = inl (n, (same_kind_iff before.kind directory).0 e, refl);
      link = inr (no_hard_link before.kind (is_no_link e), refl);
      canonical = record { path = inl (refl, e); link = λ c. cc (is_no_link e, c) };
    })
    go true false n e k = cc
    go false d n e k = with_path-IsRespelled before after _ n refl k

-- Each element of the one list against that of the other.
abbrev pub Each : {A : Type 0} → (A → A → Type 0) → List A → List A → Type 0
Each R [] [] = Unit
Each R [] (y ∷ ys) = ⊥
Each R (x ∷ xs) [] = ⊥
Each R (x ∷ xs) (y ∷ ys) = R x y × Each R xs ys

Each-cons_option :
    {A : Type 0} (R : A → A → Type 0) (x : A) (xs out : List A) (a : Option A) (r : Option (List A))
    → ((y : A) → a ≡ some y → R x y)
    → ((ys : List A) → r ≡ some ys → Each R xs ys)
    → cons_option a r ≡ some out
    → Each R (x ∷ xs) out
Each-cons_option R x xs out none r f g k = cc
Each-cons_option R x xs out (some a) none f g k = cc
Each-cons_option R x xs out (some a) (some ys) f g k =
    subst (Each R (x ∷ xs)) (some-injective (a ∷ ys) out k) (f a refl, g ys refl)

canonicalise_entries-IsRespelled :
    (es out : List Entry) → canonicalise_entries es ≡ some out → Each IsRespelled es out
unfolding canonicalise_entries
canonicalise_entries-IsRespelled [] out h = subst (Each IsRespelled []) (some-injective [] out h) tt
canonicalise_entries-IsRespelled (e ∷ es) out h =
    Each-cons_option IsRespelled e es out (canonicalise_entry e) (canonicalise_entries es)
      (canonicalise_entry-IsRespelled e) (canonicalise_entries-IsRespelled es) h

-- One table after `canonicalise`, against the one before.
pub record IsCanonicalOf (before after : Table) : Type 0 where
  pub entries : Each IsRespelled before.entries after.entries
  pub layer : after.layer ≡ before.layer

abbrev pub AllCanonical : List Table → List Table → Type 0
AllCanonical = Each IsCanonicalOf

with_entries-IsCanonicalOf :
    (t u : Table) → with_entries t (canonicalise_entries t.entries) ≡ some u → IsCanonicalOf t u
with_entries-IsCanonicalOf t u h = go (canonicalise_entries t.entries) refl h
  where
    go :
        (r : Option (List Entry))
        → canonicalise_entries t.entries ≡ r
        → with_entries t r ≡ some u
        → IsCanonicalOf t u
    go none e k = cc
    go (some es) e k =
        subst (IsCanonicalOf t) (some-injective _ u k)
          (record { entries = canonicalise_entries-IsRespelled t.entries es e; layer = refl })

-- Where `canonicalise` succeeds it keeps every table with its layer, and every entry in its place
-- with all it says but for two spellings: the path of the rootfs, which is a directory's, becomes
-- the root entry, and any other path and the link of a hard link become what
-- `canonical_entry_path` makes of them, which is canonical; any other link stays.
pub canonicalise-AllCanonical :
    (tables out : List Table) → canonicalise tables ≡ some out → AllCanonical tables out
unfolding canonicalise
canonicalise-AllCanonical [] out h = subst (AllCanonical []) (some-injective [] out h) tt
canonicalise-AllCanonical (t ∷ ts) out h =
    Each-cons_option IsCanonicalOf t ts out (with_entries t (canonicalise_entries t.entries))
      (canonicalise ts) (with_entries-IsCanonicalOf t) (canonicalise-AllCanonical ts) h
