-- ===== src/Image/Manifest/Chosen.antt =====
-- The descriptor that `resolve_manifest_descriptor` of source/src/image.rs chooses.
use rules_oci_runtime.Prelude.{
  ℕ, zero, suc, ◌≡◌, ◌⊎◌, inl, inr, refl, sym, ap, Bool, true, false, ◌&&◌, ◌||◌, Option, none,
  some, ◌=b◌, eq_of_=b, both_true, List, [], ◌∷◌, ◌++◌, Bytes, if◌then◌else◌, All, All-append,
  Result, ok, >>=-eq-ok, ok-injective,
}
use mathlib.Core.Path.{subst}
use rules_oci_runtime.Errors.{Error}
use rules_oci_runtime.Fsutil.{is_empty}
use rules_oci_runtime.Image.Platform.{matches, variant_ok, default_variant_removed}
use rules_oci_runtime.Image.Digest.{Platform, Descriptor}
use rules_oci_runtime.Image.Manifest.{
  is_index, is_manifest, serves, Scan, found, searched, shown, scan_one, scan, push_nested,
  after_scan, search, resolve_manifest_descriptor,
}

-- Among the descriptors of a list.
abbrev pub Lists : Descriptor → List Descriptor → Type 0
Lists d [] = ⊥
Lists d (e ∷ es) = (d ≡ e) ⊎ Lists d es

-- A platform suits what a descriptor says of its own: the system and the architecture are ours or
-- not given, and the variant is ours, where it is given and is not the default.
pub record Suits (us candidate : Platform) : Type 0 where
  pub os : (candidate.os ≡ []) ⊎ (candidate.os ≡ us.os)
  pub architecture : (candidate.architecture ≡ []) ⊎ (candidate.architecture ≡ us.architecture)
  pub variant :
      (default_variant_removed candidate.architecture candidate.variant ≡ none)
      ⊎ (default_variant_removed candidate.architecture candidate.variant
          ≡ default_variant_removed us.architecture us.variant)

empty_or :
    (text ours : Bytes) → (is_empty text || text =b ours) ≡ true → (text ≡ []) ⊎ (text ≡ ours)
empty_or [] ours h = inl refl
empty_or (c ∷ cs) ours h = inr (eq_of_=b (c ∷ cs) ours h)

variant_or :
    (ours theirs : Option Bytes) → variant_ok ours theirs ≡ true → (theirs ≡ none) ⊎ (theirs ≡ ours)
variant_or ours none h = inl refl
variant_or none (some theirs) h = cc
variant_or (some ours) (some theirs) h = inr (ap some (sym (eq_of_=b ours theirs h)))

matches-Suits : (us candidate : Platform) → matches us candidate ≡ true → Suits us candidate
unfolding matches
matches-Suits us candidate h =
    let (oa, v) =
      (both_true
          ((is_empty candidate.os || candidate.os =b us.os)
            && (is_empty candidate.architecture || candidate.architecture =b us.architecture))
          _).0
        h in
    let (o, a) = (both_true (is_empty candidate.os || candidate.os =b us.os) _).0 oa in
    record {
      os = empty_or candidate.os us.os o;
      architecture = empty_or candidate.architecture us.architecture a;
      variant = variant_or _ _ v;
    }

serves-Suits :
    (us : Platform) (platform : Option Platform)
    → serves us platform ≡ true
    → (candidate : Platform) → platform ≡ some candidate
    → Suits us candidate
unfolding serves
serves-Suits us platform h candidate e =
    matches-Suits us candidate (subst (λ p. serves us p ≡ true) e h)

-- A list that the index leads to: itself, and what is read of a nested index that serves the
-- platform.
pub data Leads (read : Descriptor → Result Error (List Descriptor)) (platform : Platform)
    (index : List Descriptor) : List Descriptor → Type 0 where
  itself : Leads read platform index index
  nested_index :
      (ds manifests : List Descriptor) (d : Descriptor)
      → Leads read platform index ds
      → Lists d ds
      → is_index d.media_type ≡ true
      → serves platform d.platform ≡ true
      → read d ≡ ok manifests
      → Leads read platform index manifests

-- A nested index of a list that serves the platform.
abbrev IsNested : Platform → List Descriptor → Descriptor → Type 0
IsNested platform ds d =
    Lists d ds × (is_index d.media_type ≡ true) × (serves platform d.platform ≡ true)

abbrev Scanned : Platform → List Descriptor → Scan → Type 0
Scanned platform ds (found d) =
    Lists d ds × (is_manifest d.media_type ≡ true) × (serves platform d.platform ≡ true)
Scanned platform ds (searched nested available) = All (IsNested platform ds) nested

scan-Scanned :
    (platform : Platform) (whole ds : List Descriptor) (nested : List Descriptor)
    (available : List Bytes)
    → ((d : Descriptor) → Lists d ds → Lists d whole)
    → All (IsNested platform whole) nested
    → Scanned platform whole (scan platform ds nested available)
unfolding scan scan_one
scan-Scanned platform whole [] nested available among a = a
scan-Scanned platform whole (d ∷ ds) nested available among a =
    go (is_index d.media_type) (is_manifest d.media_type) (serves platform d.platform) refl refl
      refl (λ n v. scan-Scanned platform whole ds n v (λ e l. among e (inr l)))
  where
    here : Lists d whole
    here = among d (inl refl)

    go :
        (i m s : Bool)
        → is_index d.media_type ≡ i
        → is_manifest d.media_type ≡ m
        → serves platform d.platform ≡ s
        → ((n : List Descriptor) (v : List Bytes)
            → All (IsNested platform whole) n
            → Scanned platform whole (scan platform ds n v))
        → Scanned platform whole (
            if i
            then (if s
                then scan platform ds (nested ++ (d ∷ [])) available
                else scan platform ds nested available)
            else if m
            then (if s then found d else scan platform ds nested (available ++ shown d.platform))
            else scan platform ds nested available)
    go true m true ei em es ih =
        ih (nested ++ (d ∷ [])) available
          (All-append (IsNested platform whole) nested (d ∷ []) a ((here, ei, es), tt))
    go true m false ei em es ih = ih nested available a
    go false true true ei em es ih = (here, em, es)
    go false true false ei em es ih = ih nested (available ++ shown d.platform) a
    go false false s ei em es ih = ih nested available a

module _ (read : Descriptor → Result Error (List Descriptor)) (platform : Platform)
    (index : List Descriptor) where
  push_nested-Leads :
      (ds nested : List Descriptor) (queue queue' : List (List Descriptor))
      → Leads read platform index ds
      → All (IsNested platform ds) nested
      → All (Leads read platform index) queue
      → push_nested read platform nested queue ≡ ok queue'
      → All (Leads read platform index) queue'
  unfolding push_nested
  push_nested-Leads ds [] queue queue' l n q h =
      subst (λ x. All (Leads read platform index) x) (ok-injective queue queue' h) q
  push_nested-Leads ds (d ∷ nested) queue queue' l n q h =
      let (manifests, r, k) = >>=-eq-ok (read d) _ h in
      push_nested-Leads ds nested (manifests ∷ queue) queue' l n.1
        (nested_index ds manifests d l n.0.0 n.0.1 n.0.2 r, q) k

  -- A manifest of a list that the index leads to, which serves the platform.
  pub record IsChosen (d : Descriptor) : Type 0 where
    pub ds : List Descriptor
    pub leads : Leads read platform index ds
    pub listed : Lists d ds
    pub manifest : is_manifest d.media_type ≡ true
    pub serving : serves platform d.platform ≡ true
    pub suited : (candidate : Platform) → d.platform ≡ some candidate → Suits platform candidate

  search-IsChosen :
      (n : ℕ) (queue : List (List Descriptor)) (available : List Bytes) (d : Descriptor)
      → All (Leads read platform index) queue
      → search read platform n queue available ≡ ok d
      → IsChosen d
  unfolding search
  search-IsChosen n [] available d q h = cc
  search-IsChosen zero (ds ∷ queue) available d q h = cc
  search-IsChosen (suc n) (ds ∷ queue) available d q h =
      go (scan platform ds [] available) (scan-Scanned platform ds ds [] available (λ e l. l) tt) h
        (λ queue' v. search-IsChosen n queue' v d)
    where
      go :
          (s : Scan)
          → Scanned platform ds s
          → after_scan read platform s queue (search read platform n) ≡ ok d
          → ((queue' : List (List Descriptor)) (v : List Bytes)
              → All (Leads read platform index) queue'
              → search read platform n queue' v ≡ ok d
              → IsChosen d)
          → IsChosen d
      go (found e) s h ih = subst IsChosen (ok-injective e d h) (record {
        ds = ds;
        leads = q.0;
        listed = s.0;
        manifest = s.1;
        serving = s.2;
        suited = serves-Suits platform e.platform s.2;
      })
      go (searched nested v) s h ih =
          let (queue', p, k) = >>=-eq-ok (push_nested read platform nested queue) _ h in
          ih queue' v (push_nested-Leads ds nested queue queue' q.0 s q.1 p) k

-- The descriptor that is resolved is a manifest of no platform or a matching one, in the index or
-- in an index that is reached from it through nested indexes of no platform or matching ones; and
-- where it has a platform, the system and the architecture are the ones asked for or not given, and
-- the variant is the one asked for, or none or the default.
pub resolve_manifest_descriptor-IsChosen :
    (read : Descriptor → Result Error (List Descriptor)) (platform : Platform)
    (index : List Descriptor) (d : Descriptor)
    → resolve_manifest_descriptor read platform index ≡ ok d
    → IsChosen read platform index d
unfolding resolve_manifest_descriptor
resolve_manifest_descriptor-IsChosen read platform index d h =
    search-IsChosen read platform index 8 (index ∷ []) [] d (itself, tt) h
