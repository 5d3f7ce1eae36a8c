-- ===== src/Profile/Merged.antt =====
-- What a merged run adds to a recording (`merge_run` of source/src/profile.rs).
use rules_oci_runtime.Prelude.{
  ℕ, suc, ◌+◌, ◌≡◌, refl, ap, ◌∙◌, Bool, true, false, Option, none, some, List, [], ◌∷◌, Bytes,
  ◌=b◌, eq_of_=b, if◌then◌else◌, arith,
}
use rules_oci_runtime.OrderedMap.{OrderedMap, get, insert}
use rules_oci_runtime.OrderedMap.Laws.{get-insert}
use rules_oci_runtime.Profile.{Recording, Profile, seen_at, merge_paths, merge_run}

-- How often a path was recorded.
abbrev pub hits_of : Option Recording → ℕ
hits_of none = 0
hits_of (some entry) = entry.hits

-- How often a path stands in a list.
abbrev pub count : Bytes → List Bytes → ℕ
count path [] = 0
count path (p ∷ more) = if path =b p then suc (count path more) else count path more

hits_of-seen_at :
    (index : ℕ) (o : Option Recording) → hits_of (some (seen_at index o)) ≡ suc (hits_of o)
hits_of-seen_at index none = refl
hits_of-seen_at index (some entry) = omega arith

hits_of-merge_paths :
    (index : ℕ) (order : List Bytes) (entries : OrderedMap Recording) (path : Bytes)
    → hits_of (get path (merge_paths index order entries))
      ≡ hits_of (get path entries) + count path order
unfolding merge_paths
hits_of-merge_paths index [] entries path = omega arith
hits_of-merge_paths index (p ∷ more) entries path =
    hits_of-merge_paths (suc index) more (insert p (seen_at index (get p entries)) entries) path
    ∙ (ap (λ o. hits_of o + count path more)
          (get-insert path p (seen_at index (get p entries)) entries)
        ∙ go (path =b p) refl)
  where
    go :
        (b : Bool)
        → (path =b p) ≡ b
        → hits_of (if b then some (seen_at index (get p entries)) else get path entries)
            + count path more
          ≡ hits_of (get path entries) + (if b then suc (count path more) else count path more)
    go false e = refl
    go true e = rw (hits_of-seen_at index (get p entries), eq_of_=b path p e) (omega arith)

-- A merged run adds to what was recorded of each path as often as the run read it, so a path that it
-- did not read keeps its count.
pub hits_of-merge_run :
    (image : Bytes) (order : List Bytes) (profile : Profile) (path : Bytes)
    → hits_of (get path (merge_run image order profile).entries)
      ≡ hits_of (get path profile.entries) + count path order
unfolding merge_run
hits_of-merge_run image order profile path = hits_of-merge_paths 0 order profile.entries path
