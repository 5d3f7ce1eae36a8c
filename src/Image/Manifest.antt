-- ===== src/Image/Manifest.antt =====
-- `resolve_manifest_descriptor`: the search of the index for a manifest of a platform. Reading a
-- nested index is a parameter.
pub mod Chosen
use rules_oci_runtime.Prelude.{
  ℕ, zero, suc, Ordering, Bool, true, false, ◌&&◌, ◌||◌, Option, none, some, List, [], ◌∷◌, ◌++◌,
  Bytes, ◌=b◌, if◌then◌else◌, codes, Result, ok, err, ◌>>=◌,
}
use rules_oci_runtime.Errors.{Error, layout, no_matching_platform}
use rules_oci_runtime.OrderedMap.{is_lt}
use rules_oci_runtime.Plan.Key.{lex}
use rules_oci_runtime.Plan.Placeable.{sort}
use rules_oci_runtime.Image.Digest.{Platform, Descriptor}
use rules_oci_runtime.Image.Platform.{matches, to_string}

abbrev pub is_index : Bytes → Bool
is_index media_type =
    media_type =b codes "application/vnd.oci.image.index.v1+json"
    || media_type =b codes "application/vnd.docker.distribution.manifest.list.v2+json"

abbrev pub is_manifest : Bytes → Bool
is_manifest media_type =
    media_type =b codes "application/vnd.oci.image.manifest.v1+json"
    || media_type =b codes "application/vnd.docker.distribution.manifest.v2+json"
    || media_type =b []

-- A descriptor of no platform serves any.
unfoldable pub serves : Platform → Option Platform → Bool
serves platform none = true
serves platform (some candidate) = matches platform candidate

-- What one list of descriptors comes to: the manifest, or the nested indexes and what else there is.
pub data Scan : Type 0 where
  found : Descriptor → Scan
  searched : List Descriptor → List Bytes → Scan

abbrev pub shown : Option Platform → List Bytes
shown none = []
shown (some candidate) = to_string candidate ∷ []

-- One round of the loop over the descriptors. The last argument is what the others come to.
unfoldable pub scan_one :
    Platform
    → Descriptor
    → List Descriptor
    → List Bytes
    → (List Descriptor → List Bytes → Scan)
    → Scan
unfolding serves
scan_one platform d nested available rest =
    if is_index d.media_type
    then (if serves platform d.platform
        then rest (nested ++ (d ∷ [])) available
        else rest nested available)
    else if is_manifest d.media_type
    then (if serves platform d.platform
        then found d
        else rest nested (available ++ shown d.platform))
    else rest nested available

unfoldable pub scan : Platform → List Descriptor → List Descriptor → List Bytes → Scan
unfolding scan_one
scan platform [] nested available = searched nested available
scan platform (d ∷ ds) nested available = scan_one platform d nested available (scan platform ds)

unfoldable pub dedup : List Bytes → List Bytes
dedup [] = []
dedup (x ∷ []) = x ∷ []
dedup (x ∷ (y ∷ ys)) = let rest = dedup (y ∷ ys) in if x =b y then rest else x ∷ rest

abbrev pub sorted : List Bytes → List Bytes
sorted available = dedup (sort (λ a b. is_lt (lex a b)) available)

module _ (read : Descriptor → Result Error (List Descriptor)) (platform : Platform) where
  -- The loop that reads the nested indexes. The queue has its last list in front.
  unfoldable pub push_nested :
      List Descriptor → List (List Descriptor) → Result Error (List (List Descriptor))
  push_nested [] queue = ok queue
  push_nested (d ∷ ds) queue = read d >>= λ manifests. push_nested ds (manifests ∷ queue)

  abbrev pub after_scan :
      Scan
      → List (List Descriptor)
      → (List (List Descriptor) → List Bytes → Result Error Descriptor)
      → Result Error Descriptor
  after_scan (found d) queue next = ok d
  after_scan (searched nested available) queue next =
      push_nested nested queue >>= λ queue'. next queue' available

  -- The loop over the queue, with the number of lists that may still be taken from it.
  unfoldable pub search : ℕ → List (List Descriptor) → List Bytes → Result Error Descriptor
  unfolding scan push_nested
  search n [] available =
      err (no_matching_platform platform.os platform.architecture (sorted available))
  search zero (ds ∷ queue) available = err (layout (codes "image index nested too deeply"))
  search (suc n) (ds ∷ queue) available =
      after_scan (scan platform ds [] available) queue (search n)

  unfoldable pub resolve_manifest_descriptor : List Descriptor → Result Error Descriptor
  unfolding search
  resolve_manifest_descriptor index = search 8 (index ∷ []) []
