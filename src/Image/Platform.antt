-- ===== src/Image/Platform.antt =====
-- `Platform::matches`, and how a platform is shown.
use rules_oci_runtime.Prelude.{
  ◌+◌, Bool, true, false, ◌&&◌, ◌||◌, Option, none, some, [], ◌∷◌, ◌++◌, Bytes, ◌=b◌, leb,
  if◌then◌else◌, map, codes,
}
use rules_oci_runtime.Fsutil.{is_empty, slash}
use rules_oci_runtime.Image.Digest.{Platform}

-- `to_ascii_lowercase`
unfoldable pub to_ascii_lowercase : Bytes → Bytes
to_ascii_lowercase text = map (λ c. if leb b'A' c && leb c b'Z' then c + 32 else c) text

abbrev pub is_default_variant : Bytes → Bytes → Bool
is_default_variant architecture variant =
    ((architecture =b codes "arm64" || architecture =b codes "aarch64")
      && (variant =b codes "v8" || variant =b codes "8"))
    || ((architecture =b codes "amd64" || architecture =b codes "x86_64") && variant =b codes "v1")

abbrev pub kept_variant : Bytes → Bytes → Option Bytes
kept_variant architecture variant =
    if is_empty variant
    then none
    else if is_default_variant architecture variant
    then none
    else some variant

unfoldable pub default_variant_removed : Bytes → Option Bytes → Option Bytes
unfolding to_ascii_lowercase
default_variant_removed architecture none = none
default_variant_removed architecture (some variant) =
    kept_variant (to_ascii_lowercase architecture) (to_ascii_lowercase variant)

abbrev pub variant_ok : Option Bytes → Option Bytes → Bool
variant_ok ours none = true
variant_ok none (some theirs) = false
variant_ok (some ours) (some theirs) = ours =b theirs

unfoldable pub matches : Platform → Platform → Bool
unfolding default_variant_removed
matches us candidate =
    (is_empty candidate.os || candidate.os =b us.os)
    && (is_empty candidate.architecture || candidate.architecture =b us.architecture)
    && variant_ok (default_variant_removed us.architecture us.variant)
        (default_variant_removed candidate.architecture candidate.variant)

abbrev pub shown_variant : Option Bytes → Bytes
shown_variant none = []
shown_variant (some variant) = if is_empty variant then [] else slash ∷ variant

-- `Display for Platform`
unfoldable pub to_string : Platform → Bytes
to_string p = p.os ++ (slash ∷ (p.architecture ++ shown_variant p.variant))
