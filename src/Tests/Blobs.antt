-- ===== src/Tests/Blobs.antt =====
-- Digests, blobs and the choice of a manifest, for source/src/image.rs.
use rules_oci_runtime.Prelude.{
  ◌≡◌, ◌↔◌, refl, none, some, List, [], ◌∷◌, ◌++◌, Bytes, ◌=b◌, codes, Result, ok, err,
}
use rules_oci_runtime.Errors.{Error, no_command}
use rules_oci_runtime.Spec.Env.{split_once}
use rules_oci_runtime.Image.Digest.{
  Platform, Descriptor, ParsedDigest, algorithm_ok, hex_ok, parse_digest, verify_digest, hex_encode,
  read_metadata_blob,
}
use rules_oci_runtime.Image.Digest.Verified.{
  IsVerified, IsHex, parse_digest_iff, read_metadata_blob-IsVerified,
}
use rules_oci_runtime.Image.Platform.{matches}
use rules_oci_runtime.Image.Manifest.{resolve_manifest_descriptor}
use rules_oci_runtime.Image.Manifest.Chosen.{IsChosen, resolve_manifest_descriptor-IsChosen}

-- A hash that is the first byte.
abbrev pub first_byte : Bytes → Bytes
first_byte [] = 0 ∷ []
first_byte (b ∷ bs) = b ∷ []

abbrev pub a_digest : ParsedDigest
a_digest = record { algorithm = codes "sha256"; hex = codes "7b" }

abbrev pub a_blob : Descriptor
a_blob = record { media_type = []; digest = codes "sha256:7b"; size = 2; platform = none }

abbrev pub files : ParsedDigest → Result Error Bytes
files parsed = ok (codes "{}")

parse_digest_iff_example : (parse_digest (codes "sha256:7b") ≡ ok a_digest) ↔ (
    (codes "sha256:7b" ≡ codes "sha256:" ++ codes "7b")
    × (codes "sha256" ≡ codes "sha256")
    × IsHex (codes "7b"))
parse_digest_iff_example = parse_digest_iff (codes "sha256:7b") a_digest

read-a_blob : read_metadata_blob first_byte files a_blob ≡ ok (codes "{}")
unfolding read_metadata_blob verify_digest parse_digest hex_encode hex_ok algorithm_ok split_once
    ◌=b◌
read-a_blob = refl

read_metadata_blob-IsVerified_example : IsVerified first_byte files a_blob (codes "{}")
read_metadata_blob-IsVerified_example =
    read_metadata_blob-IsVerified first_byte files a_blob (codes "{}") read-a_blob

abbrev pub linux_on : Bytes → Platform
linux_on architecture = record { architecture = architecture; os = codes "linux"; variant = none }

abbrev pub manifest_for : Bytes → Descriptor
manifest_for architecture = record {
  media_type = [];
  digest = codes "sha256:7b";
  size = 0;
  platform = some (linux_on architecture);
}

abbrev pub an_index : List Descriptor
an_index = manifest_for (codes "amd64") ∷ (manifest_for (codes "arm64") ∷ [])

abbrev pub read_none : Descriptor → Result Error (List Descriptor)
read_none d = err no_command

resolve-an_index :
    resolve_manifest_descriptor read_none (linux_on (codes "arm64")) an_index
    ≡ ok (manifest_for (codes "arm64"))
unfolding resolve_manifest_descriptor matches ◌=b◌
resolve-an_index = refl

resolve_manifest_descriptor-IsChosen_example :
    IsChosen read_none (linux_on (codes "arm64")) an_index (manifest_for (codes "arm64"))
resolve_manifest_descriptor-IsChosen_example =
    resolve_manifest_descriptor-IsChosen read_none (linux_on (codes "arm64")) an_index
      (manifest_for (codes "arm64")) resolve-an_index
