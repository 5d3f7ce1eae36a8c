-- ===== src/Image/Digest.antt =====
-- `parse_digest`, `verify_digest` and `read_metadata_blob`. The hash and the files are parameters.
pub mod Verified
use rules_oci_runtime.Prelude.{
  ℕ, suc, ◌+◌, ◌-◌, ◌*◌, ◌/◌, ◌%◌, min, Bool, true, false, not, ◌&&◌, ◌||◌, Option, none, some,
  List, [], ◌∷◌, ◌++◌, Bytes, ◌==◌, ◌=b◌, ltb, leb, if◌then◌else◌, all, length, take, codes, Result,
  ok, err, ◌>>=◌, ◌>>◌,
}
use rules_oci_runtime.Fsutil.{is_empty}
use rules_oci_runtime.Errors.{
  Error, malformed_digest, unsupported_media_type, layout, size_mismatch, digest_mismatch,
}
use rules_oci_runtime.Spec.Env.{split_once}

-- `MAX_METADATA_BLOB_BYTES`
abbrev pub max_metadata_blob_bytes : ℕ
max_metadata_blob_bytes = 32 * 1024 * 1024

pub record Platform : Type 0 where
  pub architecture : Bytes
  pub os : Bytes
  pub variant : Option Bytes

pub record Descriptor : Type 0 where
  pub media_type : Bytes
  pub digest : Bytes
  pub size : ℕ
  pub platform : Option Platform

pub record ParsedDigest : Type 0 where
  pub algorithm : Bytes
  pub hex : Bytes

-- `is_ascii_lowercase`, `is_ascii_digit` and `is_ascii_hexdigit`
abbrev pub is_ascii_lowercase : ℕ → Bool
is_ascii_lowercase c = leb b'a' c && leb c b'z'

abbrev pub is_ascii_digit : ℕ → Bool
is_ascii_digit c = leb b'0' c && leb c b'9'

unfoldable pub is_ascii_hexdigit : ℕ → Bool
is_ascii_hexdigit c = is_ascii_digit c || (leb b'a' c && leb c b'f') || (leb b'A' c && leb c b'F')

unfoldable pub algorithm_ok : Bytes → Bool
algorithm_ok algorithm =
    not (is_empty algorithm) && all (λ c. is_ascii_lowercase c || is_ascii_digit c) algorithm

unfoldable pub hex_ok : Bytes → Bool
unfolding is_ascii_hexdigit
hex_ok hex = not (is_empty hex) && all is_ascii_hexdigit hex

abbrev pub parse_split : Bytes → Option (Bytes × Bytes) → Result Error ParsedDigest
parse_split digest none = err (malformed_digest digest)
parse_split digest (some (algorithm, hex)) =
    if not (algorithm_ok algorithm) || not (hex_ok hex)
    then err (malformed_digest digest)
    else if algorithm =b codes "sha256"
    then ok (record { algorithm = algorithm; hex = hex })
    else err (unsupported_media_type (codes "digest algorithm " ++ algorithm))

unfoldable pub parse_digest : Bytes → Result Error ParsedDigest
unfolding split_once algorithm_ok hex_ok
parse_digest digest = parse_split digest (split_once b':' digest)

-- `char::from_digit(_, 16)`
abbrev pub hex_digit : ℕ → ℕ
hex_digit n = if ltb n 10 then b'0' + n else b'a' + n - 10

unfoldable pub hex_encode : Bytes → Bytes
hex_encode [] = []
hex_encode (byte ∷ bytes) = hex_digit (byte / 16) ∷ (hex_digit (byte % 16) ∷ hex_encode bytes)

abbrev pub check_hex : Descriptor → Bytes → ParsedDigest → Result Error (Unit {0})
check_hex descriptor actual parsed =
    if actual =b parsed.hex then ok tt else err (digest_mismatch descriptor.digest actual)

unfoldable pub verify_digest : Descriptor → ℕ → Bytes → Result Error (Unit {0})
unfolding parse_digest hex_encode
verify_digest descriptor size digest =
    if not (descriptor.size == 0) && not (descriptor.size == size)
    then err (size_mismatch descriptor.digest descriptor.size size)
    else parse_digest descriptor.digest >>= check_hex descriptor (hex_encode digest)

abbrev pub limit_of : Descriptor → ℕ
limit_of descriptor =
    if descriptor.size == 0
    then max_metadata_blob_bytes
    else min descriptor.size max_metadata_blob_bytes

module _ (sha256 : Bytes → Bytes) where
  unfoldable pub verify : Descriptor → Bytes → Result Error (Unit {0})
  unfolding verify_digest
  verify descriptor bytes = verify_digest descriptor (length bytes) (sha256 bytes)

  -- `files` opens and reads the file of a digest under `blobs`.
  module _ (files : ParsedDigest → Result Error Bytes) where
    unfoldable pub checked : Descriptor → Bytes → Result Error Bytes
    unfolding verify
    checked descriptor bytes =
        if ltb (limit_of descriptor) (length bytes)
        then err (
            layout (
              codes "blob "
              ++ (descriptor.digest ++ codes " is larger than its descriptor allows")))
        else (verify descriptor bytes >> ok bytes)

    unfoldable pub read_metadata_blob : Descriptor → Result Error Bytes
    unfolding checked
    read_metadata_blob descriptor = parse_digest descriptor.digest >>= λ parsed.
        files parsed >>= λ content. checked descriptor (take (limit_of descriptor + 1) content)
