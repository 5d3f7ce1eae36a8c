-- ===== src/Errors.antt =====
-- The failures of source/src/error.rs, and the `io::Error` values that carry a message.
use rules_oci_runtime.Prelude.{ℕ, List, Bytes}
use Prim.Native.String.{String}

pub data IoError : Type 0 where
  -- `io::Error::other`
  other : String → IoError
  -- what `read_exact` gives at the end of a stream
  unexpected_eof : IoError

-- `Error`. A message or a path is its text; of an error of the JSON library only the text is kept.
pub data Error : Type 0 where
  -- context, source
  io : Bytes → IoError → Error
  json : Bytes → Bytes → Error
  layout : Bytes → Error
  malformed_digest : Bytes → Error
  -- digest, actual
  digest_mismatch : Bytes → Bytes → Error
  -- digest, expected, actual
  size_mismatch : Bytes → ℕ → ℕ → Error
  -- os, arch, available
  no_matching_platform : Bytes → Bytes → List Bytes → Error
  unsupported_media_type : Bytes → Error
  invalid_mount : Bytes → Error
  invalid_env : Bytes → Error
  -- layer, path
  unsafe_entry : Bytes → Bytes → Error
  invalid_whiteout : Bytes → Bytes → Error
  -- layer, path, attributes
  unsupported_xattrs : Bytes → Bytes → Bytes → Error
  no_command : Error
  missing_runfiles : Bytes → Error
  -- program, source
  runtime_spawn : Bytes → IoError → Error
  cannot_serve : Bytes → Error
  -- path, message
  profile : Bytes → Bytes → Error
  -- path, expected, actual
  mismatched_sidecar : Bytes → Bytes → Bytes → Error
  -- layer, offset
  content_mismatch : Bytes → ℕ → Error
