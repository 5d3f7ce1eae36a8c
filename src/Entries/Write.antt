-- ===== src/Entries/Write.antt =====
-- Writing one entry behind a body: `write_entry` and what it is made of.
use rules_oci_runtime.Prelude.{
  ◌++◌, Option, none, some, [], ◌∷◌, Bytes, length, ltb, Bool, true, false, if◌then◌else◌, Result,
  ok, err, ◌>>=◌, to_le_bytes,
}
use rules_oci_runtime.Errors.{IoError, other}
use rules_oci_runtime.Entries.{code, is_file, Entry}

-- `write_bytes`: the length in two bytes, then the bytes.
unfoldable pub write_bytes : Bytes → Bytes → Result IoError Bytes
write_bytes out bytes =
    if ltb (length bytes) 65536
    then ok ((out ++ to_le_bytes 2 (length bytes)) ++ bytes)
    else err (other "path or link name is too long to record")

unfoldable pub write_digest : Bytes → Bool → Option Bytes → Result IoError Bytes
write_digest body true (some digest) = ok (body ++ digest)
write_digest body true none = err (other "a file entry has no content hash")
write_digest body false sha256 = ok body

unfoldable pub write_entry : Bytes → Entry → Result IoError Bytes
unfolding write_digest write_bytes
write_entry body entry = do
  let b1 = body ++ (code entry.kind ∷ [])
  let b2 = b1 ++ to_le_bytes 4 entry.mode
  let b3 = b2 ++ to_le_bytes 8 entry.mtime
  let b4 = b3 ++ to_le_bytes 8 entry.offset
  let b5 = b4 ++ to_le_bytes 8 entry.size
  b6 ← write_bytes b5 entry.path
  b7 ← write_bytes b6 entry.link
  b8 ← write_bytes b7 entry.xattrs
  write_digest b8 (is_file entry.kind) entry.sha256
