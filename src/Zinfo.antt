-- ===== src/Zinfo.antt =====
-- The checkpoint indexes of source/src/zinfo.rs: where the decompression of a blob can be resumed, and
-- how an index is written and read.
pub mod Read
pub mod RoundTrip
pub mod Stored
use rules_oci_runtime.Prelude.{
  ℕ, zero, suc, ◌+◌, ◌-◌, Bool, true, false, not, ◌&&◌, ◌||◌, Option, none, some, List, [], ◌∷◌,
  ◌++◌, Bytes, codes, length, get_elem?, ◌==◌, ◌=b◌, ltb, leb, if◌then◌else◌, Result, ok, err,
  ◌>>=◌, ◌>>◌, ok_or, to_le_bytes, from_le_bytes,
}
use rules_oci_runtime.Errors.{IoError, other}
use rules_oci_runtime.Fsutil.{is_empty}
use rules_oci_runtime.Entries.Framed.{read_exact}

-- `MAGIC`
abbrev pub index_magic : Bytes
index_magic = codes "OZI2"

-- `WINDOW_SIZE`, 32 * 1024.
abbrev pub window_size : ℕ
window_size = 32768

-- `MAX_CHECKPOINTS`, 1 << 20.
abbrev pub max_checkpoints : ℕ
max_checkpoints = 1048576

pub data Flavor : Type 0 where
  gzip zstd stored : Flavor

-- `Flavor::code`
abbrev pub flavor_code : Flavor → ℕ
flavor_code gzip = 0
flavor_code zstd = 1
flavor_code stored = 2

-- `Flavor::from_code`
abbrev pub flavor_of : ℕ → Option Flavor
flavor_of code = if code == 0 then some gzip else if code == 1 then some zstd else none

pub record Checkpoint : Type 0 where
  pub in_offset : ℕ
  pub bits : ℕ
  pub out_offset : ℕ
  pub window : Bytes
  pub crc : ℕ

pub record Index : Type 0 where
  pub flavor : Flavor
  pub uncompressed_len : ℕ
  pub checkpoints : List Checkpoint

-- The deflate library. `inflate stream len limit` is what a decoder over at most `len` bytes of a
-- reader gives, cut after `limit` bytes, and what is then left of the reader.
pub record WindowCodec : Type 0 where
  pub deflate : Bytes → Result IoError Bytes
  pub inflate : Bytes → ℕ → ℕ → Result IoError (Bytes × Bytes)

abbrev pub is_zstd : Flavor → Bool
is_zstd gzip = false
is_zstd zstd = true
is_zstd stored = false

-- The first byte of what `read_exact` of one byte gives.
abbrev pub byte_of : Bytes → ℕ
byte_of [] = 0
byte_of (byte ∷ more) = byte

unfoldable pub check_point : Flavor → Checkpoint → Result IoError (Unit {0})
check_point flavor point =
    if ltb window_size (length point.window) || ltb 7 point.bits
    then err (other "malformed checkpoint")
    else if is_zstd flavor && (not (is_empty point.window) || not (point.bits == 0))
    then err (other "malformed checkpoint")
    else ok tt

abbrev pub point_of : Bytes → Bytes → Bytes → Bytes → Bytes → Checkpoint
point_of in_offset bits out_offset window crc = record {
  in_offset = from_le_bytes in_offset;
  bits = byte_of bits;
  out_offset = from_le_bytes out_offset;
  window = window;
  crc = from_le_bytes crc;
}

abbrev pub is_before : Option (ℕ × ℕ) → Checkpoint → Bool
is_before none point = false
is_before (some (i, o)) point = ltb point.in_offset i || ltb point.out_offset o

abbrev pub last_out : Option ℕ → List Checkpoint → Option ℕ
last_out o [] = o
last_out o (point ∷ more) = last_out (some point.out_offset) more

abbrev pub ends_before : ℕ → Option ℕ → Bool
ends_before uncompressed_len none = false
ends_before uncompressed_len (some o) = ltb uncompressed_len o

abbrev pub check_end : Flavor → ℕ → List Checkpoint → Result IoError Index
check_end flavor uncompressed_len points =
    if ends_before uncompressed_len (last_out none points)
    then err (other "checkpoints out of order")
    else ok (record { flavor = flavor; uncompressed_len = uncompressed_len; checkpoints = points })

module _ (d : WindowCodec) where
  unfoldable pub write_point : Checkpoint → Result IoError Bytes
  write_point point = do
    compressed ← d.deflate point.window
    ok (
        to_le_bytes 8 point.in_offset
        ++ (to_le_bytes 8 point.out_offset
            ++ (to_le_bytes 4 point.crc
                ++ ((point.bits ∷ []) ++ (to_le_bytes 4 (length compressed) ++ compressed)))))

  unfoldable pub write_points : List Checkpoint → Result IoError Bytes
  unfolding write_point
  write_points [] = ok []
  write_points (point ∷ more) =
      write_point point >>= λ first. write_points more >>= λ rest. ok (first ++ rest)

  -- `Index::write_to`
  unfoldable pub write_zinfo : Index → Result IoError Bytes
  unfolding write_points
  write_zinfo index = write_points index.checkpoints >>= λ points. ok (
      index_magic
      ++ ((flavor_code index.flavor ∷ [])
          ++ (to_le_bytes 8 index.uncompressed_len
              ++ (to_le_bytes 4 (length index.checkpoints) ++ points))))

  -- What one round of the loop reads.
  unfoldable pub read_point : Flavor → Bytes → Result IoError (Checkpoint × Bytes)
  unfolding read_exact check_point
  read_point flavor s = do
    (in_offset, s₁) ← read_exact 8 s
    (out_offset, s₂) ← read_exact 8 s₁
    (crc, s₃) ← read_exact 4 s₂
    (bits, s₄) ← read_exact 1 s₃
    (len, s₅) ← read_exact 4 s₄
    (window, s₆) ← d.inflate s₅ (from_le_bytes len) (window_size + 1)
    let point = point_of in_offset bits out_offset window crc
    check_point flavor point >> ok (point, s₆)

  -- The loop, where `previous` are the offsets of the checkpoint before.
  unfoldable pub read_points :
      Flavor → ℕ → Option (ℕ × ℕ) → Bytes → Result IoError (List Checkpoint × Bytes)
  unfolding read_point
  read_points flavor zero previous s = ok ([], s)
  read_points flavor (suc n) previous s = read_point flavor s >>= λ r.
      if is_before previous r.0
      then err (other "checkpoints out of order")
      else read_points flavor n (some (r.0.in_offset, r.0.out_offset)) r.1 >>= λ r'.
          ok (r.0 ∷ r'.0, r'.1)

  unfoldable pub read_counted : Flavor → ℕ → ℕ → Bytes → Result IoError Index
  unfolding read_points
  read_counted flavor uncompressed_len count s =
      if count == 0 || ltb max_checkpoints count
      then err (other "implausible checkpoint count")
      else read_points flavor count none s >>= λ r. check_end flavor uncompressed_len r.0

  unfoldable pub read_flavored : Bytes → Result IoError Index
  unfolding read_exact read_counted
  read_flavored s = do
    (byte, s₁) ← read_exact 1 s
    flavor ← ok_or (flavor_of (byte_of byte)) (other "unknown compressed format")
    (uncompressed_len, s₂) ← read_exact 8 s₁
    (count, s₃) ← read_exact 4 s₂
    read_counted flavor (from_le_bytes uncompressed_len) (from_le_bytes count) s₃

  -- `Index::read_from`
  unfoldable pub read_zinfo : Bytes → Result IoError Index
  unfolding read_exact read_flavored ◌=b◌
  read_zinfo s = do
    (found, s₁) ← read_exact 4 s
    if found =b index_magic then read_flavored s₁ else err (other "not a checkpoint index")
