-- ===== src/Rootfs/Codec.antt =====
-- `Table::write_to` and `Table::read_from` of source/src/rootfs.rs. A text is its bytes.
pub mod Reads
pub mod RoundTrip
use rules_oci_runtime.Prelude.{
  ℕ, zero, suc, ◌-◌, Bool, true, false, Option, none, some, List, [], ◌∷◌, ◌++◌, Bytes, length,
  ◌==◌, ltb, if◌then◌else◌, Result, ok, err, ◌>>=◌, ◌>>◌, ok_or, to_le_bytes,
}
use rules_oci_runtime.Errors.{IoError, other}
use rules_oci_runtime.Entries.{Entry, Table}
use rules_oci_runtime.Entries.Text.{from_utf8}
use rules_oci_runtime.Entries.Codec
use rules_oci_runtime.Entries.Codec.{Take, take_bytes, take_u32, take_entry}
use rules_oci_runtime.Entries.Write.{write_bytes}
use rules_oci_runtime.Entries.TableCodec.{write_entries}
use rules_oci_runtime.Entries.Framed.{Deflate, write_framed, read_framed}
use rules_oci_runtime.Plan.Placeable.{Work}
use rules_oci_runtime.Rootfs.{RootfsTable, rootfs_magic, check}

-- `put_u32(body, count)`: the count as a `u32`.
abbrev pub put_u32 : Bytes → ℕ → Bytes
put_u32 body count = body ++ to_le_bytes 4 count

-- A loop of writes over a list.
unfoldable pub write_all :
    {A : Type 0} → (Bytes → A → Result IoError Bytes) → Bytes → List A → Result IoError Bytes
write_all write body [] = ok body
write_all write body (a ∷ more) = write body a >>= λ body'. write_all write body' more

-- A list with its length before it.
abbrev pub write_list :
    {A : Type 0} → (Bytes → A → Result IoError Bytes) → Bytes → List A → Result IoError Bytes
write_list write body items = write_all write (put_u32 body (length items)) items

unfoldable pub write_layer : Bytes → Table → Result IoError Bytes
unfolding write_bytes write_entries
write_layer body layer = write_bytes body layer.layer >>= λ b.
    write_entries (put_u32 b (length layer.entries)) layer.entries

unfoldable pub write_directory : Bytes → Bytes × ℕ → Result IoError Bytes
unfolding write_bytes
write_directory body (path, mode) = write_bytes body path >>= λ b. ok (b ++ to_le_bytes 4 mode)

unfoldable pub write_index : Bytes → ℕ → Result IoError Bytes
write_index body entry = ok (body ++ to_le_bytes 4 entry)

unfoldable pub write_files : Bytes → List ℕ → Result IoError Bytes
unfolding write_all write_index
write_files body files = write_list write_index body files

unfoldable pub write_pair : Bytes → ℕ × ℕ → Result IoError Bytes
write_pair body (layer, entry) = ok ((body ++ to_le_bytes 4 layer) ++ to_le_bytes 4 entry)

unfoldable pub write_xattrs : Bytes → ℕ × Bytes × Bytes → Result IoError Bytes
unfolding write_bytes
write_xattrs body (layer, path, names) =
    write_bytes (body ++ to_le_bytes 4 layer) path >>= λ b. write_bytes b names

-- The body that `write_to` frames.
unfoldable pub rootfs_body : RootfsTable → Result IoError Bytes
unfolding write_all write_layer write_directory write_files write_pair write_xattrs
rootfs_body t = do
  b₁ ← write_bytes [] t.manifest
  b₂ ← write_bytes b₁ t.platform
  b₃ ← write_list write_layer b₂ t.layers
  b₄ ← write_list write_directory b₃ t.directories
  b₅ ← write_all write_files b₄ t.work.files
  b₆ ← write_list write_pair b₅ t.work.symlinks
  b₇ ← write_list write_pair b₆ t.work.hard_links
  write_list write_xattrs b₇ t.xattrs

-- `text`
unfoldable pub take_text : Take Bytes
take_text =
    Codec.◌>>=◌ take_bytes λ raw. Codec.lift (ok_or (from_utf8 raw) (other "a digest is not text"))

-- The refusal in `take_count`: a count that the rest of the body could not hold.
unfoldable pub plausible : ℕ → Take ℕ
plausible count body at =
    if ltb (length body - at) count
    then err (other "implausible count in rootfs table")
    else ok (count, at)

unfoldable pub take_count : Take ℕ
unfolding plausible
take_count = Codec.◌>>=◌ take_u32 plausible

-- A loop of reads, a number of times.
unfoldable pub take_times : {A : Type 0} → Take A → ℕ → Take (List A)
take_times take zero = Codec.pure []
take_times take (suc n) =
    Codec.◌>>=◌ take λ a. Codec.◌>>=◌ (take_times take n) λ more. Codec.pure (a ∷ more)

-- `for _ in 0..take_count(...)?`
unfoldable pub take_list : {A : Type 0} → Take A → Take (List A)
unfolding take_count take_times
take_list take = Codec.◌>>=◌ take_count (take_times take)

unfoldable pub take_layer : Take Table
unfolding take_text take_list
take_layer = Codec.◌>>=◌ take_text λ layer.
    Codec.◌>>=◌ (take_list take_entry) λ kept. Codec.pure (record { layer = layer; entries = kept })

unfoldable pub take_directory : Take (Bytes × ℕ)
take_directory = Codec.◌>>=◌ take_bytes λ path. Codec.◌>>=◌ take_u32 λ mode. Codec.pure (path, mode)

unfoldable pub take_pair : Take (ℕ × ℕ)
take_pair = Codec.◌>>=◌ take_u32 λ layer. Codec.◌>>=◌ take_u32 λ entry. Codec.pure (layer, entry)

unfoldable pub take_xattrs : Take (ℕ × Bytes × Bytes)
take_xattrs = Codec.◌>>=◌ take_u32 λ layer.
    Codec.◌>>=◌ take_bytes λ path. Codec.◌>>=◌ take_bytes λ names. Codec.pure (layer, path, names)

unfoldable pub take_rootfs : Take RootfsTable
unfolding take_text take_list take_layer take_directory take_pair take_xattrs take_times
take_rootfs = Codec.◌>>=◌ take_text λ manifest. Codec.◌>>=◌ take_text λ platform.
    Codec.◌>>=◌ (take_list take_layer) λ layers.
      Codec.◌>>=◌ (take_list take_directory) λ directories.
        Codec.◌>>=◌ (take_times (take_list take_u32) (length layers)) λ files.
          Codec.◌>>=◌ (take_list take_pair) λ symlinks.
            Codec.◌>>=◌ (take_list take_pair) λ hard_links.
              Codec.◌>>=◌ (take_list take_xattrs) λ xattrs. Codec.pure (record {
                manifest = manifest;
                platform = platform;
                layers = layers;
                directories = directories;
                work = record { files = files; symlinks = symlinks; hard_links = hard_links };
                xattrs = xattrs;
              })

-- The end of `read_from`: nothing is left of the body, and the table passes the check.
unfoldable pub checked_table : Bytes → RootfsTable × ℕ → Result IoError RootfsTable
unfolding check
checked_table body (t, at) =
    if at == length body then (check t >> ok t) else err (other "trailing bytes in rootfs table")

unfoldable pub read_rootfs_body : Bytes → Result IoError RootfsTable
unfolding take_rootfs checked_table
read_rootfs_body body = take_rootfs body 0 >>= checked_table body

module _ (d : Deflate) where
  unfoldable pub write_rootfs : RootfsTable → Result IoError Bytes
  unfolding rootfs_body
  write_rootfs t = rootfs_body t >>= λ body. write_framed d rootfs_magic body

  unfoldable pub read_rootfs : Bytes → Result IoError RootfsTable
  unfolding read_rootfs_body
  read_rootfs stream = read_framed d rootfs_magic "a rootfs table" stream >>= read_rootfs_body
