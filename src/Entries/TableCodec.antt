-- ===== src/Entries/TableCodec.antt =====
-- `Table::write_to` and `Table::read_from`.
use rules_oci_runtime.Prelude.{
  ℕ, zero, suc, List, [], ◌∷◌, ◌++◌, Bytes, length, ◌==◌, ltb, if◌then◌else◌, Result, ok, err,
  ◌>>=◌, ok_or, to_le_bytes,
}
use rules_oci_runtime.Errors.{IoError, other}
use rules_oci_runtime.Entries.{Entry, Table, magic, max_entries}
use rules_oci_runtime.Entries.Text.{from_utf8}
use rules_oci_runtime.Entries.Codec
use rules_oci_runtime.Entries.Codec.{Take, take_bytes, take_u32, take_entry}
use rules_oci_runtime.Entries.Write.{write_bytes, write_entry}
use rules_oci_runtime.Entries.Framed.{Deflate, write_framed, read_framed}

-- The loop over the entries to write.
unfoldable pub write_entries : Bytes → List Entry → Result IoError Bytes
write_entries body [] = ok body
write_entries body (e ∷ es) = write_entry body e >>= λ body'. write_entries body' es

-- The loop `for _ in 0..count` of reads.
unfoldable pub take_entries : ℕ → Take (List Entry)
take_entries zero = Codec.pure []
take_entries (suc n) =
    Codec.◌>>=◌ take_entry λ e. Codec.◌>>=◌ (take_entries n) λ es. Codec.pure (e ∷ es)

unfoldable pub table_body : Table → Result IoError Bytes
unfolding write_entries
table_body t = write_bytes [] t.layer >>= λ body.
    write_entries (body ++ to_le_bytes 4 (length t.entries)) t.entries

unfoldable pub check_count : ℕ → Result IoError (Unit {0})
check_count count = if ltb max_entries count then err (other "implausible entry count") else ok tt

unfoldable pub take_table : Take Table
unfolding take_entries check_count
take_table = Codec.◌>>=◌ take_bytes λ raw.
    Codec.◌>>=◌ (Codec.lift (ok_or (from_utf8 raw) (other "the layer digest is not text"))) λ layer.
      Codec.◌>>=◌ take_u32 λ count. Codec.◌>>=◌ (Codec.lift (check_count count)) λ _.
        Codec.◌>>=◌ (take_entries count)
          λ entries. Codec.pure (record { layer = layer; entries = entries })

-- The check that the whole body was read.
unfoldable pub whole : Bytes → Table × ℕ → Result IoError Table
whole body r = if r.1 == length body then ok r.0 else err (other "trailing bytes in entry table")

unfoldable pub read_table_body : Bytes → Result IoError Table
unfolding take_table whole
read_table_body body = take_table body 0 >>= whole body

module _ (d : Deflate) where
  unfoldable pub write_to : Table → Result IoError Bytes
  unfolding table_body
  write_to t = table_body t >>= λ body. write_framed d magic body

  unfoldable pub read_from : Bytes → Result IoError Table
  unfolding read_table_body
  read_from stream = read_framed d magic "an entry table" stream >>= read_table_body
