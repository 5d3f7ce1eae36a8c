-- ===== src/Tests/Tables.antt =====
-- A written entry table, with a deflate that keeps its input, for source/src/entries.rs.
use rules_oci_runtime.Prelude.{
  ◌^◌, ◌*◌, ◌<◌, ◌≤◌, ◌≡◌, refl, none, some, [], ◌∷◌, ◌++◌, Bytes, codes, arith, ok, length, take,
  to_le_bytes, AreBytes,
}
use rules_oci_runtime.Entries.{file, directory, Entry, Table, code, is_file, max_entries, magic}
use rules_oci_runtime.Entries.Text.{is_utf8}
use rules_oci_runtime.Entries.Write.{write_entry, write_bytes}
use rules_oci_runtime.Entries.Reads.{IsEntry, encode, name_bytes}
use rules_oci_runtime.Entries.Framed.{Deflate, IsLossless, write_framed}
use rules_oci_runtime.Entries.TableCodec.{table_body, write_to, read_from}
use rules_oci_runtime.Entries.RoundTrip.{IsTable, read_from-write_to}
use rules_oci_runtime.Plan.Key.{key_cmp, lex}
use rules_oci_runtime.Plan.Key.Order.{key_cmp-eq-lex}

abbrev pub stored : Deflate
stored = record { deflate = λ b. ok b; inflate = λ s n. ok (take n s) }

pub stored-IsLossless : IsLossless stored
stored-IsLossless = record { inflate-deflate = λ body stream limit h. cc }

-- Thirty-two bytes.
abbrev pub a_hash : Bytes
a_hash = codes "0123456789abcdef0123456789abcdef"

abbrev pub a_file : Entry
a_file = record {
  kind = file;
  mode = 0o644;
  mtime = 7;
  offset = 512;
  size = 3;
  path = codes "a/b";
  link = [];
  xattrs = [];
  sha256 = some a_hash;
}

abbrev pub a_directory : Entry
a_directory = record {
  kind = directory;
  mode = 0o755;
  mtime = 7;
  offset = 0;
  size = 0;
  path = codes "a";
  link = [];
  xattrs = [];
  sha256 = none;
}

abbrev pub a_table : Table
a_table = record { layer = codes "sha256:0a"; entries = a_directory ∷ (a_file ∷ []) }

abbrev pub a_body : Bytes
a_body =
    name_bytes (codes "sha256:0a") ++ (to_le_bytes 4 2 ++ (encode a_directory ++ encode a_file))

pub a_file-IsEntry : IsEntry a_file
unfolding is_file
a_file-IsEntry = record {
  mode = omega arith;
  mtime = omega arith;
  offset = omega arith;
  size = omega arith;
  hash = refl;
}

pub a_directory-IsEntry : IsEntry a_directory
unfolding is_file
a_directory-IsEntry = record {
  mode = omega arith;
  mtime = omega arith;
  offset = omega arith;
  size = omega arith;
  hash = tt;
}

a_table-IsTable : IsTable a_table
unfolding is_utf8
a_table-IsTable = record {
  text = refl;
  entries = (a_directory-IsEntry, (a_file-IsEntry, tt));
  count = omega arith;
}

write_entry-a_file : write_entry [] a_file ≡ ok (encode a_file)
unfolding write_entry to_le_bytes code is_file
write_entry-a_file = refl

table_body-a_table : table_body a_table ≡ ok a_body
unfolding table_body write_entry write_bytes to_le_bytes code is_file
table_body-a_table = refl

abbrev pub framed : Bytes → Bytes
framed body = magic ++ (to_le_bytes 8 (length body) ++ (to_le_bytes 8 (length body) ++ body))

write_framed-a_body : write_framed stored magic a_body ≡ ok (framed a_body)
unfolding write_framed
write_framed-a_body = refl

write_to-a_table : write_to stored a_table ≡ ok (framed a_body)
unfolding write_to table_body write_entry write_bytes write_framed to_le_bytes code is_file
write_to-a_table = refl

a_body_short : length a_body ≤ max_entries * 512
unfolding to_le_bytes code
a_body_short = omega arith

framed_short : length (framed a_body) < 256 ^ 8
unfolding to_le_bytes code
framed_short = omega arith

read_from-write_to_example : read_from stored (framed a_body ++ codes "more") ≡ ok a_table
read_from-write_to_example =
    read_from-write_to stored stored-IsLossless a_table a_body (framed a_body) (codes "more")
      a_table-IsTable table_body-a_table a_body_short write_to-a_table framed_short

key_cmp-eq-lex_example :
    key_cmp (codes "a-longer/path") (codes "a-longer.path")
    ≡ lex (codes "a-longer/path") (codes "a-longer.path")
key_cmp-eq-lex_example =
    key_cmp-eq-lex (codes "a-longer/path") (codes "a-longer.path") slashed dotted
  where
    slashed : AreBytes (codes "a-longer/path")
    slashed = (
      omega arith,
      (
        omega arith,
        (
          omega arith,
          (
            omega arith,
            (
              omega arith,
              (
                omega arith,
                (
                  omega arith,
                  (
                    omega arith,
                    (omega arith, (omega arith, (omega arith, (omega arith, (omega arith, tt))))),
                  ),
                ),
              ),
            ),
          ),
        ),
      ),
    )

    dotted : AreBytes (codes "a-longer.path")
    dotted = (
      omega arith,
      (
        omega arith,
        (
          omega arith,
          (
            omega arith,
            (
              omega arith,
              (
                omega arith,
                (
                  omega arith,
                  (
                    omega arith,
                    (omega arith, (omega arith, (omega arith, (omega arith, (omega arith, tt))))),
                  ),
                ),
              ),
            ),
          ),
        ),
      ),
    )
