-- ===== src/Tests/Indexes.antt =====
-- A written checkpoint index, with a deflate that keeps its input, for source/src/zinfo.rs.
use rules_oci_runtime.Prelude.{
  ◌≤◌, ◌≡◌, refl, ap, [], ◌∷◌, ◌++◌, Bytes, codes, arith, ok, ok-injective, length, take, drop,
  take_all, take-append, drop-append, to_le_bytes, inl,
}
use rules_oci_runtime.Zinfo.{
  gzip, Index, WindowCodec, index_magic, write_point, write_points, write_zinfo, read_zinfo,
}
use rules_oci_runtime.Zinfo.Read.{IsIndex, read_zinfo-IsIndex}
use rules_oci_runtime.Prelude.{some}
use rules_oci_runtime.Zinfo.Stored.{stored_index, all_spans, all_spans-stored_index}
use rules_oci_runtime.Zinfo.RoundTrip.{IsLosslessCodec, read_zinfo-write_zinfo}

abbrev keeping : WindowCodec
keeping = record {
  deflate = λ b. ok b;
  inflate = λ s len limit. ok (take limit (take len s), drop len s);
}

keeping-IsLosslessCodec : IsLosslessCodec keeping
keeping-IsLosslessCodec = record {
  inflate-deflate = λ window stream rest limit h k.
      let same : window ≡ stream = ok-injective window stream h in
      let long : length stream ≤ limit = omega (arith, ap (λ (x : Bytes). length x) same) in
      rw (take-append stream rest, drop-append stream rest, take_all stream limit long, same) refl;
  deflate_short = λ window stream h k.
      let same : window ≡ stream = ok-injective window stream h in
      omega (arith, ap (λ (x : Bytes). length x) same);
}

abbrev an_index : Index
an_index = record {
  flavor = gzip;
  uncompressed_len = 4096;
  checkpoints =
      record { in_offset = 10; bits = 0; out_offset = 0; window = []; crc = 77 }
      ∷ (record { in_offset = 900; bits = 3; out_offset = 2048; window = codes "window"; crc = 78 }
          ∷ []);
}

abbrev an_index_written : Bytes
an_index_written =
    index_magic
    ++ ((0 ∷ [])
        ++ (to_le_bytes 8 4096
            ++ (to_le_bytes 4 2
                ++ ((to_le_bytes 8 10
                      ++ (to_le_bytes 8 0
                          ++ (to_le_bytes 4 77 ++ ((0 ∷ []) ++ (to_le_bytes 4 0 ++ [])))))
                    ++ ((to_le_bytes 8 900
                          ++ (to_le_bytes 8 2048
                              ++ (to_le_bytes 4 78
                                  ++ ((3 ∷ []) ++ (to_le_bytes 4 6 ++ codes "window")))))
                        ++ [])))))

an_index-IsIndex : IsIndex an_index
an_index-IsIndex = record {
  written = λ e. cc;
  some_points = omega arith;
  few = omega arith;
  points = (
    record { window = omega arith; bits = omega arith; frame = inl refl },
    (record { window = omega arith; bits = omega arith; frame = inl refl }, tt),
  );
  ordered = (omega arith, omega arith, (omega arith, omega arith, tt));
  inside = (omega arith, (omega arith, tt));
}

write_zinfo-an_index : write_zinfo keeping an_index ≡ ok an_index_written
unfolding write_zinfo write_points write_point to_le_bytes
write_zinfo-an_index = refl

read_back : read_zinfo keeping (an_index_written ++ codes "more") ≡ ok an_index
read_back =
    read_zinfo-write_zinfo keeping keeping-IsLosslessCodec an_index an_index_written (codes "more")
      an_index-IsIndex (omega arith)
      (
        record { in_offset = omega arith; out_offset = omega arith; crc = omega arith },
        (record { in_offset = omega arith; out_offset = omega arith; crc = omega arith }, tt),
      )
      write_zinfo-an_index

read_zinfo-write_zinfo_example : read_zinfo keeping (an_index_written ++ codes "more") ≡ ok an_index
read_zinfo-write_zinfo_example =
    read_zinfo-write_zinfo keeping keeping-IsLosslessCodec an_index an_index_written (codes "more")
      an_index-IsIndex (omega arith)
      (
        record { in_offset = omega arith; out_offset = omega arith; crc = omega arith },
        (record { in_offset = omega arith; out_offset = omega arith; crc = omega arith }, tt),
      )
      write_zinfo-an_index

read_zinfo-IsIndex_example : IsIndex an_index
read_zinfo-IsIndex_example =
    read_zinfo-IsIndex keeping (an_index_written ++ codes "more") an_index read_back

-- Three windows, the last of them shorter.
all_spans-stored_index_example :
    all_spans
      (codes "abcde")
      (length (codes "abcde"))
      (stored_index (length (codes "abcde")) 2).checkpoints
    ≡ some (codes "abcde")
all_spans-stored_index_example = all_spans-stored_index (codes "abcde") 2
