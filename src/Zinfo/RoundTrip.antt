-- ===== src/Zinfo/RoundTrip.antt =====
-- Written indexes, and the reader over them (`Index::write_to` and `Index::read_from` of
-- source/src/zinfo.rs).
use rules_oci_runtime.Prelude.{
  ℕ, ◌+◌, ◌^◌, ◌≤◌, ◌<◌, ◌≡◌, ◌≢◌, ◌⊎◌, inl, inr, refl, Bool, true, false, not, ◌&&◌, ◌||◌, Option,
  none, some, List, [], ◌∷◌, ◌++◌, Bytes, All, ◌==◌, ltb, length, if◌then◌else◌, Result, ok, err,
  ok-injective, >>=-eq-ok, to_le_bytes, length-to_le_bytes, from_le_bytes-to_le_bytes, arith,
}
use mathlib.Core.List.{append_assoc}
use rules_oci_runtime.Errors.{IoError, other}
use rules_oci_runtime.Fsutil.{is_empty}
use rules_oci_runtime.Entries.Framed.{read_exact-append}
use rules_oci_runtime.Zinfo.{
  Flavor, gzip, zstd, stored, Checkpoint, Index, WindowCodec, index_magic, window_size,
  max_checkpoints, flavor_code, flavor_of, is_zstd, check_point, write_point, write_points,
  write_zinfo, read_point, is_before, read_points, last_out, ends_before, read_counted,
  read_flavored, read_zinfo,
}
use rules_oci_runtime.Zinfo.Read.{IsPoint, Follows, IsIndex}

-- A decoder over what the encoder made gives the window back and stops behind it, where the limit
-- lies beyond the window; and a window is not deflated into what no `u32` counts.
pub record IsLosslessCodec (d : WindowCodec) : Type 0 where
  pub inflate-deflate :
      (window stream rest : Bytes) (limit : ℕ)
      → d.deflate window ≡ ok stream
      → length window < limit
      → d.inflate (stream ++ rest) (length stream) limit ≡ ok (window, rest)
  pub deflate_short :
      (window stream : Bytes)
      → d.deflate window ≡ ok stream
      → length window ≤ window_size
      → length stream < 256 ^ 4

-- The ranges of the types.
pub record IsTypedPoint (point : Checkpoint) : Type 0 where
  pub in_offset : point.in_offset < 256 ^ 8
  pub out_offset : point.out_offset < 256 ^ 8
  pub crc : point.crc < 256 ^ 4

IsPoint-check_point :
    (flavor : Flavor) (point : Checkpoint) → IsPoint flavor point → check_point flavor point ≡ ok tt
unfolding check_point
IsPoint-check_point flavor point p =
    let narrow : ltb window_size (length point.window) ≡ false =
      (let w = p.window in ground arith) in
    let few : ltb 7 point.bits ≡ false = (let b = p.bits in ground arith) in
    rw (narrow, few) (framed p.frame)
  where
    framed :
        (is_zstd flavor ≡ false) ⊎ ((point.window ≡ []) × (point.bits ≡ 0))
        → ◌≡◌ {A = Result IoError (Unit {0})}
            (if is_zstd flavor && (not (is_empty point.window) || not (point.bits == 0))
              then err (other "malformed checkpoint")
              else ok tt)
            (ok tt)
    framed (inl e) = rw e refl
    framed (inr (w, b)) = rw (w, b) (either (is_zstd flavor))
      where
        either :
            (z : Bool)
            → ◌≡◌ {A = Result IoError (Unit {0})}
                (if z && false then err (other "malformed checkpoint") else ok tt)
                (ok tt)
        either true = refl
        either false = refl

module _ (d : WindowCodec) (L : IsLosslessCodec d) where
  read_point-encoded :
      (flavor : Flavor) (point : Checkpoint) (compressed rest : Bytes)
      → IsTypedPoint point
      → IsPoint flavor point
      → d.deflate point.window ≡ ok compressed
      → read_point d flavor (
          to_le_bytes 8 point.in_offset
          ++ (to_le_bytes 8 point.out_offset
              ++ (to_le_bytes 4 point.crc
                  ++ ((point.bits ∷ [])
                      ++ (to_le_bytes 4 (length compressed) ++ (compressed ++ rest))))))
        ≡ ok (point, rest)
  unfolding read_point
  read_point-encoded flavor point compressed rest t p e =
      let window_short : length point.window < window_size + 1 =
        (let w = p.window in omega arith) in
      rw
        (
          read_exact-append 8 (to_le_bytes 8 point.in_offset)
              (to_le_bytes 8 point.out_offset
                ++ (to_le_bytes 4 point.crc
                    ++ ((point.bits ∷ [])
                        ++ (to_le_bytes 4 (length compressed) ++ (compressed ++ rest)))))
              (length-to_le_bytes 8 point.in_offset),
          read_exact-append 8 (to_le_bytes 8 point.out_offset)
              (to_le_bytes 4 point.crc
                ++ ((point.bits ∷ [])
                    ++ (to_le_bytes 4 (length compressed) ++ (compressed ++ rest))))
              (length-to_le_bytes 8 point.out_offset),
          read_exact-append 4 (to_le_bytes 4 point.crc)
              ((point.bits ∷ []) ++ (to_le_bytes 4 (length compressed) ++ (compressed ++ rest)))
              (length-to_le_bytes 4 point.crc),
          read_exact-append 1 (point.bits ∷ [])
              (to_le_bytes 4 (length compressed) ++ (compressed ++ rest)) refl,
          read_exact-append 4 (to_le_bytes 4 (length compressed)) (compressed ++ rest)
              (length-to_le_bytes 4 (length compressed)),
          from_le_bytes-to_le_bytes 4 (length compressed)
              (L.deflate_short point.window compressed e p.window),
          L.inflate-deflate point.window compressed rest (window_size + 1) e window_short,
          from_le_bytes-to_le_bytes 8 point.in_offset t.in_offset,
          from_le_bytes-to_le_bytes 8 point.out_offset t.out_offset,
          from_le_bytes-to_le_bytes 4 point.crc t.crc,
          IsPoint-check_point flavor point p,
        )
        refl

  read_point-write_point :
      (flavor : Flavor) (point : Checkpoint) (out rest : Bytes)
      → IsTypedPoint point
      → IsPoint flavor point
      → write_point d point ≡ ok out
      → read_point d flavor (out ++ rest) ≡ ok (point, rest)
  unfolding write_point
  read_point-write_point flavor point out rest t p h =
      let (compressed, e, k) = >>=-eq-ok (d.deflate point.window) _ h in
      let made = read_point-encoded flavor point compressed rest t p e in
      rw (← ok-injective _ out k) (simp append_assoc made)

  read_points-write_points :
      (flavor : Flavor) (points : List Checkpoint) (previous : Option (ℕ × ℕ)) (i o : ℕ)
      (out rest : Bytes)
      → All IsTypedPoint points
      → All (IsPoint flavor) points
      → Follows i o points
      → ((point : Checkpoint)
          → i ≤ point.in_offset
          → o ≤ point.out_offset
          → is_before previous point ≡ false)
      → write_points d points ≡ ok out
      → read_points d flavor (length points) previous (out ++ rest) ≡ ok (points, rest)
  unfolding read_points write_points
  read_points-write_points flavor [] previous i o out rest t p f b h =
      rw (← ok-injective [] out h) refl
  read_points-write_points flavor (point ∷ more) previous i o out rest t p f b h =
      let (first, w₁, k₁) = >>=-eq-ok (write_point d point) _ h in
      let (others, w₂, k₂) = >>=-eq-ok (write_points d more) _ k₁ in
      let here = read_point-write_point flavor point first (others ++ rest) t.0 p.0 w₁ in
      let there =
        read_points-write_points flavor more (some (point.in_offset, point.out_offset))
          point.in_offset point.out_offset others rest t.1 p.1 f.2
          (λ next a c. later point next a c) w₂ in
      rw (← ok-injective _ out k₂, append_assoc first others rest, here, b point f.0 f.1, there)
        refl
    where
      later :
          (point next : Checkpoint)
          → point.in_offset ≤ next.in_offset
          → point.out_offset ≤ next.out_offset
          → is_before (some (point.in_offset, point.out_offset)) next ≡ false
      later point next a c = ground arith

ends_inside :
    (uncompressed_len : ℕ) (o : Option ℕ) (points : List Checkpoint)
    → ends_before uncompressed_len o ≡ false
    → All (λ (point : Checkpoint). point.out_offset ≤ uncompressed_len) points
    → ends_before uncompressed_len (last_out o points) ≡ false
ends_inside uncompressed_len o [] h a = h
ends_inside uncompressed_len o (point ∷ more) h a =
    ends_inside uncompressed_len (some point.out_offset) more (let first = a.0 in ground arith) a.1

flavor_of-flavor_code :
    (flavor : Flavor) → flavor ≢ stored → flavor_of (flavor_code flavor) ≡ some flavor
flavor_of-flavor_code gzip h = refl
flavor_of-flavor_code zstd h = refl
flavor_of-flavor_code stored h = absurd (h refl)

module _ (d : WindowCodec) (L : IsLosslessCodec d) where
  read_counted-write_points :
      (index : Index) (points rest : Bytes)
      → IsIndex index
      → All IsTypedPoint index.checkpoints
      → write_points d index.checkpoints ≡ ok points
      → read_counted d index.flavor index.uncompressed_len
          (length index.checkpoints)
          (points ++ rest)
        ≡ ok index
  unfolding read_counted
  read_counted-write_points index points rest v t h =
      let some_points : (length index.checkpoints == 0) ≡ false =
        (let one = v.some_points in ground arith) in
      let few : ltb max_checkpoints (length index.checkpoints) ≡ false =
        (let most = v.few in ground arith) in
      let read =
        read_points-write_points d L index.flavor index.checkpoints none 0 0 points rest t v.points
          v.ordered (λ point a b. refl) h in
      rw
        (
          some_points,
          few,
          read,
          ends_inside index.uncompressed_len none index.checkpoints refl v.inside,
        )
        refl

  -- With a lossless deflate, an index as reading gives it and within the ranges of its types that
  -- was written is read back as it was, whatever follows it.
  pub read_zinfo-write_zinfo :
      (index : Index) (out rest : Bytes)
      → IsIndex index
      → index.uncompressed_len < 256 ^ 8
      → All IsTypedPoint index.checkpoints
      → write_zinfo d index ≡ ok out
      → read_zinfo d (out ++ rest) ≡ ok index
  unfolding write_zinfo read_zinfo read_flavored
  read_zinfo-write_zinfo index out rest v u t h =
      let (points, w, k) = >>=-eq-ok (write_points d index.checkpoints) _ h in
      let few : length index.checkpoints < 256 ^ 4 = (let most = v.few in omega arith) in
      let tail : Bytes = to_le_bytes 4 (length index.checkpoints) ++ (points ++ rest) in
      let made : read_zinfo d (
            index_magic
            ++ ((flavor_code index.flavor ∷ []) ++ (to_le_bytes 8 index.uncompressed_len ++ tail)))
          ≡ ok index =
        rw
          (
            read_exact-append 4 index_magic
                ((flavor_code index.flavor ∷ []) ++ (to_le_bytes 8 index.uncompressed_len ++ tail))
                refl,
            read_exact-append 1 (flavor_code index.flavor ∷ [])
                (to_le_bytes 8 index.uncompressed_len ++ tail) refl,
            flavor_of-flavor_code index.flavor v.written,
            read_exact-append 8 (to_le_bytes 8 index.uncompressed_len) tail
                (length-to_le_bytes 8 index.uncompressed_len),
            read_exact-append 4 (to_le_bytes 4 (length index.checkpoints)) (points ++ rest)
                (length-to_le_bytes 4 (length index.checkpoints)),
            from_le_bytes-to_le_bytes 8 index.uncompressed_len u,
            from_le_bytes-to_le_bytes 4 (length index.checkpoints) few,
          )
          (read_counted-write_points index points rest v t w) in
      rw (← ok-injective _ out k) (simp append_assoc made)
