-- ===== src/Zinfo/Read.antt =====
-- What an index that was read holds to (`Index::read_from` of source/src/zinfo.rs).
use rules_oci_runtime.Prelude.{
  ℕ, zero, suc, ◌+◌, ◌≤◌, ◌≡◌, ◌≢◌, ◌⊎◌, inl, inr, refl, ap, Bool, true, false, not, ◌&&◌, ◌||◌,
  Option, none, some, List, [], ◌∷◌, Bytes, All, ◌==◌, ==_iff, ltb, length, if◌then◌else◌, Result,
  ok, err, ok-injective, >>=-eq-ok, ◌>>=◌, ◌>>◌, ok_or, from_le_bytes, ◌=b◌, arith,
}
use mathlib.Core.Path.{subst}
use rules_oci_runtime.Errors.{IoError, other}
use rules_oci_runtime.Fsutil.{is_empty}
use rules_oci_runtime.Entries.Framed.{read_exact}
use rules_oci_runtime.Zinfo.{
  Flavor, gzip, zstd, stored, Checkpoint, Index, WindowCodec, index_magic, window_size,
  max_checkpoints, flavor_of, is_zstd, byte_of, point_of, check_point, read_point, is_before,
  read_points, last_out, ends_before, check_end, read_counted, read_flavored, read_zinfo,
}

-- A checkpoint that decompression can be resumed from.
pub record IsPoint (flavor : Flavor) (point : Checkpoint) : Type 0 where
  pub window : length point.window ≤ window_size
  pub bits : point.bits ≤ 7
  -- a zstd frame is resumed from nothing
  pub frame : (is_zstd flavor ≡ false) ⊎ ((point.window ≡ []) × (point.bits ≡ 0))

-- Checkpoints in order, from the two offsets on.
abbrev pub Follows : ℕ → ℕ → List Checkpoint → Type 0
Follows i o [] = Unit
Follows i o (point ∷ more) =
    (i ≤ point.in_offset) × (o ≤ point.out_offset) × Follows point.in_offset point.out_offset more

pub record IsIndex (index : Index) : Type 0 where
  pub written : index.flavor ≢ stored
  pub some_points : 1 ≤ length index.checkpoints
  pub few : length index.checkpoints ≤ max_checkpoints
  pub points : All (IsPoint index.flavor) index.checkpoints
  pub ordered : Follows 0 0 index.checkpoints
  pub inside :
      All (λ (point : Checkpoint). point.out_offset ≤ index.uncompressed_len) index.checkpoints

check_point-IsPoint :
    (flavor : Flavor) (point : Checkpoint) → check_point flavor point ≡ ok tt → IsPoint flavor point
unfolding check_point
check_point-IsPoint flavor point h =
    go (ltb window_size (length point.window)) (ltb 7 point.bits) (is_zstd flavor) point.window
      (point.bits == 0) refl refl refl refl refl h
  where
    go :
        (w b z : Bool) (window : Bytes) (n : Bool)
        → ltb window_size (length point.window) ≡ w
        → ltb 7 point.bits ≡ b
        → is_zstd flavor ≡ z
        → point.window ≡ window
        → (point.bits == 0) ≡ n
        → ◌≡◌ {A = Result IoError (Unit {0})}
            (if w || b
              then err (other "malformed checkpoint")
              else if z && (not (is_empty window) || not n)
              then err (other "malformed checkpoint")
              else ok tt)
            (ok tt)
        → IsPoint flavor point
    go true b z window n ew eb ez ewin en k = cc
    go false true z window n ew eb ez ewin en k = cc
    go false false false window n ew eb ez ewin en k = record {
      window = ground arith;
      bits = ground arith;
      frame = inl ez;
    }
    go false false true [] true ew eb ez ewin en k = record {
      window = ground arith;
      bits = ground arith;
      frame = inr (ewin, (==_iff point.bits 0).0 en);
    }
    go false false true [] false ew eb ez ewin en k = cc
    go false false true (x ∷ window) n ew eb ez ewin en k = cc

read_point-IsPoint :
    (d : WindowCodec) (flavor : Flavor) (s : Bytes) (r : Checkpoint × Bytes)
    → read_point d flavor s ≡ ok r
    → IsPoint flavor r.0
unfolding read_point
read_point-IsPoint d flavor s r h =
    let ((in_offset, s₁), w₁, k₁) = >>=-eq-ok (read_exact 8 s) _ h in
    let ((out_offset, s₂), w₂, k₂) = >>=-eq-ok (read_exact 8 s₁) _ k₁ in
    let ((crc, s₃), w₃, k₃) = >>=-eq-ok (read_exact 4 s₂) _ k₂ in
    let ((bits, s₄), w₄, k₄) = >>=-eq-ok (read_exact 1 s₃) _ k₃ in
    let ((len, s₅), w₅, k₅) = >>=-eq-ok (read_exact 4 s₄) _ k₄ in
    let ((window, s₆), w₆, k₆) =
      >>=-eq-ok (d.inflate s₅ (from_le_bytes len) (window_size + 1)) _ k₅ in
    passed (point_of in_offset bits out_offset window crc) s₆
      (check_point flavor (point_of in_offset bits out_offset window crc)) refl k₆
  where
    passed :
        (point : Checkpoint) (rest : Bytes) (c : Result IoError (Unit {0}))
        → check_point flavor point ≡ c
        → (c >> ok (point, rest)) ≡ ok r
        → IsPoint flavor r.0
    passed point rest (err e) q k = cc
    passed point rest (ok u) q k =
        subst (λ (x : Checkpoint × Bytes). IsPoint flavor x.0) (ok-injective (point, rest) r k)
          (check_point-IsPoint flavor point q)

abbrev FromPrevious : Option (ℕ × ℕ) → List Checkpoint → Type 0
FromPrevious none points = Follows 0 0 points
FromPrevious (some (i, o)) points = Follows i o points

in_order :
    (previous : Option (ℕ × ℕ)) (point : Checkpoint) (more : List Checkpoint)
    → is_before previous point ≡ false
    → Follows point.in_offset point.out_offset more
    → FromPrevious previous (point ∷ more)
in_order none point more b f = (omega arith, omega arith, f)
in_order (some (i, o)) point more b f = (ground arith, ground arith, f)

read_points-Follows :
    (d : WindowCodec) (flavor : Flavor) (n : ℕ) (previous : Option (ℕ × ℕ)) (s : Bytes)
    (r : List Checkpoint × Bytes)
    → read_points d flavor n previous s ≡ ok r
    → (length r.0 ≡ n) × All (IsPoint flavor) r.0 × FromPrevious previous r.0
unfolding read_points
read_points-Follows d flavor zero none s r h =
    subst
      (λ (x : List Checkpoint × Bytes).
        (length x.0 ≡ 0) × All (IsPoint flavor) x.0 × FromPrevious none x.0)
      (ok-injective ([], s) r h) (refl, tt, tt)
read_points-Follows d flavor zero (some p) s r h =
    subst
      (λ (x : List Checkpoint × Bytes).
        (length x.0 ≡ 0) × All (IsPoint flavor) x.0 × FromPrevious (some p) x.0)
      (ok-injective ([], s) r h) (refl, tt, tt)
read_points-Follows d flavor (suc n) previous s r h =
    let (first, w, k) = >>=-eq-ok (read_point d flavor s) _ h in
    next first (is_before previous first.0) refl (read_point-IsPoint d flavor s first w)
      (λ r' m.
        read_points-Follows d flavor n (some (first.0.in_offset, first.0.out_offset)) first.1 r' m)
      k
  where
    next :
        (first : Checkpoint × Bytes) (b : Bool)
        → is_before previous first.0 ≡ b
        → IsPoint flavor first.0
        → ((r' : List Checkpoint × Bytes)
            → read_points d flavor n (some (first.0.in_offset, first.0.out_offset)) first.1 ≡ ok r'
            → (length r'.0 ≡ n)
              × All (IsPoint flavor) r'.0
              × Follows first.0.in_offset first.0.out_offset r'.0)
        → (if b
            then err (other "checkpoints out of order")
            else (read_points d flavor n (some (first.0.in_offset, first.0.out_offset)) first.1
                >>= λ r'. ok (first.0 ∷ r'.0, r'.1)))
          ≡ ok r
        → (length r.0 ≡ suc n) × All (IsPoint flavor) r.0 × FromPrevious previous r.0
    next first true e p ih k = cc
    next first false e p ih k =
        let (r', w, m) =
          >>=-eq-ok (read_points d flavor n (some (first.0.in_offset, first.0.out_offset)) first.1)
            _ k in
        let (l, ps, f) = ih r' w in
        subst
          (λ (x : List Checkpoint × Bytes).
            (length x.0 ≡ suc n) × All (IsPoint flavor) x.0 × FromPrevious previous x.0)
          (ok-injective (first.0 ∷ r'.0, r'.1) r m)
          (ap suc l, (p, ps), in_order previous first.0 r'.0 e f)

-- Where the last checkpoint lies inside the stream, all of them do.
last_inside :
    (uncompressed_len i o : ℕ) (points : List Checkpoint)
    → Follows i o points
    → ends_before uncompressed_len (last_out (some o) points) ≡ false
    → (o ≤ uncompressed_len)
      × All (λ (point : Checkpoint). point.out_offset ≤ uncompressed_len) points
last_inside uncompressed_len i o [] f e = (ground arith, tt)
last_inside uncompressed_len i o (point ∷ more) f e =
    let (here, rest) = last_inside uncompressed_len point.in_offset point.out_offset more f.2 e in
    (omega (arith, f.1, here), (here, rest))

read_counted-IsIndex :
    (d : WindowCodec) (flavor : Flavor) (uncompressed_len count : ℕ) (s : Bytes) (index : Index)
    → flavor ≢ stored
    → read_counted d flavor uncompressed_len count s ≡ ok index
    → IsIndex index
unfolding read_counted
read_counted-IsIndex d flavor uncompressed_len count s index v h =
    counted (count == 0) (ltb max_checkpoints count) refl refl h
  where
    ended :
        (points : List Checkpoint)
        → 1 ≤ length points
        → length points ≤ max_checkpoints
        → All (IsPoint flavor) points
        → Follows 0 0 points
        → check_end flavor uncompressed_len points ≡ ok index
        → IsIndex index
    ended [] some_points few ps f k = absurd (omega arith)
    ended (point ∷ more) some_points few ps f k =
        at_end (ends_before uncompressed_len (last_out (some point.out_offset) more)) refl k
      where
        at_end :
            (b : Bool)
            → ends_before uncompressed_len (last_out (some point.out_offset) more) ≡ b
            → ◌≡◌ {A = Result IoError Index}
                (if b
                  then err (other "checkpoints out of order")
                  else ok (record {
                    flavor = flavor;
                    uncompressed_len = uncompressed_len;
                    checkpoints = point ∷ more;
                  }))
                (ok index)
            → IsIndex index
        at_end true e j = cc
        at_end false e j = subst IsIndex (ok-injective _ index j) (record {
          written = v;
          some_points = some_points;
          few = few;
          points = ps;
          ordered = f;
          inside = last_inside uncompressed_len point.in_offset point.out_offset more f.2 e;
        })

    counted :
        (z m : Bool)
        → (count == 0) ≡ z
        → ltb max_checkpoints count ≡ m
        → (if z || m
            then err (other "implausible checkpoint count")
            else (read_points d flavor count none s >>= λ r. check_end flavor uncompressed_len r.0))
          ≡ ok index
        → IsIndex index
    counted true m ez em k = cc
    counted false true ez em k = cc
    counted false false ez em k =
        let (r, w, j) = >>=-eq-ok (read_points d flavor count none s) _ k in
        let (l, ps, f) = read_points-Follows d flavor count none s r w in
        let count_few : count ≤ max_checkpoints = ground arith in
        let count_some : 1 ≤ count = ground arith in ended r.0 (omega arith) (omega arith) ps f j

flavor_of_written : (code : ℕ) (flavor : Flavor) → flavor_of code ≡ some flavor → flavor ≢ stored
flavor_of_written code flavor h = go (code == 0) (code == 1) flavor h
  where
    go :
        (z o : Bool) (flavor : Flavor)
        → ◌≡◌ {A = Option Flavor}
            (if z then some gzip else if o then some zstd else none)
            (some flavor)
        → flavor ≢ stored
    go true o flavor k e = cc
    go false true flavor k e = cc
    go false false flavor k e = cc

-- Whatever a file holds, an index that is read from it is of gzip or zstd, has at least one
-- checkpoint and at most `max_checkpoints`, which are in order in the blob and in the stream and
-- lie inside the stream; each has a window of at most `window_size` bytes and at most seven bits,
-- and none of either where the format is zstd.
pub read_zinfo-IsIndex :
    (d : WindowCodec) (s : Bytes) (index : Index) → read_zinfo d s ≡ ok index → IsIndex index
unfolding read_zinfo read_flavored
read_zinfo-IsIndex d s index h =
    let ((found, s₁), w₁, k₁) = >>=-eq-ok (read_exact 4 s) _ h in named s₁ (found =b index_magic) k₁
  where
    named :
        (s₁ : Bytes) (b : Bool)
        → (if b then read_flavored d s₁ else err (other "not a checkpoint index")) ≡ ok index
        → IsIndex index
    named s₁ false k = cc
    named s₁ true k =
        let ((byte, s₂), w₂, k₂) = >>=-eq-ok (read_exact 1 s₁) _ k in
        let (flavor, w₃, k₃) =
          >>=-eq-ok (ok_or (flavor_of (byte_of byte)) (other "unknown compressed format")) _ k₂ in
        let ((len, s₄), w₄, k₄) = >>=-eq-ok (read_exact 8 s₂) _ k₃ in
        let ((count, s₅), w₅, k₅) = >>=-eq-ok (read_exact 4 s₄) _ k₄ in
        read_counted-IsIndex d flavor (from_le_bytes len) (from_le_bytes count) s₅ index
          (flavor_of_written (byte_of byte) flavor (known (flavor_of (byte_of byte)) flavor w₃)) k₅
      where
        known :
            (o : Option Flavor) (flavor : Flavor)
            → ok_or o (other "unknown compressed format") ≡ ok flavor
            → o ≡ some flavor
        known none flavor k = cc
        known (some f) flavor k = ap some (ok-injective f flavor k)
