-- ===== src/Entries/Framed.antt =====
-- `write_framed` and `read_framed`: a body deflated behind a magic and both lengths. The deflate
-- encoder and decoder are parameters.
use rules_oci_runtime.Prelude.{
  ℕ, ◌+◌, ◌*◌, ◌<◌, ◌≤◌, ◌^◌, ◌≡◌, refl, ap, false, ◌++◌, Bytes, length, take, drop, ◌==◌, ◌=b◌,
  =b_refl, ltb, if◌then◌else◌, Result, ok, err, ◌>>=◌, to_le_bytes, from_le_bytes,
  length-to_le_bytes, from_le_bytes-to_le_bytes, ==_refl, >>=-eq-ok, ok-injective, take_all,
  length-append, take-append, drop-append, arith,
}
use mathlib.Core.List.{append_assoc}
use Prim.Native.String.{String, ◌++◌ as ◌<>◌}
use rules_oci_runtime.Errors.{IoError, other, unexpected_eof}
use rules_oci_runtime.Entries.{max_entries}

-- The deflate library. `inflate stream limit` is what reading a decoder over `stream` to its end
-- gives, cut after `limit` bytes.
pub record Deflate : Type 0 where
  pub deflate : Bytes → Result IoError Bytes
  pub inflate : Bytes → ℕ → Result IoError Bytes

-- Decoding what the encoder made gives the body back, up to the limit.
pub record IsLossless (d : Deflate) : Type 0 where
  pub inflate-deflate :
      (body stream : Bytes) (limit : ℕ)
      → d.deflate body ≡ ok stream
      → d.inflate stream limit ≡ ok (take limit body)

-- `read_exact`
unfoldable pub read_exact : ℕ → Bytes → Result IoError (Bytes × Bytes)
read_exact n stream =
    if ltb (length stream) n then err unexpected_eof else ok (take n stream, drop n stream)

module _ (d : Deflate) where
  unfoldable pub write_framed : Bytes → Bytes → Result IoError Bytes
  write_framed magic body = do
    compressed ← d.deflate body
    ok (magic ++ (to_le_bytes 8 (length body) ++ (to_le_bytes 8 (length compressed) ++ compressed)))

  unfoldable pub check_length : String → ℕ → Bytes → Result IoError Bytes
  check_length what plain_len body =
      if length body == plain_len then ok body else err (other ("truncated " <> what))

  unfoldable pub read_body : String → ℕ → ℕ → Bytes → Result IoError Bytes
  unfolding check_length
  read_body what plain_len compressed_len stream =
      if ltb (max_entries * 512) plain_len then err (other ("implausible " <> what)) else (do
        body ← d.inflate (take compressed_len stream) (plain_len + 1)
        check_length what plain_len body)

  unfoldable pub read_lengths : String → Bytes → Result IoError Bytes
  unfolding read_body
  read_lengths what stream = do
    (plain, stream₁) ← read_exact 8 stream
    (compressed, stream₂) ← read_exact 8 stream₁
    read_body what (from_le_bytes plain) (from_le_bytes compressed) stream₂

  unfoldable pub read_framed : Bytes → String → Bytes → Result IoError Bytes
  unfolding read_lengths
  read_framed magic what stream = do
    (found, rest) ← read_exact 4 stream
    if found =b magic then read_lengths what rest else err (other ("not " <> what))

pub read_exact-append :
    (n : ℕ) (xs ys : Bytes) → length xs ≡ n → read_exact n (xs ++ ys) ≡ ok (xs, ys)
unfolding read_exact
read_exact-append n xs ys e = rw (← e) (
    let long : ltb (length (xs ++ ys)) (length xs) ≡ false = ground (arith, length-append xs ys) in
    rw (long, take-append xs ys, drop-append xs ys) refl)

module _ (d : Deflate) (L : IsLossless d) where
  read_body-deflate :
      (what : String) (body stream rest : Bytes)
      → d.deflate body ≡ ok stream
      → length body ≤ max_entries * 512
      → read_body d what (length body) (length stream) (stream ++ rest) ≡ ok body
  unfolding read_body
  read_body-deflate what body stream rest e h =
      let plausible : ltb (max_entries * 512) (length body) ≡ false = ground arith in
      rw
        (
          plausible,
          take-append stream rest,
          L.inflate-deflate body stream (length body + 1) e,
          take_all body (length body + 1) (omega arith),
          ==_refl (length body),
        )
        refl

  -- The bytes of a frame.
  abbrev frame : Bytes → Bytes → Bytes → Bytes
  frame magic body stream =
      magic ++ (to_le_bytes 8 (length body) ++ (to_le_bytes 8 (length stream) ++ stream))

  read_framed-frame :
      (magic : Bytes) (what : String) (body stream rest : Bytes)
      → length magic ≡ 4
      → d.deflate body ≡ ok stream
      → length body ≤ max_entries * 512
      → length stream < 256 ^ 8
      → read_framed d magic what (frame magic body stream ++ rest) ≡ ok body
  unfolding read_framed
  read_framed-frame magic what body stream rest m e h k =
      rw
        (
          append_assoc magic
              (to_le_bytes 8 (length body) ++ (to_le_bytes 8 (length stream) ++ stream)) rest,
          read_exact-append 4 magic _ m,
          =b_refl magic,
          append_assoc (to_le_bytes 8 (length body)) (to_le_bytes 8 (length stream) ++ stream) rest,
          read_exact-append 8 (to_le_bytes 8 (length body)) _ (length-to_le_bytes 8 _),
          append_assoc (to_le_bytes 8 (length stream)) stream rest,
          read_exact-append 8 (to_le_bytes 8 (length stream)) _ (length-to_le_bytes 8 _),
          from_le_bytes-to_le_bytes 8 (length body) (omega arith),
          from_le_bytes-to_le_bytes 8 (length stream) k,
        )
        (read_body-deflate what body stream rest e h)

  length-frame : (magic body stream : Bytes) → length stream ≤ length (frame magic body stream)
  length-frame magic body stream = omega (
    arith,
    length-append magic (to_le_bytes 8 (length body) ++ (to_le_bytes 8 (length stream) ++ stream)),
    length-append (to_le_bytes 8 (length body)) (to_le_bytes 8 (length stream) ++ stream),
    length-append (to_le_bytes 8 (length stream)) stream,
  )

  -- With a lossless deflate, a framed body behind a magic of four bytes is read back whole,
  -- whatever follows it, if it is not longer than the reader allows and the frame is shorter
  -- than 256 ^ 8.
  pub read_framed-write_framed :
      (magic : Bytes) (what : String) (body out rest : Bytes)
      → length magic ≡ 4
      → write_framed d magic body ≡ ok out
      → length body ≤ max_entries * 512
      → length out < 256 ^ 8
      → read_framed d magic what (out ++ rest) ≡ ok body
  unfolding write_framed
  read_framed-write_framed magic what body out rest m w h k =
      let (stream, e, f) = >>=-eq-ok (d.deflate body) _ w in
      let o : frame magic body stream ≡ out = ok-injective _ _ f in
      let bound : length stream < 256 ^ 8 =
        omega (arith, length-frame magic body stream, ap (λ (t : Bytes). length t) o) in
      rw o at (read_framed-frame magic what body stream rest m e h bound)
